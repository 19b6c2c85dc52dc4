-- ===== src/Net/TcpServer/Lifetimes.antt =====
-- How the connections of Net/TcpServer.cpp come and go.
use cloud_assitant.Prelude.{
  ℕ, ◌≤◌, ◌≡◌, refl, sym, ap, ◌∙◌, subst, List, ◌∷◌, Option, none, some, Bool, true, false,
  if◌then◌else◌, All, arith, Bool-cases, inl, inr, Holds, bind-Holds, get_elem?, then_bind-Holds,
}
use cloud_assitant.Net.TcpConnection.{TcpConnection}
use cloud_assitant.Net.TcpConnection
use cloud_assitant.Net.EventLoop.{get_task_schduler}
use cloud_assitant.Net.TcpSocket.{Sockets}
use cloud_assitant.Net.TcpServer.{
  Object, TcpServer, erase, holds, with_object, on_connect, add_connection, remove_connection,
  set_callback, destroy, release, new_connection, close_connection, release_locked, handle_close,
}
use cloud_assitant.Net.TcpServer.Live.{
  Live, Live-with_object, holds-none, emplace-All, erase-Live, holds-erase, holds-removes,
  with_object_self, with_object-fresh, with_object-other,
}

module _ (os : Sockets) where
  -- Every entry of the map is that of an open connection that will remove itself under this key.
  pub record IsConsistent (w : TcpServer os) : Type 0 where
    pub live : All (Live w.objects) w.connects
    pub fresh : (id : ℕ) → w.next ≤ id → w.objects id ≡ none

  release-IsConsistent :
      (id : ℕ) (w : TcpServer os) → IsConsistent w → IsConsistent (release os id w)
  unfolding release destroy
  release-IsConsistent id w c = elim (Bool-cases (holds id w.connects)) [
    | inl e ↦ rw e c
    | inr e ↦ rw e (go e (w.objects id))
  ]
    where
      go :
          holds id w.connects ≡ false
          → (o : Option Object) → IsConsistent (elim o [ none ↦ w | some o ↦ destroy os id o w ])
      go e none = c
      go e (some o) = record {
        live = Live-with_object w.objects id none w.connects e c.live;
        fresh = λ j h. with_object-fresh w.objects id j none (inr refl) (c.fresh j h);
      }

  -- What OnConnect leaves: a new connection that the map does not hold yet.
  abbrev pub IsMade : ℕ → TcpServer os → ℕ → TcpServer os → Type 0
  IsMade fd w id w' =
      IsConsistent w'
      × (w'.connects ≡ w.connects)
      × (holds id w.connects ≡ false)
      × ((o : Object) × (w'.objects id ≡ some o)
          × (o.connection.is_closed ≡ false)
          × (o.connection.channel.sockfd ≡ fd))

  pub set_callback-some :
      (id : ℕ) (o : Object) (w : TcpServer os)
      → w.objects id ≡ some o
      → set_callback os id w
        ≡ record w { objects = with_object id (some (record o { removes = true })) w.objects }
  unfolding set_callback
  set_callback-some id o w e = go (w.objects id) e
    where
      go :
          (x : Option Object)
          → x ≡ some o
          → elim x [
            | none ↦ w
            | some o ↦ record w {
              objects = with_object id (some (record o { removes = true })) w.objects;
            }
          ]
            ≡ record w { objects = with_object id (some (record o { removes = true })) w.objects }
      go x e = rw e refl

  pub on_connect-Made :
      (fd : ℕ) (w : TcpServer os)
      → IsConsistent w
      → Holds (λ (id, w'). IsMade fd w id w') (on_connect os fd w)
  unfolding on_connect
  on_connect-Made fd w c = bind-Holds Made (get_task_schduler w.acceptor.loop) _ λ (k, loop).
      bind-Holds Made (get_elem? loop.task_schdulers k) _ λ s. (
        record {
          live = Live-with_object w.objects w.next _ w.connects unheld c.live;
          fresh = λ j h.
              with_object-other w.next j _ w.objects (ground (arith, h))
              ∙ c.fresh j (omega (arith, h));
        },
        refl,
        unheld,
        (_, with_object_self w.next _ w.objects, refl, refl),
      )
    where
      Made : ℕ × TcpServer os → Type 0
      Made (id, w') = IsMade fd w id w'

      unheld : holds w.next w.connects ≡ false
      unheld = holds-none w.objects w.next w.connects (c.fresh w.next (omega arith)) c.live

  pub new_connection-IsConsistent :
      (fd : ℕ) (w : TcpServer os) → IsConsistent w → Holds IsConsistent (new_connection os fd w)
  unfolding new_connection
  new_connection-IsConsistent fd w c =
      then_bind-Holds _ IsConsistent (on_connect os fd w) _ (on_connect-Made fd w c)
        λ (id, w') (c', same, unheld, (o, e, opened, key)). release-IsConsistent id _ (
          subst IsConsistent (sym (set_callback-some id o (add_connection os fd id w') e)) (record {
            live =
                emplace-All (Live (with_object id (some (record o { removes = true })) w'.objects))
                  fd id w'.connects
                  (record o { removes = true }, with_object_self id _ w'.objects, opened, refl, key)
                  (Live-with_object w'.objects id _ w'.connects (rw same unheld) c'.live);
            fresh = λ j h.
                with_object-fresh w'.objects id j _ (inl (λ n. (let f = sym e ∙ n in cc)))
                  (c'.fresh j h);
          }))

  -- What `Close` leaves: the map does not hold the connection any more.
  record IsClosed (id : ℕ) (w w' : TcpServer os) : Type 0 where
    consistent : IsConsistent w'
    unheld : holds id w'.connects ≡ false
    object : (o : Object) × (w'.objects id ≡ some o)
    freed : w'.freed_locked ≡ w.freed_locked

  close_connection-IsClosed :
      (id : ℕ) (o : Object) (w : TcpServer os)
      → IsConsistent w
      → w.objects id ≡ some o
      → IsClosed id w (close_connection os id o w)
  unfolding close_connection remove_connection
  close_connection-IsClosed id o w c e = go o.removes refl
    where
      after : List (ℕ × ℕ) → TcpServer os
      after cs = record w {
        connects = cs;
        objects =
            with_object id (some (record o { connection = TcpConnection.close o.connection }))
              w.objects;
      }

      made :
          (cs : List (ℕ × ℕ))
          → All (Live w.objects) cs
          → holds id cs ≡ false
          → IsClosed id w (after cs)
      made cs l h = record {
        consistent = record {
          live = Live-with_object w.objects id _ cs h l;
          fresh = λ j k.
              with_object-fresh w.objects id j _ (inl (λ n. (let f = sym e ∙ n in cc)))
                (c.fresh j k);
        };
        unheld = h;
        object = (_, with_object_self id _ w.objects);
        freed = refl;
      }

      go :
          (b : Bool)
          → o.removes ≡ b
          → IsClosed id w
              (if b then after (erase o.connection.channel.sockfd w.connects) else after w.connects)
      go true r =
          made (erase o.connection.channel.sockfd w.connects)
            (erase-Live w.objects o.connection.channel.sockfd w.connects c.live)
            (holds-erase w.objects id o w.connects e c.live)
      go false r = made w.connects c.live (holds-removes w.objects id o w.connects e r c.live)

  abbrev IsFreed : ℕ → TcpServer os → TcpServer os → Type 0
  IsFreed id w w' =
      IsConsistent w' × (w'.objects id ≡ none) × (w'.freed_locked ≡ id ∷ w.freed_locked)

  release_locked-IsFreed :
      (id : ℕ) (w w' : TcpServer os) → IsClosed id w w' → IsFreed id w (release_locked os id w')
  unfolding release_locked release destroy
  release_locked-IsFreed id w w' c = rw c.unheld (go (w'.objects id) c.object.1)
    where
      locked : TcpServer os
      locked = record w' { freed_locked = id ∷ w'.freed_locked }

      go :
          (x : Option Object)
          → x ≡ some c.object.0
          → IsFreed id w (elim x [ none ↦ locked | some o ↦ destroy os id o locked ])
      go none f = cc
      go (some o) f = (
        record {
          live = Live-with_object w'.objects id none w'.connects c.unheld c.consistent.live;
          fresh = λ j h. with_object-fresh w'.objects id j none (inr refl) (c.consistent.fresh j h);
        },
        with_object_self id none w'.objects,
        ap (◌∷◌ id) c.freed,
      )

  -- When an open connection of the server closes itself, it is destroyed before the method that
  -- closed it has released its mutex, and the map of connections stays consistent.
  pub handle_close-freed :
      (id : ℕ) (o : Object) (w : TcpServer os)
      → IsConsistent w
      → w.objects id ≡ some o
      → o.connection.is_closed ≡ false
      → IsConsistent (handle_close os id w)
        × ((handle_close os id w).objects id ≡ none)
        × ((handle_close os id w).freed_locked ≡ id ∷ w.freed_locked)
  unfolding handle_close
  handle_close-freed id o w c e opened = go (w.objects id) e
    where
      go :
          (x : Option Object)
          → x ≡ some o
          → IsFreed id w (elim x [
            | none ↦ w
            | some o ↦
                if o.connection.is_closed
                then w
                else release_locked os id (close_connection os id o w)
          ])
      go x f = rw f (still_open o.connection.is_closed opened)
        where
          still_open :
              (b : Bool)
              → b ≡ false
              → IsFreed id w (if b then w else release_locked os id (close_connection os id o w))
          still_open true g = cc
          still_open false g =
              release_locked-IsFreed id w (close_connection os id o w)
                (close_connection-IsClosed id o w c e)
