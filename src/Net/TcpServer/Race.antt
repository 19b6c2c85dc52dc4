-- ===== src/Net/TcpServer/Race.antt =====
-- The callback for new connections of Net/TcpServer.cpp on one thread, and a hang-up that the thread
-- of the connection's scheduler handles before the callback is done.
use cloud_assitant.Prelude.{
  ℕ, ◌+◌, ◌≡◌, refl, sym, ap, ◌∙◌, subst, List, [], ◌∷◌, some, Bool, true, false, ◌==◌, ◌||◌,
  if◌then◌else◌, Bool-cases, inl, inr, arith,
}
use cloud_assitant.Net.TcpConnection
use cloud_assitant.Net.TcpSocket.{Sockets}
use cloud_assitant.Net.TcpServer.{
  Object, TcpServer, emplace, holds, with_object, add_connection, set_callback, release,
  close_connection, remove_connection, handle_close,
}
use cloud_assitant.Net.Channel.{remove_channel}
use cloud_assitant.Net.TcpServer.Stop.{handle_close-closed}
use cloud_assitant.Net.TcpServer.Live.{with_object_self}
use cloud_assitant.Net.TcpServer.Lifetimes.{set_callback-some}

-- A key that the map does not have.
unfoldable pub is_key : ℕ → List (ℕ × ℕ) → Bool
is_key fd [] = false
is_key fd ((k, j) ∷ cs) = k == fd || is_key fd cs

holds-emplace :
    (fd id : ℕ) (cs : List (ℕ × ℕ)) → is_key fd cs ≡ false → holds id (emplace fd id cs) ≡ true
unfolding holds emplace is_key
holds-emplace fd id [] e = rw (self id) refl
  where
    self : (n : ℕ) → (n == n) ≡ true
    self n = ground arith
holds-emplace fd id ((k, j) ∷ cs) e = elim (Bool-cases (k == fd)) [
  | inl f ↦ (let g = rw f at e in cc)
  | inr f ↦ rw f (elim (Bool-cases (j == id)) [
    | inl g ↦ rw g refl
    | inr g ↦ rw g (holds-emplace fd id cs (rw f at e))
  ])
]

module _ (os : Sockets) where
  -- A new connection whose `Close` runs before the callback has put it into the map and set
  -- SetDisConnectCallback; the callback still holds the connection at that time.
  unfoldable pub early_close : ℕ → ℕ → Object → TcpServer os → TcpServer os
  unfolding close_connection add_connection set_callback release
  early_close fd id o w =
      release os id (set_callback os id (add_connection os fd id (close_connection os id o w)))

  -- The connection then: closed, and with the callback set.
  abbrev left_open : Object → Object
  left_open o = record o { connection = TcpConnection.close o.connection; removes = true }

  abbrev left_behind : ℕ → ℕ → Object → TcpServer os → TcpServer os
  left_behind fd id o w = record w {
    connects = emplace fd id w.connects;
    objects = with_object id (some (left_open o)) (
        with_object id (some (record o { connection = TcpConnection.close o.connection }))
          w.objects);
  }

  close-is_closed : (c : TcpConnection.TcpConnection) → (TcpConnection.close c).is_closed ≡ true
  unfolding TcpConnection.close
  close-is_closed c = go c.is_closed refl
    where
      go :
          (b : Bool)
          → c.is_closed ≡ b
          → (if b then c else record c {
            is_closed = true;
            scheduler = remove_channel c.scheduler c.channel;
            closings = c.closings + 1;
          }).is_closed
            ≡ true
      go true e = e
      go false e = refl

  release-held : (id : ℕ) (w : TcpServer os) → holds id w.connects ≡ true → release os id w ≡ w
  unfolding release
  release-held id w h = rw h refl

  close_connection-stays :
      (id : ℕ) (o : Object) (w : TcpServer os)
      → o.removes ≡ false
      → close_connection os id o w ≡ record w {
        objects =
            with_object id
              (some (record o { connection = TcpConnection.close o.connection }))
              w.objects;
      }
  unfolding close_connection
  close_connection-stays id o w r = go o.removes r
    where
      w' : TcpServer os
      w' = record w {
        objects =
            with_object id (some (record o { connection = TcpConnection.close o.connection }))
              w.objects;
      }

      go :
          (b : Bool)
          → b ≡ false
          → (if b then remove_connection os o.connection.channel.sockfd w' else w') ≡ w'
      go true e = cc
      go false e = refl

  early_close_lem :
      (fd id : ℕ) (o : Object) (w : TcpServer os)
      → o.removes ≡ false
      → is_key fd w.connects ≡ false
      → early_close fd id o w ≡ left_behind fd id o w
  unfolding early_close
  early_close_lem fd id o w r free =
      ap (λ v. release os id (set_callback os id (add_connection os fd id v)))
        (close_connection-stays id o w r)
      ∙ (ap (release os id) (set_callback-some os id _ _ (with_object_self id _ w.objects))
          ∙ release-held id (left_behind fd id o w) (holds-emplace fd id w.connects free))

  -- A connection that closes itself between its construction and the end of the callback for new
  -- connections stays in the map, closed, and no later event of it removes it: the descriptor is
  -- never closed.
  pub early_close-stays :
      (fd id : ℕ) (o : Object) (w : TcpServer os)
      → o.removes ≡ false
      → is_key fd w.connects ≡ false
      → (holds id (early_close fd id o w).connects ≡ true)
        × (handle_close os id (early_close fd id o w) ≡ early_close fd id o w)
        × ((early_close fd id o w).acceptor.system ≡ w.acceptor.system)
  unfolding early_close
  early_close-stays fd id o w r free =
      subst
        (λ v.
          (holds id v.connects ≡ true)
          × (handle_close os id v ≡ v)
          × (v.acceptor.system ≡ w.acceptor.system))
        (sym (early_close_lem fd id o w r free))
        (
          holds-emplace fd id w.connects free,
          handle_close-closed os id (left_open o) (left_behind fd id o w)
              (with_object_self id _ (
                with_object id (some (record o { connection = TcpConnection.close o.connection }))
                  w.objects))
              (close-is_closed o.connection),
          refl,
        )
