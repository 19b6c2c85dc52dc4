-- ===== src/Net/TcpServer/Stop.antt =====
-- Runs of the server of Net/TcpServer.cpp, and what Stop does after them.
use cloud_assitant.Prelude.{
  ℕ, ◌≡◌, refl, List, [], ◌∷◌, Option, none, some, Bool, true, false, if◌then◌else◌, ◌==◌, All,
  Bool-cases, Option-cases, inl, inr, Holds, then_bind-Holds, ◌>>=◌,
}
use cloud_assitant.Net.TcpSocket.{Sockets}
use cloud_assitant.Net.Acceptor
use cloud_assitant.Net.TcpServer.{
  Object, TcpServer, new_connection, close_connection, handle_close, stop, stop_loop, on_accept,
  has_key, erase, disconnect, remove_connection,
}
use cloud_assitant.Net.TcpServer.Live.{Live}
use cloud_assitant.Net.TcpServer.Lifetimes.{
  IsConsistent, new_connection-IsConsistent, handle_close-freed,
}

has_key-erase : (fd : ℕ) (cs : List (ℕ × ℕ)) → has_key fd (erase fd cs) ≡ false
unfolding has_key erase
has_key-erase fd [] = refl
has_key-erase fd ((k, j) ∷ cs) = elim (Bool-cases (k == fd)) [
  | inl e ↦ rw e (has_key-erase fd cs)
  | inr e ↦ rw e (rw e (has_key-erase fd cs))
]

module _ (os : Sockets) where
  -- What happens to a server: a descriptor becomes ready to be accepted, or a connection closes.
  pub data Event : Type 0 where
    accepts : Event
    closes : ℕ → Event

  unfoldable pub step : TcpServer os → Event → Option (TcpServer os)
  unfolding on_accept handle_close
  step w accepts = on_accept os w
  step w (closes id) = some (handle_close os id w)

  unfoldable pub run : TcpServer os → List Event → Option (TcpServer os)
  unfolding step
  run w [] = some w
  run w (e ∷ es) = step w e >>= λ w'. run w' es

  on_accept-IsConsistent :
      (w : TcpServer os) → IsConsistent os w → Holds (IsConsistent os) (on_accept os w)
  unfolding on_accept
  on_accept-IsConsistent w c = go (Acceptor.on_accept os w.acceptor).0
    where
      w' : TcpServer os
      w' = record w { acceptor = (Acceptor.on_accept os w.acceptor).1 }

      go :
          (fd : Option ℕ)
          → Holds (IsConsistent os) (elim fd [ none ↦ some w' | some n ↦ new_connection os n w' ])
      go none = record { live = c.live; fresh = c.fresh }
      go (some n) = new_connection-IsConsistent os n w' (record { live = c.live; fresh = c.fresh })

  handle_close-gone : (id : ℕ) (w : TcpServer os) → w.objects id ≡ none → handle_close os id w ≡ w
  unfolding handle_close
  handle_close-gone id w e = rw (handle_close, e) refl

  pub handle_close-closed :
      (id : ℕ) (o : Object) (w : TcpServer os)
      → w.objects id ≡ some o
      → o.connection.is_closed ≡ true
      → handle_close os id w ≡ w
  unfolding handle_close
  handle_close-closed id o w e f = rw (handle_close, e) (rw f refl)

  handle_close-IsConsistent :
      (id : ℕ) (w : TcpServer os) → IsConsistent os w → IsConsistent os (handle_close os id w)
  handle_close-IsConsistent id w c = elim (Option-cases (w.objects id)) [
    | inl e ↦ rw (handle_close-gone id w e) c
    | inr (o, e) ↦ elim (Bool-cases o.connection.is_closed) [
      | inl f ↦ rw (handle_close-closed id o w e f) c
      | inr f ↦ (handle_close-freed os id o w c e f).0
    ]
  ]

  -- After any accepts and closes of connections, in any order, every entry of the map is that of an
  -- open connection that will remove itself under its key.
  pub run-IsConsistent :
      (w : TcpServer os) (es : List Event) → IsConsistent os w → Holds (IsConsistent os) (run w es)
  unfolding run step
  run-IsConsistent w [] c = c
  run-IsConsistent w (accepts ∷ es) c =
      then_bind-Holds (IsConsistent os) (IsConsistent os) (on_accept os w) _
        (on_accept-IsConsistent w c) λ w' c'. run-IsConsistent w' es c'
  run-IsConsistent w (closes id ∷ es) c =
      run-IsConsistent (handle_close os id w) es (handle_close-IsConsistent id w c)

  disconnect-erased :
      (fd id : ℕ) (w : TcpServer os) (l : Live w.objects (fd, id))
      → has_key fd (disconnect os id l.0 w).connects ≡ false
  unfolding disconnect close_connection remove_connection
  disconnect-erased fd id w l = rw (l.2) (rw (l.3) (rw (l.4) (has_key-erase fd w.connects)))

  -- The first open connection takes its entry out of the map, and the iterator with it.
  stop_loop-erased :
      (fd id : ℕ) (cs : List (ℕ × ℕ)) (w : TcpServer os)
      → Live w.objects (fd, id)
      → stop_loop os ((fd, id) ∷ cs) w ≡ none
  unfolding stop_loop
  stop_loop-erased fd id cs w l = go (w.objects id) l.1
    where
      go :
          (x : Option Object)
          → x ≡ some l.0
          → elim x as (λ _. Option (TcpServer os)) [
            | none ↦ none
            | some o ↦
                if has_key fd (disconnect os id o w).connects
                then stop_loop os cs (disconnect os id o w)
                else none
          ]
            ≡ none
      go x e = rw e (rw (disconnect-erased fd id w l) refl)

  -- Stop of a started server whose map is consistent succeeds when no connection is left, and then
  -- closes the acceptor, and is undefined behaviour otherwise.
  pub stop_lem :
      (w : TcpServer os)
      → IsConsistent os w
      → w.is_stared ≡ true
      → stop os w ≡ elim w.connects [
        | [] ↦ some (record w { acceptor = Acceptor.close os w.acceptor; is_stared = false })
        | _ ∷ _ ↦ none
      ]
  unfolding stop
  stop_lem w c s = started w.is_stared s
    where
      go :
          (cs : List (ℕ × ℕ))
          → All (Live w.objects) cs
          → (stop_loop os cs w >>= λ w'.
              some (record w' { acceptor = Acceptor.close os w'.acceptor; is_stared = false }))
            ≡ elim cs [
              | [] ↦ some (record w { acceptor = Acceptor.close os w.acceptor; is_stared = false })
              | _ ∷ _ ↦ none
            ]
      go [] l = refl
      go ((fd, id) ∷ cs) (l, ls) = rw (stop_loop-erased fd id cs w l) refl

      after : Option (TcpServer os)
      after = elim w.connects [
        | [] ↦ some (record w { acceptor = Acceptor.close os w.acceptor; is_stared = false })
        | _ ∷ _ ↦ none
      ]

      started :
          (b : Bool)
          → b ≡ true
          → (if b
              then (stop_loop os w.connects w >>= λ w'.
                  some (record w' { acceptor = Acceptor.close os w'.acceptor; is_stared = false }))
              else some w)
            ≡ after
      started true e = go w.connects c.live
      started false e = cc
