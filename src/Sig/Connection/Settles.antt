-- ===== src/Sig/Connection/Settles.antt =====
-- What the operations of SigServer/SigConnection.cpp leave as it is: the directory, and whether and
-- under which code a connection has joined.
use cloud_assitant.Prelude.{
  ℕ, zero, suc, List, [], Option, none, some, ◌==◌, list_eq, length, get_elem?, ◌≡◌, ◌≢◌, refl, sym,
  ap, ◌∙◌, inl, inr, arith, Bool-cases, Option-cases,
}
use cloud_assitant.Sig.Define.{
  RoleState, idle, role_none, close, puller, pusher, PlayStream, play_stream_body, Packet,
}
use cloud_assitant.Sig.Manager.{Code, query_conn}
use cloud_assitant.Sig.Connection.{
  SigConnection, World, put, send, add_custom, remove_custom, clear_step, clear_loop, clear, link,
  obtain_from, do_obtain_stream, create_for, create_step, create_loop, do_create_stream, is_idle,
}

-- A connection that has joined stays joined, under the same code.
abbrev pub Stays : SigConnection → SigConnection → Type 0
Stays c d = (d.code ≡ c.code) × (c.state ≢ role_none → d.state ≢ role_none)

-- Every entry of the directory is a connection that has joined under the entry's code.
abbrev pub Registered : World → Type 0
Registered w =
    (code : Code) (i : ℕ)
    → query_conn code w.directory ≡ some i
    → ((w.connections i).code ≡ code) × ((w.connections i).state ≢ role_none)

-- What most operations do: no connection leaves, and the directory is as before.
abbrev pub Settles : World → World → Type 0
Settles w w' = (w'.directory ≡ w.directory) × ((k : ℕ) → Stays (w.connections k) (w'.connections k))

pub Settles-Registered : (w w' : World) → Settles w w' → Registered w → Registered w'
Settles-Registered w w' (same, stay) r code i e =
    let (c, s) = r code i (ap (query_conn code) (sym same) ∙ e) in ((stay i).0 ∙ c, (stay i).1 s)

Settles-trans : (w v u : World) → Settles w v → Settles v u → Settles w u
Settles-trans w v u (d, s) (e, t) = (e ∙ d, λ k. ((t k).0 ∙ (s k).0, λ h. (t k).1 ((s k).1 h)))

put-Settles :
    (w : World) (i : ℕ) (c : SigConnection) → Stays (w.connections i) c → Settles w (put i c w)
put-Settles w i c s = (refl, stay)
  where
    stay : (k : ℕ) → Stays (w.connections k) ((put i c w).connections k)
    stay k = ground (arith, s)

add_custom-Stays : (c : SigConnection) (code : Code) → Stays c (add_custom c code)
unfolding add_custom
add_custom-Stays c code = ground arith

pub idle_joined : idle ≢ role_none
idle_joined e = cc

remove_custom-Stays : (c : SigConnection) (code : Code) → Stays c (remove_custom c code)
unfolding remove_custom
remove_custom-Stays c code = ground (arith, idle_joined)

sends : (w w' : World) (j : ℕ) (p : Packet) → Settles w w' → Settles w (send j p w')
sends w w' j p s = s

Settles-refl : (w : World) → Settles w w
Settles-refl w = (refl, λ k. (refl, λ h. h))

clear_step-Settles : (w : World) (i : ℕ) (it : Code) → Settles w (clear_step w i it)
unfolding clear_step
clear_step-Settles w i it = elim (Option-cases (query_conn it w.directory)) [
  | inl e ↦ rw (clear_step, e) (Settles-refl w)
  | inr (j, e) ↦
      rw (clear_step, e)
        (put-Settles w j (remove_custom (w.connections j) (w.connections i).code)
          (remove_custom-Stays (w.connections j) (w.connections i).code))
]

-- The same of a result that may be undefined.
abbrev pub Settled : World → Option World → Type 0
Settled w none = Unit
Settled w (some w') = Settles w w'

clear_loop-Settled : (n k : ℕ) (w v : World) (i : ℕ) → Settles w v → Settled w (clear_loop n k v i)
unfolding clear_loop
clear_loop-Settled zero k w v i s = s
clear_loop-Settled (suc n) k w v i s = elim (Option-cases (get_elem? (v.connections i).objects k)) [
  | inl e ↦ rw (clear_loop, e) tt
  | inr (it, e) ↦
      rw (clear_loop, e)
        (clear_loop-Settled n (suc k) w (clear_step v i it) i
          (Settles-trans w v (clear_step v i it) s (clear_step-Settles v i it)))
]

pusher_joined : pusher ≢ role_none
pusher_joined e = cc

puller_joined : puller ≢ role_none
puller_joined e = cc

close_joined : close ≢ role_none
close_joined e = cc

pub clear-Settled : (w : World) (i : ℕ) → Settled w (clear w i)
unfolding clear
clear-Settled w i =
    clear_loop-Settled (length (w.connections i).objects) 0 w
      (put i (record (w.connections i) { state = close; conn = none }) w) i
      (put-Settles w i _ (refl, λ _. close_joined))

link-Settles :
    (w : World) (i j : ℕ) (code : Code) (conn' : Option ℕ) → Settles w (link w i j code conn')
link-Settles w i j code conn' =
    Settles-trans w w' (link w i j code conn')
      (put-Settles w i pulls (
        from_puller
          (add_custom-Stays (record (w.connections i) { state = puller; conn = conn' }) code)))
      (put-Settles w' j (add_custom (w'.connections j) (w.connections i).code)
        (add_custom-Stays (w'.connections j) (w.connections i).code))
  where
    pulls : SigConnection
    pulls = add_custom (record (w.connections i) { state = puller; conn = conn' }) code

    w' : World
    w' = put i pulls w

    from_puller :
        Stays (record (w.connections i) { state = puller; conn = conn' }) pulls
        → Stays (w.connections i) pulls
    from_puller (c, s) = (c, λ _. s puller_joined)

obtain_from-Settles :
    (w : World) (i j : ℕ) (code : Code) (s : RoleState) → Settles w (obtain_from w i j code s)
unfolding obtain_from
obtain_from-Settles w i j code idle = link-Settles w i j code (some j)
obtain_from-Settles w i j code role_none = Settles-refl w
obtain_from-Settles w i j code close = Settles-refl w
obtain_from-Settles w i j code puller = Settles-refl w
obtain_from-Settles w i j code pusher =
    elim (Bool-cases (list_eq (w.connections j).stream_address [])) [
      | inl e ↦ rw e (Settles-refl w)
      | inr e ↦ rw e (link-Settles w i j code (w.connections i).conn)
    ]

pub do_obtain_stream-Settles :
    (w : World) (i : ℕ) (code : Code) → Settles w (do_obtain_stream w i code)
unfolding do_obtain_stream
do_obtain_stream-Settles w i code = elim (Option-cases (query_conn code w.directory)) [
  | inl e ↦ rw (do_obtain_stream, e) (Settles-refl w)
  | inr (j, e) ↦
      rw (do_obtain_stream, e)
        (elim (Bool-cases (j == i)) [
          | inl own ↦ rw own (Settles-refl w)
          | inr other ↦ rw other (elim (Bool-cases (is_idle (w.connections i).state)) [
            | inl free ↦ rw free (obtain_from-Settles w i j code (w.connections j).state)
            | inr taken ↦ rw taken (Settles-refl w)
          ])
        ])
]

create_for-Settles :
    (w : World) (i j : ℕ) (body : PlayStream) (s : RoleState)
    → Settles w (create_for w i j body s).0
unfolding create_for
create_for-Settles w i j body puller =
    put-Settles w i (record (w.connections i) { state = pusher }) (refl, λ _. pusher_joined)
create_for-Settles w i j body _ =
    put-Settles w i (remove_custom (w.connections i) (w.connections j).code)
      (remove_custom-Stays (w.connections i) (w.connections j).code)

create_step-Settles :
    (w : World) (i : ℕ) (it : Code) (body : PlayStream) → Settles w (create_step w i it body).0
unfolding create_step
create_step-Settles w i it body = elim (Option-cases (query_conn it w.directory)) [
  | inl e ↦
      rw (create_step, e)
        (put-Settles w i (remove_custom (w.connections i) it)
          (remove_custom-Stays (w.connections i) it))
  | inr (j, e) ↦
      rw (create_step, e)
        (elim (Bool-cases (list_eq (w.connections i).stream_address [])) [
          | inl bad ↦
              rw bad (
                put-Settles w j (record (w.connections j) { state = idle })
                  (refl, λ _. idle_joined))
          | inr good ↦ rw good (create_for-Settles w i j body (w.connections j).state)
        ])
]

create_loop-Settled :
    (n k : ℕ) (w v : World) (i : ℕ) (body : PlayStream)
    → Settles w v
    → Settled w (create_loop n k v i body)
unfolding create_loop
create_loop-Settled zero k w v i body s = s
create_loop-Settled (suc n) k w v i body s =
    elim (Option-cases (get_elem? (v.connections i).objects k)) [
      | inl e ↦ rw (create_loop, e) tt
      | inr (it, e) ↦
          rw (create_loop, e)
            (create_loop-Settled n (suc k) w (create_step v i it body).0 i
              (create_step v i it body).1
              (Settles-trans w v (create_step v i it body).0 s (create_step-Settles v i it body)))
    ]

pub do_create_stream-Settled : (w : World) (i : ℕ) (a : List ℕ) → Settled w (do_create_stream w i a)
unfolding do_create_stream
do_create_stream-Settled w i a =
    create_loop-Settled (length (w.connections i).objects) 0 w
      (put i (record (w.connections i) { stream_address = a }) w) i play_stream_body
      (put-Settles w i _ (refl, λ h. h))
