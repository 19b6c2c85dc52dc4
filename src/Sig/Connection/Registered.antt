-- ===== src/Sig/Connection/Registered.antt =====
-- The directory of SigServer names only connections that have joined under the code it lists.
use cloud_assitant.Prelude.{
  ℕ, zero, suc, ◌+◌, List, [], ◌∷◌, Option, none, some, true, ltb, ◌==◌, list_eq, list_eq_iff, drop,
  ◌>>=◌, read_bytes, ◌≡◌, ◌≢◌, refl, ap, subst, ◌∙◌, inl, inr, arith, Bool-cases, Option-cases,
  Holds, bind-Holds,
}
use cloud_assitant.Net.Bytes.{read_uint16_le}
use cloud_assitant.Net.BufferReader.{BufferReader, readable_bytes, peek, retrieve}
use cloud_assitant.Sig.Define.{
  Cmd, join, obtain_stream, create_stream, play_stream, delete_stream, mouse, mouse_move, key,
  wheel, command, RoleState, idle, role_none, close, puller, pusher, head_size, c_string, forwarded,
}
use cloud_assitant.Sig.Manager.{Code, query_conn, add_conn}
use cloud_assitant.Sig.Connection.{
  SigConnection, World, put, send, clear, join_as, handle_join, do_obtain_stream,
  handle_obtain_stream, do_create_stream, handle_create_stream, handle_delete_stream,
  handle_other_message, dispatch, handle_message, on_read, is_busy, is_puller,
}
use cloud_assitant.Sig.Connection.Settles.{
  Registered, Settles-Registered, Settled, idle_joined, clear-Settled, do_obtain_stream-Settles,
  do_create_stream-Settled,
}

abbrev Keeps : Option World → Type 0
Keeps o = Holds Registered o

Settled-Keeps : (w : World) (o : Option World) → Settled w o → Registered w → Keeps o
Settled-Keeps w none s r = tt
Settled-Keeps w (some w') s r = Settles-Registered w w' s r

module _ (w : World) (i : ℕ) (code : Code) (st : (w.connections i).state ≡ role_none) where
  abbrev joined : SigConnection
  joined = record (w.connections i) { code = code; state = idle }

  old_entry :
      (c : Code) (k : ℕ)
      → ((w.connections k).code ≡ c) × ((w.connections k).state ≢ role_none)
      → (((put i joined w).connections k).code ≡ c)
        × (((put i joined w).connections k).state ≢ role_none)
  old_entry c k (e, s) = elim (Bool-cases (k == i)) [
    | inl own ↦ absurd (s (ap (λ t. (w.connections t).state) (same own) ∙ st))
    | inr other ↦ rw other (e, s)
  ]
    where
      same : (k == i) ≡ true → k ≡ i
      same h = ground arith

  new_entry :
      (((put i joined w).connections i).code ≡ code)
      × (((put i joined w).connections i).state ≢ role_none)
  new_entry = rw (own i) (refl, idle_joined)
    where
      own : (n : ℕ) → (n == n) ≡ true
      own n = ground arith

  join_as-Registered : Registered w → Registered (join_as w i code)
  unfolding join_as add_conn
  join_as-Registered r = elim (Option-cases (query_conn code w.directory)) [
    | inr (j, e) ↦ rw (join_as, e) r
    | inl e ↦
        rw (join_as, e)
          (elim (Bool-cases (list_eq code [])) [
            | inl nothing ↦ rw nothing (λ c k q. old_entry c k (r c k q))
            | inr name ↦ rw (name, e) (λ c k q. entry c k q)
          ])
  ]
    where
      entry :
          (c : Code) (k : ℕ)
          → query_conn c ((code, i) ∷ w.directory) ≡ some k
          → (((put i joined w).connections k).code ≡ c)
            × (((put i joined w).connections k).state ≢ role_none)
      entry c k q = elim (Bool-cases (list_eq code c)) [
        | inl hit ↦ own (found (rw (hit, query_conn) at q)) ((list_eq_iff code c).0 hit)
        | inr miss ↦ old_entry c k (r c k (rw (miss, query_conn) at q))
      ]
        where
          found : some i ≡ some k → i ≡ k
          found f = cc

          own :
              i ≡ k
              → code ≡ c
              → (((put i joined w).connections k).code ≡ c)
                × (((put i joined w).connections k).state ≢ role_none)
          own f g = rw (← f) (rw (← g) new_entry)

handle_join-Keeps : (w : World) (i : ℕ) (d : List ℕ) → Registered w → Keeps (handle_join w i d)
unfolding handle_join
handle_join-Keeps w i d r = go (w.connections i).state refl
  where
    go : (s : RoleState) → (w.connections i).state ≡ s → Keeps (handle_join w i d)
    go role_none e =
        rw (handle_join, e)
          (bind-Holds Registered (c_string (drop head_size d)) (λ code. some (join_as w i code))
            (λ code. join_as-Registered w i code e r))
    go idle e = rw (handle_join, e) r
    go close e = rw (handle_join, e) r
    go puller e = rw (handle_join, e) r
    go pusher e = rw (handle_join, e) r

handle_other_message-Keeps :
    (w : World) (i len : ℕ) (d : List ℕ) → Registered w → Keeps (handle_other_message w i len d)
unfolding handle_other_message
handle_other_message-Keeps w i len d r = elim (Option-cases (w.connections i).conn) [
  | inl e ↦ rw (handle_other_message, e) r
  | inr (j, e) ↦
      rw (handle_other_message, e)
        (elim (Bool-cases (is_puller (w.connections i).state)) [
          | inl pulls ↦ rw pulls (
              bind-Holds Registered (read_bytes len d) (λ bytes. some (send j (forwarded bytes) w))
                (λ bytes. r))
          | inr not_ ↦ rw not_ r
        ])
]

handle_delete_stream-Keeps : (w : World) (i : ℕ) → Registered w → Keeps (handle_delete_stream w i)
unfolding handle_delete_stream
handle_delete_stream-Keeps w i r = elim (Bool-cases (is_busy (w.connections i).state)) [
  | inl busy ↦ rw busy (Settled-Keeps w (clear w i) (clear-Settled w i) r)
  | inr free ↦ rw free r
]

dispatch-Keeps :
    (w : World) (i len : ℕ) (d : List ℕ) (cmd : Option Cmd)
    → Registered w
    → Keeps (dispatch w i len d cmd)
unfolding dispatch handle_obtain_stream handle_create_stream
dispatch-Keeps w i len d none r = r
dispatch-Keeps w i len d (some join) r = handle_join-Keeps w i d r
dispatch-Keeps w i len d (some obtain_stream) r =
    bind-Holds Registered (c_string (drop head_size d)) (λ code. some (do_obtain_stream w i code))
      (λ code.
        Settles-Registered w (do_obtain_stream w i code) (do_obtain_stream-Settles w i code) r)
dispatch-Keeps w i len d (some create_stream) r =
    bind-Holds Registered (c_string (drop (head_size + 4) d)) (λ a. do_create_stream w i a)
      (λ a. Settled-Keeps w (do_create_stream w i a) (do_create_stream-Settled w i a) r)
dispatch-Keeps w i len d (some delete_stream) r = handle_delete_stream-Keeps w i r
dispatch-Keeps w i len d (some play_stream) r = r
dispatch-Keeps w i len d (some mouse) r = handle_other_message-Keeps w i len d r
dispatch-Keeps w i len d (some mouse_move) r = handle_other_message-Keeps w i len d r
dispatch-Keeps w i len d (some key) r = handle_other_message-Keeps w i len d r
dispatch-Keeps w i len d (some wheel) r = handle_other_message-Keeps w i len d r

-- The result of a read.
abbrev AfterRead : World × BufferReader → Type 0
AfterRead r = Registered r.0

handle_message-Keeps :
    (w : World) (i : ℕ) (b : BufferReader) → Registered w → Holds AfterRead (handle_message w i b)
unfolding handle_message
handle_message-Keeps w i b r = elim (Bool-cases (ltb (readable_bytes b) head_size)) [
  | inl short ↦ rw (handle_message, short) r
  | inr head ↦
      rw (handle_message, head)
        (bind-Holds AfterRead (read_uint16_le (peek b)) _ (λ len.
          elim (Bool-cases (ltb (readable_bytes b) len)) [
            | inl short ↦ rw short r
            | inr whole ↦ rw whole (
                bind-Holds AfterRead (read_uint16_le (drop 2 (peek b))) _ (λ cmd.
                  handled len (dispatch w i len (peek b) (command cmd))
                    (dispatch-Keeps w i len (peek b) (command cmd) r)))
          ]))
]
  where
    handled :
        (len : ℕ) (o : Option World)
        → Keeps o
        → Holds AfterRead (o >>= λ w'. some (w', retrieve b len))
    handled len none h = tt
    handled len (some w') h = h

on_read-Keeps :
    (fuel : ℕ) (w : World) (i : ℕ) (b : BufferReader)
    → Registered w
    → Holds AfterRead (on_read fuel w i b)
unfolding on_read
on_read-Keeps zero w i b r = tt
on_read-Keeps (suc fuel) w i b r = elim (Bool-cases (readable_bytes b == 0)) [
  | inl over ↦ rw (on_read, over) r
  | inr more ↦
      rw (on_read, more)
        (goes_on (handle_message w i b) (handle_message-Keeps w i b r)
          (λ w' b' r'. on_read-Keeps fuel w' i b' r'))
]
  where
    goes_on :
        (o : Option (World × BufferReader))
        → Holds AfterRead o
        → ((w' : World) (b' : BufferReader)
            → Registered w'
            → Holds AfterRead (on_read fuel w' i b'))
        → Holds AfterRead (o >>= λ (w', b'). on_read fuel w' i b')
    goes_on none h f = tt
    goes_on (some (w', b')) h f = f w' b' h

-- Whatever bytes a connection receives, after `OnRead` every entry of the directory still names a
-- connection that has joined under the entry's code.
pub on_read-Registered :
    (fuel : ℕ) (w w' : World) (i : ℕ) (b b' : BufferReader)
    → Registered w
    → on_read fuel w i b ≡ some (w', b')
    → Registered w'
on_read-Registered fuel w w' i b b' r e =
    subst (λ o. Holds AfterRead o) e (on_read-Keeps fuel w i b r)
