-- ===== src/Sig/Connection/Streams.antt =====
-- What the two ends of a stream do in SigServer/SigConnection.cpp.
use cloud_assitant.Prelude.{
  ℕ, zero, suc, ◌<◌, List, [], ◌∷◌, ◌++◌, Option, none, some, true, false, ◌==◌, take, list_eq,
  length, get_elem?, ◌>>=◌, read_bytes, ◌≡◌, ◌≢◌, refl, sym, ap, ◌∙◌, arith, append_assoc, lt→ltb,
}
use cloud_assitant.Net.BufferReader.{BufferReader, readable_bytes}
use cloud_assitant.Sig.Define.{
  idle, puller, pusher, successful, head_size, PlayStream, play_stream_body, obtain_stream_reply,
  create_stream_packet, play_stream_packet, forwarded, set_stream_address,
}
use cloud_assitant.Sig.Manager.{Code, query_conn}
use cloud_assitant.Sig.Connection.{
  SigConnection, World, put, send, add_custom, link, obtain_from, do_obtain_stream, create_for,
  create_step, create_loop, do_create_stream, handle_other_message, handle_message, on_read,
  is_puller, has_code,
}

pub put_same : (w : World) (i : ℕ) (c : SigConnection) → (put i c w).connections i ≡ c
put_same w i c = rw (own i) refl
  where
    own : (n : ℕ) → (n == n) ≡ true
    own n = ground arith

pub put_other :
    (w : World) (i j : ℕ) (c : SigConnection) → j ≢ i → (put i c w).connections j ≡ w.connections j
put_other w i j c h = rw (other j i h) refl
  where
    other : (n k : ℕ) → n ≢ k → (n == k) ≡ false
    other n k d = ground arith

-- One object, whose connection watches: it is told to play the stream.
module _ (v : World) (i j : ℕ) (it : Code) (address : List ℕ)
    (one : (v.connections j).objects ≡ it ∷ []) (known : query_conn it v.directory ≡ some i)
    (ne : j ≢ i) (watches : (v.connections i).state ≡ puller)
    (there : list_eq address [] ≡ false) where
  abbrev announced : World
  announced = put j (record (v.connections j) { stream_address = address }) v

  abbrev playing : World
  playing =
      send i (play_stream_packet (record { result = successful; address = take 70 address }))
        (put j (record (v.connections j) { stream_address = address; state = pusher }) announced)

  announced_j : announced.connections j ≡ record (v.connections j) { stream_address = address }
  announced_j = put_same v j (record (v.connections j) { stream_address = address })

  announced_i : announced.connections i ≡ v.connections i
  announced_i =
      put_other v j i (record (v.connections j) { stream_address = address }) (λ e. ne (sym e))

  steps :
      create_step announced j it play_stream_body ≡ create_for announced j i play_stream_body puller
  unfolding create_step
  steps =
      rw (create_step, known)
        (rw (ap (λ c. list_eq c.stream_address []) announced_j ∙ there) (
          ap (λ c. create_for announced j i play_stream_body c.state) announced_i
          ∙ ap (create_for announced j i play_stream_body) watches))

  plays : (create_for announced j i play_stream_body puller).0 ≡ playing
  unfolding create_for set_stream_address
  plays =
      ap
        (λ c.
          send i
            (play_stream_packet
              (record { result = successful; address = take 70 c.stream_address }))
            (put j (record c { state = pusher }) announced))
        announced_j

  creates : do_create_stream v j address ≡ some playing
  unfolding do_create_stream create_loop
  creates = ap (λ t. create_loop (length t) 0 announced j play_stream_body) one ∙ runs
    where
      only : get_elem? (announced.connections j).objects 0 ≡ some it
      only = ap (λ c. get_elem? c.objects 0) announced_j ∙ ap (λ t. get_elem? t 0) one

      runs : create_loop 1 0 announced j play_stream_body ≡ some playing
      runs = rw (create_loop, only) (ap (λ r. some r.0) steps ∙ ap some plays)

  playing_i : playing.connections i ≡ v.connections i
  playing_i = put_other announced j i _ (λ e. ne (sym e)) ∙ announced_i

  playing_j : (playing.connections j).state ≡ pusher
  playing_j = ap (λ c. c.state) (put_same announced j _)

forwards :
    (w : World) (i j len : ℕ) (d : List ℕ)
    → (w.connections i).state ≡ puller
    → (w.connections i).conn ≡ some j
    → handle_other_message w i len d
      ≡ (read_bytes len d >>= λ bytes. some (send j (forwarded bytes) w))
unfolding handle_other_message
forwards w i j len d pulls controls =
    rw (handle_other_message, controls) (rw (ap is_puller pulls) refl)

module _ (w : World) (i j : ℕ) (code : Code) (known : query_conn code w.directory ≡ some j)
    (ne : j ≢ i) (free : (w.connections i).state ≡ idle) where
  obtains : do_obtain_stream w i code ≡ obtain_from w i j code (w.connections j).state
  unfolding do_obtain_stream
  obtains = rw (do_obtain_stream, known) (rw (other j i ne) (rw free refl))
    where
      other : (n k : ℕ) → n ≢ k → (n == k) ≡ false
      other n k d = ground arith

  -- The controller after `link`.
  controller :
      (conn' : Option ℕ)
      → (((link w i j code conn').connections i).state ≡ puller)
        × (((link w i j code conn').connections i).conn ≡ conn')
  unfolding add_custom
  controller conn' =
      rw (put_other w' j i (add_custom (w'.connections j) (w.connections i).code) (λ e. ne (sym e)))
        (rw (put_same w i pulls)
          (fields (record (w.connections i) { state = puller; conn = conn' })))
    where
      fields :
          (c : SigConnection)
          → ((add_custom c code).state ≡ c.state) × ((add_custom c code).conn ≡ c.conn)
      fields c = ground arith

      pulls : SigConnection
      pulls = add_custom (record (w.connections i) { state = puller; conn = conn' }) code

      w' : World
      w' = put i pulls w

  -- An idle connection that asks for a stream that is already there, with an address, does not
  -- learn whom to control: if it controlled nobody before, it becomes a puller, and none of its
  -- mouse and key packets is passed on.
  pub input_lost :
      (len : ℕ) (d : List ℕ)
      → (w.connections j).state ≡ pusher
      → list_eq (w.connections j).stream_address [] ≡ false
      → (w.connections i).conn ≡ none
      → let w' = do_obtain_stream w i code in
        ((w'.connections i).state ≡ puller) × (handle_other_message w' i len d ≡ some w')
  unfolding obtain_from handle_other_message
  input_lost len d push there nobody = rw watches (
    (controller (w.connections i).conn).0,
    rw (handle_other_message, (controller (w.connections i).conn).1 ∙ nobody) refl,
  )
    where
      play : PlayStream
      play =
          set_stream_address (record play_stream_body { result = successful })
            (w.connections j).stream_address

      watches :
          do_obtain_stream w i code
          ≡ send i (play_stream_packet play) (link w i j code (w.connections i).conn)
      watches = obtains ∙ ap (obtain_from w i j code) push ∙ rw there refl

  -- A whole session. When an idle connection asks for another that is idle too and has no objects,
  -- and that connection then announces a stream with an address, and each is in the directory under
  -- its code, then the two are told to create and to play the stream, in this order, the first is
  -- the puller and the second the pusher, and every mouse or key packet of the first goes to the
  -- second.
  pub session :
      (address : List ℕ)
      → (w.connections j).state ≡ idle
      → (w.connections j).objects ≡ []
      → query_conn (w.connections i).code w.directory ≡ some i
      → list_eq address [] ≡ false
      → (w' : World) × (do_create_stream (do_obtain_stream w i code) j address ≡ some w')
        × (w'.sent
            ≡ w.sent
              ++ ((j, create_stream_packet)
                  ∷ (i, obtain_stream_reply successful)
                  ∷ (
                    i,
                    play_stream_packet (record { result = successful; address = take 70 address }),
                  )
                  ∷ []))
        × ((w'.connections i).state ≡ puller)
        × ((w'.connections j).state ≡ pusher)
        × ((len : ℕ) (d : List ℕ)
            → handle_other_message w' i len d
              ≡ (read_bytes len d >>= λ bytes. some (send j (forwarded bytes) w')))
  unfolding obtain_from handle_other_message add_custom
  session address sj oj back there = (
    playing v i j own address one back ne watching.0 there,
    ap (λ t. do_create_stream t j address) begins
        ∙ creates v i j own address one back ne watching.0 there,
    append_assoc (w.sent ++ ((j, create_stream_packet) ∷ [])) _ _ ∙ append_assoc w.sent _ _,
    ap (λ c. c.state) same ∙ watching.0,
    playing_j v i j own address one back ne watching.0 there,
    λ len d.
        forwards (playing v i j own address one back ne watching.0 there) i j len d
          (ap (λ c. c.state) same ∙ watching.0) (ap (λ c. c.conn) same ∙ watching.1),
  )
    where
      own : Code
      own = (w.connections i).code

      v : World
      v =
          send i (obtain_stream_reply successful)
            (send j create_stream_packet (link w i j code (some j)))

      begins : do_obtain_stream w i code ≡ v
      begins = obtains ∙ ap (obtain_from w i j code) sj

      watching : ((v.connections i).state ≡ puller) × ((v.connections i).conn ≡ some j)
      watching = controller (some j)

      w1 : World
      w1 = put i (add_custom (record (w.connections i) { state = puller; conn = some j }) code) w

      added : (c : SigConnection) → c.objects ≡ [] → (add_custom c own).objects ≡ own ∷ []
      added c e = rw (add_custom, ap (has_code own) e) (ap (λ t. t ++ (own ∷ [])) e)

      one : (v.connections j).objects ≡ own ∷ []
      one =
          ap (λ c. c.objects) (put_same w1 j (add_custom (w1.connections j) own))
          ∙ ap (λ c. (add_custom c own).objects)
              (put_other w i j
                (add_custom (record (w.connections i) { state = puller; conn = some j }) code) ne)
          ∙ added (w.connections j) oj

      same :
          (playing v i j own address one back ne watching.0 there).connections i ≡ v.connections i
      same = playing_i v i j own address one back ne watching.0 there

-- `OnRead` does not end on the beginning of a head: no number of rounds is enough.
pub on_read_stuck :
    (fuel : ℕ) (w : World) (i : ℕ) (b : BufferReader)
    → 0 < readable_bytes b
    → readable_bytes b < head_size
    → on_read fuel w i b ≡ none
unfolding on_read handle_message
on_read_stuck zero w i b some_bytes few = refl
on_read_stuck (suc fuel) w i b some_bytes few =
    rw (on_read, busy (readable_bytes b) some_bytes)
      (rw (handle_message, lt→ltb _ _ few) (on_read_stuck fuel w i b some_bytes few))
  where
    busy : (n : ℕ) → 0 < n → (n == 0) ≡ false
    busy n h = ground arith
