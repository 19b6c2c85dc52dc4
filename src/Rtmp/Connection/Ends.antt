-- ===== src/Rtmp/Connection/Ends.antt =====
-- The loop of `HandleChunk` of RtmpServer/RtmpConnection.cpp ends.
use cloud_assitant.Prelude.{
  ℕ, zero, suc, ◌+◌, ◌-◌, ◌<◌, ◌≡◌, ◌≢◌, refl, ap, inl, inr, List, Option, none, some, Bool, true,
  false, ltb, ◌==◌, not, if◌then◌else◌, arith, length, drop, length-drop, Holds,
  bind-Holds as opt-Holds, read_bytes, subst, if-Holds, Bool-cases, ltb→lt,
}
use cloud_assitant.Net.BufferReader.{BufferReader, IoResult, readable_bytes, retrieve, peek}
use cloud_assitant.Net.BufferReader.Stream.{
  IsValid, unread, retrieve-IsValid, unread-retrieve, readable_bytes-length,
}
use cloud_assitant.Net.Bytes.{read_uint8}
use cloud_assitant.Rtmp.Handshake
use cloud_assitant.Rtmp.Handshake.{
  Random, handshake_c0c1, handshake_s0s1s2, handshake_c2, handshake_complete,
}
use cloud_assitant.Rtmp.Sink.{send}
use cloud_assitant.Rtmp.Message.{RtmpMessage}
use cloud_assitant.Rtmp.Amf.{AmfObjects}
use cloud_assitant.Rtmp.Amf.Decoder.{AmfDecoder, decode_by, decode}
use cloud_assitant.Rtmp.Amf.Decoder.Ends.{decode_by-same}
use cloud_assitant.Rtmp.Chunk.Parse.{Outcome, used, bad}
use cloud_assitant.Rtmp.Chunk.Parse
use cloud_assitant.Rtmp.Chunk.Moves.{Takes, Parsed, parse-Parsed}
use cloud_assitant.Rtmp.World.{
  World, Action, pure, with_connection, this, ◌>>=◌, bind-Holds, lift-Holds, if-run-Holds,
}
use cloud_assitant.Rtmp.Connection.Read.{handle_parsed, handle_chunk, on_read, is_good, is_reply}

abbrev pub Ends : Option (Bool × BufferReader) × World → Type 0
Ends (r, w) = r ≢ none

done : (x : Bool × BufferReader) (w : World) → Ends (some x, w)
done x w e = cc

shrinks :
    (b b' : BufferReader) (n : ℕ)
    → IsValid b
    → Takes b (used n) b'
    → 0 < n
    → 0 < readable_bytes b'
    → IsValid b' × (readable_bytes b' < readable_bytes b)
shrinks b b' n v (inr (e, same)) pos more = absurd (omega (arith, e, pos))
shrinks b b' n v (inl e) pos more =
    rw e (retrieve-IsValid n v, omega (arith, pos, left, subst_more))
  where
    left : readable_bytes (retrieve b n) ≡ readable_bytes b - n
    left = omega (
      arith,
      readable_bytes-length v,
      readable_bytes-length (retrieve-IsValid n v),
      ap length (unread-retrieve n v),
      length-drop n (unread b),
    )

    subst_more : 0 < readable_bytes (retrieve b n)
    subst_more = rw (← e) more

abbrev Loop : Type 0
Loop = Action (Option (Bool × BufferReader))

-- The end of a round of the loop.
round-Ends :
    (ok : Bool) (n : ℕ) (b' : BufferReader) (again : Loop) (w : World)
    → (0 < n → 0 < readable_bytes b' → Holds Ends (again w))
    → Holds Ends (
        (if not ok
            then pure (some (false, b'))
            else (if n == 0
                then pure (some (true, b'))
                else (if ltb 0 (readable_bytes b') then again else pure (some (true, b')))))
          w)
round-Ends false n b' again w h = done (false, b') w
round-Ends true n b' again w h = elim (Bool-cases (n == 0)) [
  | inl e ↦ rw e (done (true, b') w)
  | inr pos ↦ rw pos (elim (Bool-cases (ltb 0 (readable_bytes b'))) [
    | inl more ↦ rw more (h (positive n pos) (ltb→lt 0 (readable_bytes b') more))
    | inr e ↦ rw e (done (true, b') w)
  ])
]
  where
    positive : (n : ℕ) → (n == 0) ≡ false → 0 < n
    positive n e = ground arith

module _ (double : ℕ → List ℕ) (server : Bool) (i : ℕ) where
  by_outcome :
      (b b' : BufferReader) (fuel : ℕ) (m : Option RtmpMessage) (o : Outcome) (w : World)
      → IsValid b
      → readable_bytes b < suc fuel
      → Takes b o b'
      → ((w2 : World)
          → IsValid b'
          → readable_bytes b' < fuel
          → Holds Ends (handle_chunk double server fuel i b' w2))
      → Holds Ends (
          (elim o as (λ _. Loop) [
            | bad ↦ pure (some (false, b'))
            | used n ↦ do
              ok ← handle_parsed double server i m
              if not ok
                  then pure (some (false, b'))
                  else (if n == 0
                      then pure (some (true, b'))
                      else (if ltb 0 (readable_bytes b')
                          then handle_chunk double server fuel i b'
                          else pure (some (true, b'))))
          ])
            w)
  by_outcome b b' fuel m bad w v h t again = done (false, b') w
  by_outcome b b' fuel m (used n) w v h t again =
      bind-Holds Ends (handle_parsed double server i m) _ w λ ok w2.
        round-Ends ok n b' (handle_chunk double server fuel i b') w2 λ pos more.
          let (v', less) = shrinks b b' n v t pos more in again w2 v' (omega (arith, less, h))

  handle_chunk-Ends :
      (fuel : ℕ) (b : BufferReader) (w : World)
      → IsValid b
      → readable_bytes b < fuel
      → Holds Ends (handle_chunk double server fuel i b w)
  unfolding handle_chunk
  handle_chunk-Ends zero b w v h = absurd (omega arith)
  handle_chunk-Ends (suc fuel) b w v h = bind-Holds Ends (this i) _ w λ c w1.
      lift-Holds (Parsed b) Ends (Parse.parse c.rtmp_chunk b) _ w1 (parse-Parsed c.rtmp_chunk b)
        λ (o, chunk, b', m) p.
          by_outcome b b' fuel m o (with_connection w1 i (record c { rtmp_chunk = chunk })) v h p
            λ w2 v' less. handle_chunk-Ends fuel b' w2 v' less

abbrev Answer : Type 0
Answer = IoResult × Handshake.State × BufferReader × List ℕ

abbrev Leaves : Answer → Type 0
Leaves (r, h, b', res) = IsValid b'

handshake-Leaves :
    (h : Handshake.State) (b : BufferReader) (rd : Random)
    → IsValid b
    → Holds Leaves (Handshake.parse h b rd)
unfolding Handshake.parse
handshake-Leaves handshake_s0s1s2 b rd v =
    if-Holds Leaves (ltb (readable_bytes b) (1 + 1536 + 1536)) _ _ (λ _. v)
      λ _. opt-Holds Leaves (read_uint8 (peek b)) _ λ version.
        if-Holds Leaves (not (version == 3)) _ _ (λ _. v)
          λ _. opt-Holds Leaves (read_bytes 1536 (drop 1 (peek b))) _ λ s1. retrieve-IsValid _ v
handshake-Leaves handshake_c0c1 b rd v =
    if-Holds Leaves (ltb (readable_bytes b) (1 + 1536)) _ _ (λ _. v)
      λ _. opt-Holds Leaves (read_uint8 (peek b)) _ λ version.
        if-Holds Leaves (not (version == 3)) _ _ (λ _. v)
          λ _. opt-Holds Leaves (read_bytes 1536 (drop 1 (peek b))) _ λ c1. retrieve-IsValid _ v
handshake-Leaves handshake_c2 b rd v =
    if-Holds Leaves (ltb (readable_bytes b) 1536) _ _ (λ _. v) λ _. retrieve-IsValid _ v
handshake-Leaves handshake_complete b rd v = retrieve-IsValid _ v

module _ (double : ℕ → List ℕ) (server : Bool) (rd : Random) (i : ℕ) where
  on_read-Ends :
      (b : BufferReader) (w : World) → IsValid b → Holds Ends (on_read double server rd i b w)
  unfolding on_read
  on_read-Ends b w v = bind-Holds Ends (this i) _ w λ c w1.
      if-run-Holds Ends (Handshake.is_completed c.handshake) _ _ w1
        (handle_chunk-Ends double server i (suc (readable_bytes b)) b w1 v (omega arith))
        (lift-Holds Leaves Ends (Handshake.parse c.handshake b rd) _ w1
          (handshake-Leaves c.handshake b rd v)
          λ (size, h, b', res) v'.
            bind-Holds Ends (if is_reply size then send i res else pure tt) _
              (with_connection w1 i (record c { handshake = h }))
              λ _ w2.
                if-run-Holds Ends (Handshake.is_completed h) _ _ w2
                  (if-run-Holds Ends (ltb 0 (readable_bytes b')) _ _ w2
                    (handle_chunk-Ends double server i (suc (readable_bytes b')) b' w2 v'
                      (omega arith))
                    (done (is_good size, b') w2))
                  (done (is_good size, b') w2))

  -- The loop of `OnRead` of an RTMP connection ends on every buffer, whatever its bytes and whatever
  -- the state: the rounds given to it are enough. So are those given to the loops of the AMF decoder,
  -- for every message and every place in it: what the decoder answers does not depend on what it
  -- would give if they ran out.
  pub on_read-ends :
      (b : BufferReader) (w w' : World) (m : RtmpMessage) (p : List ℕ) (at_byte : ℕ) (n : Option ℕ)
      (d : AmfDecoder) (no_object : Option (ℕ × AmfObjects)) (no_value : Option (ℕ × AmfDecoder))
      → IsValid b
      → (on_read double server rd i b w ≢ some (none, w'))
        × (decode_by no_object no_value (suc m.lenght) (drop at_byte p) (m.lenght - at_byte) n d
            ≡ decode (suc m.lenght) (drop at_byte p) (m.lenght - at_byte) n d)
  unfolding decode
  on_read-ends b w w' m p at_byte n d no_object no_value v = (
    λ e. subst (Holds Ends) e (on_read-Ends b w v) refl,
    decode_by-same no_object none no_value none (suc m.lenght) (drop at_byte p) (m.lenght - at_byte)
        n d (omega arith),
  )
