-- ===== src/Rtmp/Chunk/Chunked.antt =====
-- The loop of `CreateChunk` of RtmpServer/RtmpChunk.cpp in plain terms.
use cloud_assitant.Prelude.{
  ℕ, zero, suc, ◌-◌, ◌≤◌, ◌<◌, ◌≡◌, refl, inl, inr, List, [], ◌++◌, some, false, ltb, ◌==◌,
  if◌then◌else◌, length, take, drop, read_bytes-take, arith, length-append, length-take,
  length-drop, Bool-cases, ltb→lt,
}
use cloud_assitant.Rtmp.Message.{RtmpMessage}
use cloud_assitant.Rtmp.Chunk.Parse.{extended}
use cloud_assitant.Rtmp.Chunk.Create.{create_basic_header, create_extended, create_loop}

-- The body of a chunk stream in plain terms: pieces of the payload, with a header of format 3
-- between two of them. `fuel` is at least the number of pieces.
abbrev pub chunked : ℕ → ℕ → ℕ → ℕ → List ℕ → List ℕ
chunked zero size csid left payload = []
chunked (suc fuel) size csid left payload =
    if ltb size left
    then take size payload
      ++ (create_basic_header 3 csid ++ chunked fuel size csid (left - size) (drop size payload))
    else take left payload

pub no_extension : (m : RtmpMessage) → m.clock < extended → create_extended m ≡ []
unfolding create_extended
no_extension m h = ground arith

pub create_loop-chunked :
    (fuel size csid : ℕ) (m : RtmpMessage) (left : ℕ) (payload : List ℕ)
    → m.clock < extended
    → 0 < size
    → 0 < left
    → left < fuel
    → left ≤ length payload
    → create_loop fuel size csid m left payload ≡ some (chunked fuel size csid left payload)
unfolding create_loop
create_loop-chunked zero size csid m left payload hc hs hl hf hp = absurd (omega arith)
create_loop-chunked (suc fuel) size csid m left payload hc hs hl hf hp =
    rw (busy left hl) (elim (Bool-cases (ltb size left)) [
      | inl more ↦ rw more (
          rw (read_bytes-take size payload (fits (ltb→lt size left more))) (
            rw
              (create_loop-chunked fuel size csid m (left - size) (drop size payload) hc hs
                (omega (arith, ltb→lt size left more)) (omega (arith, hs, hf, hl))
                (omega (arith, length-drop size payload, hp)))
              (rw (no_extension m hc) refl)))
      | inr all ↦ rw all (read_bytes-take left payload hp)
    ])
  where
    busy : (n : ℕ) → 0 < n → (n == 0) ≡ false
    busy n h = ground arith

    fits : size < left → size ≤ length payload
    fits h = omega (arith, hp)

pub chunked-long :
    (fuel size csid left : ℕ) (payload : List ℕ)
    → 0 < size
    → left < fuel
    → left ≤ length payload
    → left ≤ length (chunked fuel size csid left payload)
chunked-long zero size csid left payload hs hf hp = absurd (omega arith)
chunked-long (suc fuel) size csid left payload hs hf hp = elim (Bool-cases (ltb size left)) [
  | inl more ↦ rw more (
      let lt = ltb→lt size left more in
      omega (
        arith,
        lt,
        length-append (take size payload) (
            create_basic_header 3 csid ++ chunked fuel size csid (left - size) (drop size payload)),
        length-append (create_basic_header 3 csid)
            (chunked fuel size csid (left - size) (drop size payload)),
        length-take size payload,
        chunked-long fuel size csid (left - size) (drop size payload) hs (omega (arith, lt, hs, hf))
            (omega (arith, length-drop size payload)),
      ))
  | inr all ↦ rw all (omega (arith, length-take left payload))
]
