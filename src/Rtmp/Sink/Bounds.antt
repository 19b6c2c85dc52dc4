-- ===== src/Rtmp/Sink/Bounds.antt =====
-- `SendRtmpChunks` of RtmpServer/RtmpConnection.cpp: the buffer that it takes for the chunks.
use cloud_assitant.Prelude.{
  ℕ, zero, suc, ◌+◌, ◌-◌, ◌*◌, ◌/◌, ◌%◌, ◌^◌, ◌≤◌, ◌<◌, ◌≡◌, refl, ap, ◌∙◌, inl, inr, List, [], ◌∷◌,
  ◌++◌, some, true, false, ltb, leb, ◌==◌, length, take, drop, read_bytes-take, arith,
  length-append, length-take, length-drop, Bool-cases, ltb→lt,
}
use native.Mathlib.Omega.{div_any}
use native.Mathlib.Nat.{div-le_self, mod-lt}
use cloud_assitant.Rtmp.Message.{RtmpMessage}
use cloud_assitant.Rtmp.Chunk.Create.{
  create_basic_header, create_message_header, create_extended, create_loop, payload_of,
  create_chunk,
}
use cloud_assitant.Rtmp.World.{RtmpConnection, World, this-run, lift-run}
use cloud_assitant.Rtmp.Sink.{send, chunk_capacity, send_created, send_rtmp_chunks}

one_byte : (fmt csid : ℕ) → csid < 64 → length (create_basic_header fmt csid) ≡ 1
unfolding create_basic_header
one_byte fmt csid h = rw (low csid (64 + 255) (omega arith)) (rw (low csid 64 h) refl)
  where
    low : (n k : ℕ) → n < k → leb k n ≡ false
    low n k h = ground arith

extension : (m : RtmpMessage) → length (create_extended m) ≤ 4
unfolding create_extended
extension m = ground arith

length-create_message_header : (m : RtmpMessage) → length (create_message_header 0 m) ≡ 11
unfolding create_message_header
length-create_message_header m = refl

module _ (size csid : ℕ) (m : RtmpMessage) (pos : 0 < size) (low : csid < 64) where
  one_less :
      (left q : ℕ)
      → size < left
      → left ≤ suc q * size
      → (q' : ℕ) × (q ≡ suc q') × (left - size ≤ suc q' * size)
  one_less left zero lt hq = absurd (omega (arith, lt, hq))
  one_less left (suc q') lt hq = (q', refl, omega (arith, lt, hq))

  pieces :
      (payload rest : List ℕ)
      → length (take size payload ++ (create_basic_header 3 csid ++ (create_extended m ++ rest)))
        ≤ size + (5 + length rest)
  pieces payload rest = omega (
    arith,
    length-append (take size payload) (create_basic_header 3 csid ++ (create_extended m ++ rest)),
    length-append (create_basic_header 3 csid) (create_extended m ++ rest),
    length-append (create_extended m) rest,
    one_byte 3 csid low,
    extension m,
    length-take size payload,
  )

  -- With `q` continuation chunks at most.
  create_loop-length :
      (fuel left q : ℕ) (payload : List ℕ)
      → left < fuel
      → left ≤ length payload
      → left ≤ suc q * size
      → (body : List ℕ) × (create_loop fuel size csid m left payload ≡ some body)
        × (length body ≤ left + q * 5)
  unfolding create_loop
  create_loop-length zero left q payload hf hp hq = absurd (omega arith)
  create_loop-length (suc fuel) left q payload hf hp hq = elim (Bool-cases (left == 0)) [
    | inl over ↦ rw over ([], refl, omega arith)
    | inr busy ↦ rw busy (elim (Bool-cases (ltb size left)) [
      | inr all ↦ rw all (
        take left payload,
        read_bytes-take left payload hp,
        omega (arith, length-take left payload),
      )
      | inl more ↦
          let lt = ltb→lt size left more in
          let (q', eq, less) = one_less left q lt hq in
          let (rest, e, bound) =
            create_loop-length fuel (left - size) q' (drop size payload)
              (omega (arith, lt, pos, hf)) (omega (arith, lt, hp, length-drop size payload)) less in
          rw more (
            rw (read_bytes-take size payload (omega (arith, lt, hp))) (
              rw e (
                take size payload ++ (create_basic_header 3 csid ++ (create_extended m ++ rest)),
                refl,
                omega (arith, lt, eq, bound, pieces payload rest),
              )))
    ])
  ]

-- A message that a connection may send: its payload is there, and not longer than a chunk stream
-- can say.
abbrev pub Sendable : RtmpMessage → Type 0
Sendable m = (p : List ℕ) × (m.playload ≡ some p) × (m.lenght ≤ length p) × (m.lenght < 2 ^ 24)

-- The sizes that a connection and its chunk stream use for what they send.
abbrev pub Agrees : RtmpConnection → Type 0
Agrees c = (c.rtmp_chunk.out_chunk_size ≡ c.max_chunk_size) × (0 < c.max_chunk_size)

module _ (size csid : ℕ) (m : RtmpMessage) (pos : 0 < size) (low : csid < 64) (s : Sendable m) where
  abbrev framed : List ℕ → List ℕ
  framed body =
      create_basic_header 0 csid ++ (create_message_header 0 m ++ (create_extended m ++ body))

  few : m.lenght / size ≤ m.lenght
  few = div-le_self m.lenght size

  ground_div : m.lenght ≤ suc (m.lenght / size) * size
  ground_div = omega (arith, div_any m.lenght size, mod-lt m.lenght pos)

  -- The bytes of `CreateChunk` fit with room for the headers.
  create_chunk-length :
      (room : ℕ)
      → m.lenght + m.lenght / size * 5 + 16 ≤ room
      → (bytes : List ℕ) × (create_chunk size csid m room
          ≡ some (some (bytes, record m { lenght = 0 })))
        × (length bytes ≤ m.lenght + m.lenght / size * 5 + 16)
        × (0 < length bytes)
  unfolding create_chunk
  create_chunk-length room h =
      let (p, e, hp, hl) = s in
      let (body, made, bound) =
        create_loop-length size csid m pos low (suc m.lenght) m.lenght (m.lenght / size)
          (payload_of m) (omega arith) (rw e hp) ground_div in
      rw (some_size size pos) (
        rw (roomy (m.lenght + m.lenght / size * 5) (omega (arith, h))) (
          rw made (framed body, refl, omega (arith, bound, sizes body), omega (arith, sizes body))))
    where
      some_size : (n : ℕ) → 0 < n → (n == 0) ≡ false
      some_size n k = ground arith

      roomy : (n : ℕ) → n ≤ room → ltb room (n % 2 ^ 32) ≡ false
      roomy n k = ground arith

      sizes :
          (body : List ℕ) → (length (framed body) ≤ length body + 16) × (0 < length (framed body))
      sizes body =
          let whole =
            length-append (create_basic_header 0 csid)
              (create_message_header 0 m ++ (create_extended m ++ body)) in
          let inner = length-append (create_message_header 0 m) (create_extended m ++ body) in
          let last = length-append (create_extended m) body in
          let head = one_byte 0 csid low in
          let eleven = length-create_message_header m in
          let four = extension m in (omega arith, omega arith)

module _ (w : World) (i csid : ℕ) (c : RtmpConnection) (m m' : RtmpMessage) (bytes : List ℕ) where
  sends :
      w.connections i ≡ some c
      → c.is_closed ≡ false
      → 0 < c.max_chunk_size
      → create_chunk c.rtmp_chunk.out_chunk_size csid m (chunk_capacity c m)
        ≡ some (some (bytes, m'))
      → length bytes ≤ chunk_capacity c m
      → 0 < length bytes
      → send_rtmp_chunks i csid m w ≡ some (tt, record w { sent = w.sent ++ ((i, bytes) ∷ []) })
  unfolding send_rtmp_chunks send_created send
  sends alive opened pos made bound some_bytes = this-run _ w i alive (
      rw (some_size c.max_chunk_size pos) (
        lift-run _ w _ made (
          rw (fits (length bytes) (chunk_capacity c m) bound)
            (rw (more (length bytes) some_bytes) (this-run _ w i alive (rw opened refl))))))
    where
      some_size : (n : ℕ) → 0 < n → (n == 0) ≡ false
      some_size n h = ground arith

      fits : (n k : ℕ) → n ≤ k → ltb k n ≡ false
      fits n k h = ground arith

      more : (n : ℕ) → 0 < n → ltb 0 n ≡ true
      more n h = ground arith

pub send_rtmp_chunks-fits :
    (w : World) (i csid : ℕ) (c : RtmpConnection) (m : RtmpMessage)
    → w.connections i ≡ some c
    → c.is_closed ≡ false
    → Agrees c
    → csid < 64
    → Sendable m
    → (bytes : List ℕ) × (create_chunk c.rtmp_chunk.out_chunk_size csid m (chunk_capacity c m)
        ≡ some (some (bytes, record m { lenght = 0 })))
      × (length bytes ≤ chunk_capacity c m)
      × (send_rtmp_chunks i csid m w ≡ some (tt, record w { sent = w.sent ++ ((i, bytes) ∷ []) }))
unfolding send_rtmp_chunks send_created send
send_rtmp_chunks-fits w i csid c m alive opened (same, pos) low s =
    let room : m.lenght + m.lenght / c.max_chunk_size * 5 + 16 ≤ chunk_capacity c m =
      omega (arith, few c.max_chunk_size csid m pos low s, s.3) in
    let (bytes, made, bound, some_bytes) =
      create_chunk-length c.max_chunk_size csid m pos low s (chunk_capacity c m) room in
    (
      bytes,
      ap (λ n. create_chunk n csid m (chunk_capacity c m)) same ∙ made,
      omega (arith, bound, room),
      sends w i csid c m (record m { lenght = 0 }) bytes alive opened pos
          (ap (λ n. create_chunk n csid m (chunk_capacity c m)) same ∙ made)
          (omega (arith, bound, room)) some_bytes,
    )
