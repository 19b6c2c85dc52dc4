-- ===== src/Rtmp/Chunk/Headers.antt =====
-- The headers that RtmpServer/RtmpChunk.cpp writes, read back.
use cloud_assitant.Prelude.{
  ℕ, ◌+◌, ◌-◌, ◌*◌, ◌%◌, ◌^◌, ◌≤◌, ◌<◌, ◌≡◌, refl, ap, ◌∙◌, inl, inr, List, ◌∷◌, ◌++◌, Option, none,
  some, false, leb, ◌==◌, length, drop, arith, length-replicate, Bool-cases, leb→le, lt→ltb,
}
use cloud_assitant.Net.Bytes.{read_uint8, read_uint24_be, read_uint32_le}
use cloud_assitant.Rtmp.Message.{RtmpMessage, new_bytes}
use cloud_assitant.Rtmp.Chunk.Parse.{extended, resize_payload, basic_header, apply_header}
use cloud_assitant.Rtmp.Chunk.Create.{create_basic_header, create_message_header}

one_byte :
    (fmt csid size : ℕ) (rest : List ℕ)
    → fmt < 4
    → 2 ≤ csid
    → csid < 64
    → basic_header (((fmt * 64 + csid) % 256) ∷ rest) size ≡ some (some (fmt, csid, 1))
unfolding basic_header
one_byte fmt csid size rest hf lo hi = ground arith

two_bytes :
    (fmt csid size : ℕ) (rest : List ℕ)
    → fmt < 4
    → 64 ≤ csid
    → csid < 256
    → 2 < size
    → basic_header ((fmt * 64 % 256) ∷ ((csid - 64) % 256) ∷ rest) size ≡ some (some (fmt, csid, 2))
unfolding basic_header
two_bytes fmt csid size rest hf lo hi hs = ground arith

-- A basic header written for an id from 2 to 255 is read back, with its length, from a buffer that
-- holds at least one byte behind it.
pub basic_header-create :
    (fmt csid size : ℕ) (rest : List ℕ)
    → fmt < 4
    → 2 ≤ csid
    → csid < 256
    → length (create_basic_header fmt csid) < size
    → basic_header (create_basic_header fmt csid ++ rest) size
      ≡ some (some (fmt, csid, length (create_basic_header fmt csid)))
unfolding create_basic_header
basic_header-create fmt csid size rest hf lo hi hs = elim (Bool-cases (leb 64 csid)) [
  | inl wide ↦
      rw (small, wide)
        (two_bytes fmt csid size rest hf (leb→le 64 csid wide) hi (rw (small, wide) at hs))
  | inr narrow ↦ rw (small, narrow) (one_byte fmt csid size rest hf lo (ground arith))
]
  where
    small : leb 319 csid ≡ false
    small = ground arith

pub length-create_message_header : (m : RtmpMessage) → length (create_message_header 0 m) ≡ 11
unfolding create_message_header
length-create_message_header m = ground arith

-- The message that a header of format 0 announces, in place of the message `old` of its stream.
abbrev pub announced : RtmpMessage → RtmpMessage → List ℕ → ℕ → RtmpMessage
announced old m p csid = record old {
  lenght = m.lenght;
  type_id = m.type_id;
  stream_id = m.stream_id;
  csid = csid;
  index = 0;
  playload = some p;
}

-- The payload's memory has the announced length.
abbrev pub IsSized : RtmpMessage → Type 0
IsSized m = (p : List ℕ) → m.playload ≡ some p → length p ≡ m.lenght

-- The fields fit the header.
pub record Fits (m : RtmpMessage) : Type 0 where
  pub lenght : m.lenght < 2 ^ 24
  pub type_id : m.type_id < 2 ^ 8
  pub stream_id : m.stream_id < 2 ^ 32
  pub clock : m.clock < extended

resize_payload_lem :
    (n : ℕ) (m : RtmpMessage)
    → IsSized m
    → (p : List ℕ) × (resize_payload n m ≡ record m { lenght = n; playload = some p })
      × (length p ≡ n)
resize_payload_lem n m sized = go m.playload refl
  where
    go :
        (q : Option (List ℕ))
        → m.playload ≡ q
        → (p : List ℕ) × (resize_payload n m ≡ record m { lenght = n; playload = some p })
          × (length p ≡ n)
    go none e = (new_bytes n, unfold resize_payload in ground (arith, e), length-replicate n 0)
    go (some q) e = elim (Bool-cases (m.lenght == n)) [
      | inl same ↦
          (q, unfold resize_payload in ground (arith, e, same), sized q e ∙ ground (arith, same))
      | inr other ↦
          (new_bytes n, unfold resize_payload in ground (arith, e, other), length-replicate n 0)
    ]

module _ (m : RtmpMessage) (f : Fits m) (more : List ℕ) where
  pub read-clock : read_uint24_be (create_message_header 0 m ++ more) ≡ some m.clock
  unfolding create_message_header read_uint24_be
  read-clock = rw (lt→ltb _ _ f.clock) (ap some (omega arith))

  read-lenght : read_uint24_be (drop 3 (create_message_header 0 m ++ more)) ≡ some m.lenght
  unfolding create_message_header read_uint24_be
  read-lenght = ap some (omega (arith, f.lenght))

  read-type_id : read_uint8 (drop 6 (create_message_header 0 m ++ more)) ≡ some m.type_id
  unfolding create_message_header read_uint8
  read-type_id = ap some (omega (arith, f.type_id))

  read-stream_id : read_uint32_le (drop 7 (create_message_header 0 m ++ more)) ≡ some m.stream_id
  unfolding create_message_header read_uint32_le
  read-stream_id = ap some (omega (arith, f.stream_id))

  pub apply_header-create :
      (old : RtmpMessage)
      → IsSized old
      → (p : List ℕ) × (apply_header 0 (create_message_header 0 m ++ more) old
          ≡ some (announced old m p old.csid))
        × (length p ≡ m.lenght)
  unfolding apply_header
  apply_header-create old sized =
      let (p, e, size) = resize_payload_lem m.lenght old sized in
      (p, rw (read-lenght, read-type_id, read-stream_id, e) refl, size)
