-- ===== src/Rtmp/Chunk/Moves.antt =====
-- What `Parse` of RtmpServer/RtmpChunk.cpp does to the receive buffer.
use cloud_assitant.Prelude.{
  ℕ, ◌+◌, ◌-◌, ◌%◌, ◌^◌, ◌≡◌, refl, ◌⊎◌, inl, inr, ◌++◌, Option, none, some, ltb, ◌==◌, ◌&&◌,
  if◌then◌else◌, drop, replicate, read_bytes, Holds, bind-Holds, then_bind-Holds, if-Holds,
  Bool-cases,
}
use cloud_assitant.Net.BufferReader.{BufferReader, readable_bytes, retrieve, peek}
use cloud_assitant.Rtmp.Message.{RtmpMessage}
use cloud_assitant.Rtmp.Chunk.{State, parse_header, parse_body, RtmpChunk, message_at}
use cloud_assitant.Rtmp.Chunk.Parse.{
  Outcome, used, bad, apply_header, header_length, finish_header, message_header,
  parse_chunk_header, basic_header, copy_payload, chunk_done, body_of, parse_chunk_body, deliver,
  parse_state, parse,
}
use cloud_assitant.Net.Bytes.{read_uint24_be}

-- The bytes that an outcome says are used have been taken from the buffer.
abbrev pub Takes : BufferReader → Outcome → BufferReader → Type 0
Takes b bad b' = b' ≡ b
Takes b (used n) b' = (b' ≡ retrieve b n) ⊎ ((n ≡ 0) × (b' ≡ b))

abbrev Moved : BufferReader → Outcome × RtmpChunk × BufferReader → Type 0
Moved b (o, c, b') = Takes b o b'

module _ (c : RtmpChunk) (b : BufferReader) where
  finish_header-Moved :
      (fmt csid timestamp : ℕ) (m : RtmpMessage) (e : Option (Option (ℕ × ℕ)))
      → Holds (Moved b) (finish_header c b fmt csid timestamp m e)
  unfolding finish_header
  finish_header-Moved fmt csid timestamp m none = tt
  finish_header-Moved fmt csid timestamp m (some none) = inr (refl, refl)
  finish_header-Moved fmt csid timestamp m (some (some (x, n))) = inl refl

  message_header-Moved : (o : Option (ℕ × ℕ × ℕ)) → Holds (Moved b) (message_header c b o)
  unfolding message_header
  message_header-Moved none = inr (refl, refl)
  message_header-Moved (some (fmt, csid, basic)) =
      if-Holds (Moved b) (ltb (readable_bytes b) (header_length fmt + basic)) _ _
        (λ _. inr (refl, refl))
        λ _. bind-Holds (Moved b) (read_bytes (header_length fmt) (drop basic (peek b))) _ λ bytes.
          let h = bytes ++ replicate (11 - header_length fmt) 0 in
          bind-Holds (Moved b)
            (apply_header fmt h (record (message_at csid c.messages) { csid = csid })) _
            λ m.
              bind-Holds (Moved b) (read_uint24_be h) _
                λ timestamp. finish_header-Moved fmt csid timestamp m _

  body_of-Moved : (csid : ℕ) (m : RtmpMessage) → Holds (Moved b) (body_of c b csid m)
  unfolding body_of
  body_of-Moved csid m =
      let left = (m.lenght + 2 ^ 32 - m.index) % 2 ^ 32 in
      let size = if ltb c.in_chunk_size left then c.in_chunk_size else left in
      let index = (m.index + size) % 2 ^ 32 in
      if-Holds (Moved b) (ltb (readable_bytes b) size) _ _ (λ _. inr (refl, refl))
        λ _.
          if-Holds (Moved b) (ltb m.lenght index) _ _ (λ _. refl)
            λ _. bind-Holds (Moved b) (read_bytes size (peek b)) _ λ bytes.
              bind-Holds (Moved b) (copy_payload m.playload m.index bytes) _ λ p.
                bind-Holds (Moved b) (chunk_done index m.lenght c.in_chunk_size) _ λ over. inl refl

  body-Moved : (o : Option ℕ) → Holds (Moved b) (parse_chunk_body c b o)
  unfolding parse_chunk_body
  body-Moved none = refl
  body-Moved (some csid) = body_of-Moved csid (message_at csid c.messages)

abbrev pub Parsed : BufferReader → Outcome × RtmpChunk × BufferReader × Option RtmpMessage → Type 0
Parsed b (o, c, b', m) = Takes b o b'

deliver-Parsed :
    (b : BufferReader) (r : Outcome × RtmpChunk × BufferReader) (csid : Option ℕ)
    → Moved b r
    → Parsed b (deliver r csid)
unfolding deliver
deliver-Parsed b (bad, c, b') csid h = h
deliver-Parsed b (used n, c, b') none h = h
deliver-Parsed b (used n, c, b') (some csid) h =
    elim (Bool-cases
      (ltb 0 n && (message_at csid c.messages).index == (message_at csid c.messages).lenght)) [
        | inl e ↦ rw e h
        | inr e ↦ rw e h
      ]

parse_state-Parsed :
    (c : RtmpChunk) (b : BufferReader) (st : State) → Holds (Parsed b) (parse_state c b st)
unfolding parse_state parse_chunk_header
parse_state-Parsed c b parse_header =
    then_bind-Holds (Moved b) (Parsed b) (parse_chunk_header c b) _
      (bind-Holds (Moved b) (basic_header (peek b) (readable_bytes b)) _
        λ basic. message_header-Moved c b basic)
      λ r h. h
parse_state-Parsed c b parse_body =
    then_bind-Holds (Moved b) (Parsed b) (parse_chunk_body c b c.chunk_stream_id) _
      (body-Moved c b c.chunk_stream_id)
      λ (n, c', b') h. deliver-Parsed b (n, c', b') c'.chunk_stream_id h

pub parse-Parsed : (c : RtmpChunk) (b : BufferReader) → Holds (Parsed b) (parse c b)
unfolding parse
parse-Parsed c b =
    if-Holds (Parsed b) (readable_bytes b == 0) _ _ (λ _. inr (refl, refl))
      λ _. parse_state-Parsed c b c.state
