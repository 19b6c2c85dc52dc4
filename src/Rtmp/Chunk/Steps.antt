-- ===== src/Rtmp/Chunk/Steps.antt =====
-- One call of `Parse` of RtmpServer/RtmpChunk.cpp on what `CreateChunk` writes.
use cloud_assitant.Prelude.{
  ℕ, ◌+◌, ◌-◌, ◌%◌, ◌^◌, ◌≤◌, ◌<◌, ◌≡◌, ◌≢◌, refl, sym, ap, ap₂, ◌∙◌, List, [], ◌++◌, Option, none,
  some, true, false, ltb, leb, ◌==◌, if◌then◌else◌, length, take, drop, ◌&&◌, ◌>>=◌, read_bytes,
  read_bytes-append, replicate, arith, drop-length-append,
}
use native.Mathlib.Nat.{add-zero}
use cloud_assitant.Net.Bytes.{read_uint8, read_uint24_be, read_uint32_le}
use cloud_assitant.Net.BufferReader.{BufferReader, readable_bytes, peek, retrieve, store}
use cloud_assitant.Rtmp.Message.{RtmpMessage, clear}
use cloud_assitant.Rtmp.Chunk.{
  parse_header, parse_body, RtmpChunk, message_at, put_message, message_at-put_message,
}
use cloud_assitant.Rtmp.Chunk.Parse.{
  Outcome, used, extended, header_length, apply_header, apply_timestamp, extended_timestamp,
  finish_header, message_header, parse_chunk_header, copy_payload, chunk_done, body_of,
  parse_chunk_body, advance_clock, deliver, parse_state, parse,
}
use cloud_assitant.Rtmp.Chunk.Create.{create_basic_header, create_message_header}
use cloud_assitant.Rtmp.Chunk.Headers.{
  announced, IsSized, Fits, basic_header-create, length-create_message_header, apply_header-create,
  read-clock,
}

-- The first header of a message sets its times as well.
abbrev pub started : RtmpMessage → RtmpMessage → List ℕ → ℕ → RtmpMessage
started old m p csid = record (announced old m p csid) {
  clock = 0;
  timestamp = m.clock;
  extend_timestamp = 0;
}

-- The parser in the body of a chunk of stream `csid`, whose message is `m`.
abbrev pub in_body : RtmpChunk → ℕ → RtmpMessage → RtmpChunk
in_body c csid m = record c {
  state = parse_body;
  chunk_stream_id = some csid;
  messages = put_message csid m c.messages;
}

abbrev basic_size : ℕ → ℕ → ℕ
basic_size fmt csid = length (create_basic_header fmt csid)

-- An outer condition that does not hold.
test_lt : (n k : ℕ) → k ≤ n → ltb n k ≡ false
test_lt n k h = ground arith

module _ (c : RtmpChunk) (b : BufferReader) (csid : ℕ) (lo : 2 ≤ csid) (hi : csid < 256) where
  to_message_header :
      (fmt : ℕ) (more : List ℕ)
      → fmt < 4
      → c.state ≡ parse_header
      → peek b ≡ create_basic_header fmt csid ++ more
      → basic_size fmt csid < readable_bytes b
      → parse c b ≡ (
          message_header c b (some (fmt, csid, basic_size fmt csid)) >>= λ (n, c', b').
          some (n, c', b', none))
  unfolding parse parse_state parse_chunk_header
  to_message_header fmt more hf st seen room = rw (busy (readable_bytes b) room) (
      ap (parse_state c b) st
      ∙ rw seen (rw (basic_header-create fmt csid (readable_bytes b) more hf lo hi room)))
    where
      busy : (n : ℕ) → basic_size fmt csid < n → (n == 0) ≡ false
      busy n h = ground arith

  message_header-reads :
      (fmt basic timestamp : ℕ) (h : List ℕ) (m : RtmpMessage)
      → header_length fmt + basic ≤ readable_bytes b
      → read_bytes (header_length fmt) (drop basic (peek b)) ≡ some h
      → apply_header fmt
          (h ++ replicate (11 - header_length fmt) 0)
          (record (message_at csid c.messages) { csid = csid })
        ≡ some m
      → read_uint24_be (h ++ replicate (11 - header_length fmt) 0) ≡ some timestamp
      → timestamp < extended
      → m.timestamp < extended
      → message_header c b (some (fmt, csid, basic))
        ≡ some (
          used (basic + header_length fmt),
          in_body c csid (apply_timestamp fmt timestamp 0 m),
          retrieve b (basic + header_length fmt),
        )
  unfolding message_header finish_header extended_timestamp
  message_header-reads fmt basic timestamp h m room bytes applied time near past =
      rw (test_lt (readable_bytes b) (header_length fmt + basic) room)
        (rw bytes (rw (applied, time) (rw (test_le timestamp near, test_le m.timestamp past) refl)))
    where
      test_le : (n : ℕ) → n < extended → leb extended n ≡ false
      test_le n lt = ground arith

  -- The first header of a message.
  pub parse-first :
      (m : RtmpMessage) (more : List ℕ)
      → Fits m
      → c.state ≡ parse_header
      → IsSized (message_at csid c.messages)
      → (message_at csid c.messages).timestamp < extended
      → peek b ≡ create_basic_header 0 csid ++ (create_message_header 0 m ++ more)
      → basic_size 0 csid + 11 ≤ readable_bytes b
      → (p : List ℕ) × (parse c b
          ≡ some (
            used (basic_size 0 csid + 11),
            in_body c csid (started (message_at csid c.messages) m p csid),
            retrieve b (basic_size 0 csid + 11),
            none,
          ))
        × (length p ≡ m.lenght)
  unfolding header_length apply_timestamp
  parse-first m more f st sized past seen room =
      let (p, applied, size) = apply_header-create m f [] (record old { csid = csid }) sized in
      (
        p,
        to_message_header 0 (header ++ more) (omega arith) st seen (omega (arith, room))
            ∙ ap (λ t. t >>= λ (n, c', b'). some (n, c', b', none))
                (message_header-reads 0 (basic_size 0 csid) m.clock header (announced old m p csid)
                  (omega (arith, room)) header_read applied (read-clock m f []) f.clock past),
        size,
      )
    where
      old : RtmpMessage
      old = message_at csid c.messages

      header : List ℕ
      header = create_message_header 0 m

      behind : drop (basic_size 0 csid) (peek b) ≡ header ++ more
      behind = rw seen (drop-length-append (create_basic_header 0 csid) (header ++ more))

      header_read : read_bytes 11 (drop (basic_size 0 csid) (peek b)) ≡ some header
      header_read = rw behind (rw length-create_message_header at (read_bytes-append header more))

  -- The header of a later chunk of the message.
  pub parse-next :
      (more : List ℕ)
      → c.state ≡ parse_header
      → (message_at csid c.messages).csid ≡ csid
      → (message_at csid c.messages).index ≢ 0
      → (message_at csid c.messages).timestamp < extended
      → peek b ≡ create_basic_header 3 csid ++ more
      → basic_size 3 csid < readable_bytes b
      → parse c b
        ≡ some (
          used (basic_size 3 csid),
          in_body c csid (message_at csid c.messages),
          retrieve b (basic_size 3 csid),
          none,
        )
  unfolding header_length
  parse-next more st own begun past seen room =
      to_message_header 3 more (omega arith) st seen room
      ∙ ap (λ t. t >>= λ (n, c', b'). some (n, c', b', none))
          (message_header-reads 3 (basic_size 3 csid) 0 [] own_message (omega (arith, room))
              (unfold read_bytes in refl) unchanged (unfold read_uint24_be in refl) (omega arith)
              past
            ∙ ap₂ continued (add-zero (basic_size 3 csid)) (later own_message begun ∙ same))
    where
      m : RtmpMessage
      m = message_at csid c.messages

      own_message : RtmpMessage
      own_message = record m { csid = csid }

      same : own_message ≡ m
      same = λ i. record m { csid = sym own i }

      continued : ℕ → RtmpMessage → Option (Outcome × RtmpChunk × BufferReader)
      continued n t = some (used n, in_body c csid t, retrieve b n)

      unchanged : apply_header 3 (replicate 11 0) own_message ≡ some own_message
      unchanged = unfold apply_header read_uint8 read_uint24_be read_uint32_le in refl

      later : (t : RtmpMessage) → t.index ≢ 0 → apply_timestamp 3 0 0 t ≡ t
      later t h = unfold apply_timestamp in ground arith

-- The message `m` once `bytes` have been copied into its payload `q`.
abbrev pub filled : RtmpMessage → List ℕ → List ℕ → RtmpMessage
filled m q bytes = record m {
  playload = some (take m.index q ++ (bytes ++ drop (m.index + length bytes) q));
  index = m.index + length bytes;
}

-- The parser behind a body.
abbrev pub in_header : RtmpChunk → ℕ → RtmpMessage → RtmpChunk
in_header c csid m = record c { state = parse_header; messages = put_message csid m c.messages }

-- What a chunk of the message `m` holds.
abbrev pub chunk_of : ℕ → RtmpMessage → ℕ
chunk_of size m = if ltb size (m.lenght - m.index) then size else m.lenght - m.index

module _ (c : RtmpChunk) (b : BufferReader) (csid : ℕ) (m : RtmpMessage) (q bytes more : List ℕ)
    (here : message_at csid c.messages ≡ m) (own : m.playload ≡ some q)
    (sized : length q ≡ m.lenght) (index : m.index < m.lenght) (lenght : m.lenght < 2 ^ 24)
    (size : length bytes ≡ chunk_of c.in_chunk_size m) (seen : peek b ≡ bytes ++ more)
    (room : length bytes ≤ readable_bytes b)
    (over : chunk_done (m.index + length bytes) m.lenght c.in_chunk_size ≡ some true) where
  fits : m.index + length bytes ≤ m.lenght
  fits = ground arith

  copied :
      copy_payload m.playload m.index bytes
      ≡ some (some (take m.index q ++ (bytes ++ drop (m.index + length bytes) q)))
  unfolding copy_payload store
  copied = rw own (rw (within (m.index + length bytes) (length q) (rw sized fits)) refl)
    where
      within : (i n : ℕ) → i ≤ n → leb i n ≡ true
      within i n h = ground arith

  body_of_lem :
      body_of c b csid m
      ≡ some (used (length bytes), in_header c csid (filled m q bytes), retrieve b (length bytes))
  unfolding body_of
  body_of_lem = rw left (
      rw (← size) (
        rw (test_lt (readable_bytes b) (length bytes) room) (
          rw small (
            rw (test_lt m.lenght (m.index + length bytes) fits)
              (rw seen (rw (read_bytes-append bytes more) (rw copied (rw over refl))))))))
    where
      left : (m.lenght + 2 ^ 32 - m.index) % 2 ^ 32 ≡ m.lenght - m.index
      left = omega (arith, index, lenght)

      small : (m.index + length bytes) % 2 ^ 32 ≡ m.index + length bytes
      small = omega (arith, fits, lenght)

  to_body :
      c.state ≡ parse_body
      → c.chunk_stream_id ≡ some csid
      → 0 < readable_bytes b
      → parse c b
        ≡ some (
            deliver
              (used (length bytes), in_header c csid (filled m q bytes), retrieve b (length bytes))
              (some csid))
  unfolding parse parse_state parse_chunk_body
  to_body st stream some_bytes = rw (busy (readable_bytes b) some_bytes) (
      ap (parse_state c b) st
      ∙ ap
          (λ t.
            parse_chunk_body c b t >>= λ (n, c', b'). some (deliver (n, c', b') c'.chunk_stream_id))
          stream
      ∙ rw here (rw body_of_lem (ap (λ t. some (deliver after t)) stream)))
    where
      busy : (n : ℕ) → 0 < n → (n == 0) ≡ false
      busy n h = ground arith

      after : Outcome × RtmpChunk × BufferReader
      after = (used (length bytes), in_header c csid (filled m q bytes), retrieve b (length bytes))

  -- The body of a chunk that is not the last of its message.
  pub parse-middle :
      c.state ≡ parse_body
      → c.chunk_stream_id ≡ some csid
      → 0 < length bytes
      → m.index + length bytes < m.lenght
      → parse c b
        ≡ some (
          used (length bytes),
          in_header c csid (filled m q bytes),
          retrieve b (length bytes),
          none,
        )
  parse-middle st stream some_bytes short =
      to_body st stream (omega (arith, room, some_bytes)) ∙ ap some waits
    where
      no : (ltb 0 (length bytes) && (m.index + length bytes) == m.lenght) ≡ false
      no = ground arith

      waits :
          deliver
            (used (length bytes), in_header c csid (filled m q bytes), retrieve b (length bytes))
            (some csid)
          ≡ (
            used (length bytes),
            in_header c csid (filled m q bytes),
            retrieve b (length bytes),
            none,
          )
      waits =
          unfold deliver in
          rw (message_at-put_message csid (filled m q bytes) c.messages) (rw no refl)

  -- The body of the last chunk.
  pub parse-last :
      c.state ≡ parse_body
      → c.chunk_stream_id ≡ some csid
      → 0 < length bytes
      → m.index + length bytes ≡ m.lenght
      → (c' : RtmpChunk) × (parse c b
          ≡ some (
            used (length bytes),
            c',
            retrieve b (length bytes),
            some (advance_clock (filled m q bytes)),
          ))
        × (c'.state ≡ parse_header)
  parse-last st stream some_bytes full =
      (after, to_body st stream (omega (arith, room, some_bytes)) ∙ ap some hands_over, refl)
    where
      all : (ltb 0 (length bytes) && (m.index + length bytes) == m.lenght) ≡ true
      all = ground arith

      after : RtmpChunk
      after = record (in_header c csid (filled m q bytes)) {
        chunk_stream_id = none;
        messages =
            put_message csid (clear (advance_clock (filled m q bytes)))
              (put_message csid (filled m q bytes) c.messages);
      }

      hands_over :
          deliver
            (used (length bytes), in_header c csid (filled m q bytes), retrieve b (length bytes))
            (some csid)
          ≡ (
            used (length bytes),
            after,
            retrieve b (length bytes),
            some (advance_clock (filled m q bytes)),
          )
      hands_over =
          unfold deliver in
          rw (message_at-put_message csid (filled m q bytes) c.messages) (rw all refl)
