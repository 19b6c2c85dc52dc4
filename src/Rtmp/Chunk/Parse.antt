-- ===== src/Rtmp/Chunk/Parse.antt =====
-- `Parse`, `ParseChunkHeader` and `ParseChunkBody` of RtmpServer/RtmpChunk.cpp. An outer `none` is
-- an access outside the memory, or a division by zero.
use cloud_assitant.Prelude.{
  ℕ, ◌+◌, ◌-◌, ◌*◌, ◌/◌, ◌%◌, ◌^◌, List, [], ◌∷◌, ◌++◌, Option, none, some, Bool, true, ltb, leb,
  ◌==◌, if◌then◌else◌, drop, ◌||◌, ◌&&◌, ◌>>=◌, read_bytes, replicate,
}
use cloud_assitant.Net.Bytes.{read_uint8, read_uint24_be, read_uint32_be, read_uint32_le}
use cloud_assitant.Net.BufferReader.{BufferReader, readable_bytes, peek, retrieve, store}
use cloud_assitant.Rtmp.Message.{RtmpMessage, new_bytes, is_set, clear}
use cloud_assitant.Rtmp.Chunk.{State, parse_header, parse_body, RtmpChunk, message_at, put_message}

-- The `int` that a parser returns: bytes used (0: wait for more), or -1.
pub data Outcome : Type 0 where
  used : ℕ → Outcome
  bad : Outcome

abbrev pub extended : ℕ
extended = 0xffffff

-- `KChunkMessageHeaderLenght[fmt]`
unfoldable pub header_length : ℕ → ℕ
header_length fmt = if fmt == 0 then 11 else (if fmt == 1 then 7 else (if fmt == 2 then 3 else 0))

-- The basic header: `none` in the middle means that it is not all there. The id is a `uint8_t`, so
-- its sum wraps.
unfoldable pub basic_header : List ℕ → ℕ → Option (Option (ℕ × ℕ × ℕ))
unfolding read_uint8
basic_header buf buf_size = read_uint8 buf >>= λ flags.
    let fmt = flags / 64 in
    let id = flags % 64 in
    if id == 0
    then (if ltb buf_size (1 + 2)
        then some none
        else (read_uint8 (drop 1 buf) >>= λ a. some (some (fmt, (a + 64) % 256, 2))))
    else (if id == 1
        then (if ltb buf_size (1 + 3) then some none else (do
          b ← read_uint8 (drop 2 buf)
          a ← read_uint8 (drop 1 buf)
          some (some (fmt, (1 + (b * 255 + a + 64)) % 256, 3))))
        else some (some (fmt, id, 1)))

-- A payload of the announced length is kept, any other is allocated anew.
unfoldable pub resize_payload : ℕ → RtmpMessage → RtmpMessage
resize_payload lenght m =
    if m.lenght == lenght && is_set m.playload
    then m
    else record m { lenght = lenght; playload = some (new_bytes lenght) }

-- The length, type and stream that the header `h` of eleven bytes sets in a message.
unfoldable pub apply_header : ℕ → List ℕ → RtmpMessage → Option RtmpMessage
apply_header fmt h m = do
  lenght ← read_uint24_be (drop 3 h)
  type_id ← read_uint8 (drop 6 h)
  stream_id ← read_uint32_le (drop 7 h)
  let typed : RtmpMessage =
      (if fmt == 0 || fmt == 1
        then record (resize_payload lenght m) { index = 0; type_id = type_id }
        else m)
  some (if fmt == 0 then record typed { stream_id = stream_id } else typed)

-- The time stamps at the first chunk of a message.
unfoldable pub apply_timestamp : ℕ → ℕ → ℕ → RtmpMessage → RtmpMessage
apply_timestamp fmt timestamp extend_timestamp m =
    if m.index == 0
    then (if fmt == 0
        then record m { clock = 0; timestamp = timestamp; extend_timestamp = extend_timestamp }
        else (if leb extended m.timestamp
            then record m { extend_timestamp = (m.extend_timestamp + extend_timestamp) % 2 ^ 32 }
            else record m { timestamp = (m.timestamp + timestamp) % 2 ^ 32 }))
    else m

-- The extended time stamp: `none` in the middle means that it is not all there.
unfoldable pub extended_timestamp : List ℕ → ℕ → ℕ → ℕ → RtmpMessage → Option (Option (ℕ × ℕ))
unfolding read_uint32_be
extended_timestamp buf buf_size bytes_used timestamp m =
    if leb extended timestamp || leb extended m.timestamp
    then (if ltb buf_size (bytes_used + 4)
        then some none
        else (read_uint32_be (drop bytes_used buf) >>= λ e. some (some (e, bytes_used + 4))))
    else some (some (0, bytes_used))

abbrev pub Parsed : Type 0
Parsed = Option (Outcome × RtmpChunk × BufferReader)

-- The end of `ParseChunkHeader`, with the message `m` of stream `csid` as the header left it.
unfoldable pub finish_header :
    RtmpChunk → BufferReader → ℕ → ℕ → ℕ → RtmpMessage → Option (Option (ℕ × ℕ)) → Parsed
finish_header c buffer fmt csid timestamp m none = none
finish_header c buffer fmt csid timestamp m (some none) = some (
  used 0,
  record c { chunk_stream_id = some csid; messages = put_message csid m c.messages },
  buffer,
)
finish_header c buffer fmt csid timestamp m (some (some (extend, bytes_used))) = some (
  used bytes_used,
  record c {
    state = parse_body;
    chunk_stream_id = some csid;
    messages = put_message csid (apply_timestamp fmt timestamp extend m) c.messages;
  },
  retrieve buffer bytes_used,
)

-- From the basic header on.
unfoldable pub message_header : RtmpChunk → BufferReader → Option (ℕ × ℕ × ℕ) → Parsed
message_header c buffer none = some (used 0, c, buffer)
message_header c buffer (some (fmt, csid, basic)) =
    if ltb (readable_bytes buffer) (header_length fmt + basic)
    then some (used 0, c, buffer)
    else (do
      bytes ← read_bytes (header_length fmt) (drop basic (peek buffer))
      let h = bytes ++ replicate (11 - header_length fmt) 0
      m ← apply_header fmt h (record (message_at csid c.messages) { csid = csid })
      timestamp ← read_uint24_be h
      finish_header c buffer fmt csid timestamp m (
          extended_timestamp (peek buffer) (readable_bytes buffer) (basic + header_length fmt)
            timestamp m))

unfoldable pub parse_chunk_header : RtmpChunk → BufferReader → Parsed
parse_chunk_header c buffer =
    basic_header (peek buffer) (readable_bytes buffer) >>= λ basic. message_header c buffer basic

-- `memcpy` to a payload; with no byte to copy a null pointer is as good as any.
unfoldable pub copy_payload : Option (List ℕ) → ℕ → List ℕ → Option (Option (List ℕ))
unfolding store
copy_payload none at [] = some none
copy_payload none at (x ∷ xs) = none
copy_payload (some p) at xs = store p at xs >>= λ p'. some (some p')

-- `index >= lenght || index % in_chunk_size_ == 0`
unfoldable pub chunk_done : ℕ → ℕ → ℕ → Option Bool
chunk_done index lenght in_chunk_size =
    if leb lenght index
    then some true
    else (if in_chunk_size == 0 then none else some (index % in_chunk_size == 0))

unfoldable pub body_of : RtmpChunk → BufferReader → ℕ → RtmpMessage → Parsed
body_of c buffer csid m =
    let left = (m.lenght + 2 ^ 32 - m.index) % 2 ^ 32 in
    let chunk_size = if ltb c.in_chunk_size left then c.in_chunk_size else left in
    if ltb (readable_bytes buffer) chunk_size
    then some (used 0, c, buffer)
    else (if ltb m.lenght ((m.index + chunk_size) % 2 ^ 32) then some (bad, c, buffer) else (do
      bytes ← read_bytes chunk_size (peek buffer)
      p ← copy_payload m.playload m.index bytes
      let index = (m.index + chunk_size) % 2 ^ 32
      over ← chunk_done index m.lenght c.in_chunk_size
      some (
        used chunk_size,
        record c {
          state = if over then parse_header else c.state;
          messages = put_message csid (record m { playload = p; index = index }) c.messages;
        },
        retrieve buffer chunk_size,
      )))

unfoldable pub parse_chunk_body : RtmpChunk → BufferReader → Option ℕ → Parsed
parse_chunk_body c buffer none = some (bad, c, buffer)
parse_chunk_body c buffer (some csid) = body_of c buffer csid (message_at csid c.messages)

-- The clock of a finished message.
unfoldable pub advance_clock : RtmpMessage → RtmpMessage
advance_clock m =
    if leb extended m.timestamp
    then record m { clock = (m.clock + m.extend_timestamp) % 2 ^ 64 }
    else record m { clock = (m.clock + m.timestamp) % 2 ^ 64 }

-- What `Parse` does after the body: hand a complete message over.
unfoldable pub deliver :
    Outcome × RtmpChunk × BufferReader
    → Option ℕ
    → Outcome × RtmpChunk × BufferReader × Option RtmpMessage
deliver (bad, c, buffer) csid = (bad, c, buffer, none)
deliver (used n, c, buffer) none = (used n, c, buffer, none)
deliver (used n, c, buffer) (some csid) =
    let m = message_at csid c.messages in
    let m' = advance_clock m in
    if ltb 0 n && m.index == m.lenght
    then (
      used n,
      record c { chunk_stream_id = none; messages = put_message csid (clear m') c.messages },
      buffer,
      some m',
    )
    else (used n, c, buffer, none)

unfoldable pub parse_state :
    RtmpChunk
    → BufferReader
    → State
    → Option (Outcome × RtmpChunk × BufferReader × Option RtmpMessage)
parse_state c buffer parse_header =
    parse_chunk_header c buffer >>= λ (n, c', b'). some (n, c', b', none)
parse_state c buffer parse_body = parse_chunk_body c buffer c.chunk_stream_id >>= λ (n, c', b').
    some (deliver (n, c', b') c'.chunk_stream_id)

-- `Parse`. The last part is what it stores in `out_rtmp_msg`.
unfoldable pub parse :
    RtmpChunk → BufferReader → Option (Outcome × RtmpChunk × BufferReader × Option RtmpMessage)
parse c buffer =
    if readable_bytes buffer == 0
    then some (used 0, c, buffer, none)
    else parse_state c buffer c.state
