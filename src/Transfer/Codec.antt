-- ===== src/Transfer/Codec.antt =====
-- Transfer/TransferProtocol.h, Transfer/TransferMessage.h and Transfer/TransferCodec.cpp.
pub mod RoundTrip
use cloud_assitant.Prelude.{
  ℕ, ◌+◌, ◌-◌, ◌*◌, ◌/◌, ◌%◌, ◌^◌, ◌≤◌, ◌<◌, List, [], ◌∷◌, ◌++◌, Option, none, some, Bool, true,
  false, ltb, leb, ◌==◌, if◌then◌else◌, length, take, drop, ◌>>=◌, read_bytes,
}
use cloud_assitant.Net.Bytes.{
  read_uint8, read_uint16_be, read_uint32_be, write_uint8, write_uint16_be, write_uint32_be,
}

pub record MessageHeader : Type 0 where
  pub version : ℕ
  pub kind : ℕ
  pub flags : ℕ
  pub request_id : ℕ
  pub payload_size : ℕ

pub record TransferMessage : Type 0 where
  pub header : MessageHeader
  pub payload : List ℕ

abbrev pub header_size : ℕ
header_size = 12

abbrev pub empty_message : TransferMessage
empty_message = record {
  header = record { version = 0; kind = 0; flags = 0; request_id = 0; payload_size = 0 };
  payload = [];
}

-- The twelve bytes before the payload.
unfoldable pub encode_header : MessageHeader → ℕ → List ℕ
unfolding write_uint8 write_uint16_be write_uint32_be
encode_header h payload_size =
    write_uint8 h.version
    ++ (write_uint8 h.kind
        ++ (write_uint16_be h.flags
            ++ (write_uint32_be h.request_id ++ write_uint32_be payload_size)))

-- `Encode`. `out` has `12 + payload_size` bytes, in 32-bit arithmetic; `none` is a store past its
-- end.
unfoldable pub encode : TransferMessage → Option (List ℕ)
unfolding encode_header
encode msg =
    let payload_size = length msg.payload % 2 ^ 32 in
    if leb (header_size + payload_size) ((header_size + payload_size) % 2 ^ 32)
    then (read_bytes payload_size msg.payload >>= λ body.
        some (encode_header msg.header payload_size ++ body))
    else none

-- `Decode` on a pointer (`none` is `nullptr`): whether it succeeds, and the message after the call.
-- An outer `none` is a read outside the memory.
unfoldable pub decode : Option (List ℕ) → ℕ → TransferMessage → Option (Bool × TransferMessage)
unfolding read_uint8 read_uint16_be read_uint32_be
decode none size msg = some (false, msg)
decode (some bytes) size msg = if ltb size header_size then some (false, msg) else (do
  version ← read_uint8 bytes
  kind ← read_uint8 (drop 1 bytes)
  flags ← read_uint16_be (drop 2 bytes)
  request_id ← read_uint32_be (drop 4 bytes)
  payload_size ← read_uint32_be (drop 8 bytes)
  let header : MessageHeader = record {
    version = version;
    kind = kind;
    flags = flags;
    request_id = request_id;
    payload_size = payload_size;
  }
  if payload_size == (size - header_size)
      then (read_bytes payload_size (drop header_size bytes) >>= λ body.
          some (true, record { header = header; payload = body }))
      else some (false, record msg { header = header }))
