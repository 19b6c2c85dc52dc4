-- ===== src/Transfer/Connection.antt =====
-- Transfer/TransferConnection.h, Transfer/TransferConnection.cpp and Transfer/ClipboardService.cpp.
-- An outer `none` is a read outside the memory, or a loop that did not end.
pub mod Total
pub mod Framing
use cloud_assitant.Prelude.{
  ℕ, zero, suc, ◌+◌, ◌-◌, ◌*◌, ◌/◌, ◌%◌, ◌^◌, List, [], ◌∷◌, ◌++◌, Option, none, some, Bool, true,
  false, ltb, leb, ◌==◌, if◌then◌else◌, length, drop, ◌||◌, not, ◌>>=◌, read_bytes,
}
use cloud_assitant.Net.Bytes.{read_uint32_be, to_byte}
use cloud_assitant.Net.BufferReader.{BufferReader, readable_bytes, peek, retrieve}
use cloud_assitant.Transfer.Codec.{TransferMessage, header_size, empty_message, encode, decode}
use cloud_assitant.Transfer.Receiver.Files.{FileSystem}
use cloud_assitant.Transfer.Receiver.{Receiver, Result, begin, write, finish, cancel, resume}

abbrev pub max_payload_size : ℕ
max_payload_size = 16 * 1024 * 1024

abbrev pub protocol_version : ℕ
protocol_version = 1

abbrev pub flag_error : ℕ
flag_error = 1

pub data MessageType : Type 0 where
  clipboard_data file_begin file_chunk file_end file_ack file_cancel : MessageType
  file_resume_request file_resume_response : MessageType

-- The `switch` on the byte; `none` is its `default`.
unfoldable pub message_type : ℕ → Option MessageType
message_type kind =
    if kind == 1
    then some clipboard_data
    else (if kind == 2
        then some file_begin
        else (if kind == 3
            then some file_chunk
            else (if kind == 4
                then some file_end
                else (if kind == 5
                    then some file_ack
                    else (if kind == 6
                        then some file_cancel
                        else (if kind == 7
                            then some file_resume_request
                            else (if kind == 8 then some file_resume_response else none)))))))

-- `value = (value << 8) | p[i]`, `n` times.
unfoldable pub read_u64_loop : ℕ → ℕ → List ℕ → Option ℕ
read_u64_loop zero value xs = some value
read_u64_loop (suc n) value [] = none
read_u64_loop (suc n) value (x ∷ xs) = read_u64_loop n (value * 2 ^ 8 % 2 ^ 64 + x) xs

unfoldable pub read_u64 : List ℕ → Option ℕ
unfolding read_u64_loop
read_u64 xs = read_u64_loop 8 0 xs

unfoldable pub read_u32 : List ℕ → Option ℕ
read_u32 (a ∷ b ∷ c ∷ d ∷ r) = some (a * 2 ^ 24 + b * 2 ^ 16 + c * 2 ^ 8 + d)
read_u32 _ = none

unfoldable pub read_u16 : List ℕ → Option ℕ
read_u16 (a ∷ b ∷ r) = some (a * 2 ^ 8 + b)
read_u16 _ = none

-- `uint8_t(value >> (i * 8))` for i from n - 1 down to 0.
unfoldable pub put_u64_loop : ℕ → ℕ → List ℕ
put_u64_loop zero value = []
put_u64_loop (suc i) value = to_byte (value / 2 ^ (i * 8)) ∷ put_u64_loop i value

unfoldable pub put_u64 : ℕ → List ℕ
unfolding put_u64_loop
put_u64 value = put_u64_loop 8 value

pub record ClipboardData : Type 0 where
  pub format : ℕ
  pub content : List ℕ

-- `delivered` are the values that the callback has been called with, oldest first.
pub record Clipboard : Type 0 where
  pub last_data : ClipboardData
  pub has_callback : Bool
  pub delivered : List ClipboardData

unfoldable pub handle_clipboard : Clipboard → ℕ → List ℕ → Clipboard
handle_clipboard c format content =
    let value : ClipboardData = record { format = format; content = content } in
    record c {
      last_data = value;
      delivered = if c.has_callback then c.delivered ++ (value ∷ []) else c.delivered;
    }

module _ (fs : FileSystem) where
  -- `sent` are the frames that were handed to `TcpConnection::Send`, oldest first.
  pub record Connection : Type 0 where
    pub file_receiver : Receiver fs
    pub clipboard : Clipboard
    pub sent : List (List ℕ)

  unfoldable pub send_message : Connection → TransferMessage → Option (Bool × Connection)
  send_message c message =
      if ltb max_payload_size (length message.payload)
      then some (false, c)
      else (encode message >>= λ frame. some (true, record c { sent = c.sent ++ (frame ∷ []) }))

  abbrev pub reply_message : ℕ → ℕ → ℕ → List ℕ → TransferMessage
  reply_message kind flags request_id payload = record empty_message {
    header = record empty_message.header {
      version = protocol_version;
      kind = kind;
      flags = flags;
      request_id = request_id;
    };
    payload = payload;
  }

  unfoldable pub send_ack : Connection → ℕ → ℕ → Bool → Option Connection
  send_ack c request_id offset ok =
      send_message c (reply_message 5 (if ok then 0 else flag_error) request_id (put_u64 offset))
      >>= λ (done, c'). some c'

  unfoldable pub send_resume_response : Connection → ℕ → Bool → ℕ → Option Connection
  send_resume_response c request_id accepted offset =
      send_message c (reply_message 8 0 request_id ((if accepted then 1 else 0) ∷ put_u64 offset))
      >>= λ (done, c'). some c'

  -- The receiver's answer goes into an acknowledgement.
  unfoldable pub acknowledge : Connection → ℕ → Result × Receiver fs → Option (Bool × Connection)
  acknowledge c id (result, receiver) =
      send_ack (record c { file_receiver = receiver }) id result.offset result.ok >>= λ c'.
      some (true, c')

  unfoldable pub handle_clipboard_data : Connection → List ℕ → Option (Bool × Connection)
  handle_clipboard_data c [] = some (false, c)
  handle_clipboard_data c (format ∷ content) =
      some (true, record c { clipboard = handle_clipboard c.clipboard format content })

  unfoldable pub handle_file_begin : Connection → ℕ → List ℕ → Option (Bool × Connection)
  handle_file_begin c id p =
      if ltb (length p) 18
      then some (false, c)
      else (read_u16 (drop 16 p) >>= λ name_size.
          if name_size == 0 || not (length p == (18 + name_size)) then some (false, c) else (do
            name ← read_bytes name_size (drop 18 p)
            file_size ← read_u64 p
            chunk_size ← read_u32 (drop 8 p)
            checksum ← read_u32 (drop 12 p)
            acknowledge c id (begin fs c.file_receiver id file_size chunk_size checksum name)))

  unfoldable pub handle_file_chunk : Connection → ℕ → List ℕ → Option (Bool × Connection)
  handle_file_chunk c id p = if ltb (length p) 8 then some (false, c) else (do
    offset ← read_u64 p
    chunk ← read_bytes (length p - 8) (drop 8 p)
    acknowledge c id (write fs c.file_receiver id offset chunk))

  unfoldable pub handle_file_end : Connection → ℕ → List ℕ → Option (Bool × Connection)
  handle_file_end c id p = if not (length p == 4) then some (false, c) else (do
    checksum ← read_u32 p
    result ← finish fs c.file_receiver id checksum
    acknowledge c id result)

  unfoldable pub handle_file_cancel : Connection → ℕ → List ℕ → Option (Bool × Connection)
  handle_file_cancel c id p =
      if not (length p == 0)
      then some (false, c)
      else (send_ack (record c { file_receiver = cancel fs c.file_receiver id }) id 0 true >>= λ c'.
          some (true, c'))

  unfoldable pub handle_file_resume : Connection → ℕ → List ℕ → Option (Bool × Connection)
  handle_file_resume c id p =
      if ltb (length p) 14
      then some (false, c)
      else (read_u16 p >>= λ id_size.
          if id_size == 0 || not (length p == (14 + id_size)) then some (false, c) else (do
            file_id ← read_bytes id_size (drop 2 p)
            file_size ← read_u64 (drop (2 + id_size) p)
            checksum ← read_u32 (drop (10 + id_size) p)
            let result = resume fs c.file_receiver file_id file_size checksum
            send_resume_response c id result.ok result.offset >>= λ c'. some (true, c')))

  unfoldable pub dispatch :
      Connection → ℕ → List ℕ → Option MessageType → Option (Bool × Connection)
  dispatch c id p none = some (false, c)
  dispatch c id p (some clipboard_data) = handle_clipboard_data c p
  dispatch c id p (some file_begin) = handle_file_begin c id p
  dispatch c id p (some file_chunk) = handle_file_chunk c id p
  dispatch c id p (some file_end) = handle_file_end c id p
  dispatch c id p (some file_cancel) = handle_file_cancel c id p
  dispatch c id p (some file_resume_request) = handle_file_resume c id p
  dispatch c id p (some file_ack) = some (length p == 8, c)
  dispatch c id p (some file_resume_response) = some (length p == 9, c)

  unfoldable pub handle_message : Connection → TransferMessage → Option (Bool × Connection)
  unfolding dispatch
  handle_message c message =
      dispatch c message.header.request_id message.payload (message_type message.header.kind)

  -- The loop of `OnRead`. The fuel bounds its rounds.
  unfoldable pub on_read_loop :
      ℕ → Connection → BufferReader → Option (Bool × Connection × BufferReader)
  on_read_loop zero c buffer = none
  on_read_loop (suc fuel) c buffer =
      let again = λ (c' : Connection) (b' : BufferReader). on_read_loop fuel c' b' in
      if ltb (readable_bytes buffer) header_size
      then some (true, c, buffer)
      else (read_uint32_be (drop 8 (peek buffer)) >>= λ payload_size.
          if ltb max_payload_size payload_size
          then some (false, c, buffer)
          else (let message_size = header_size + payload_size in
              if ltb (readable_bytes buffer) message_size then some (true, c, buffer) else (do
                (decoded, message) ← decode (some (peek buffer)) message_size empty_message
                if not decoded
                    then some (false, c, buffer)
                    else (let buffer' = retrieve buffer message_size in
                        if not (message.header.version == protocol_version)
                        then some (false, c, buffer')
                        else (do
                          (handled, c') ← handle_message c message
                          elim handled [
                            | true ↦ again c' buffer'
                            | false ↦ some (false, c', buffer')
                          ])))))

  unfoldable pub on_read : Connection → BufferReader → Option (Bool × Connection × BufferReader)
  unfolding on_read_loop
  on_read c buffer = on_read_loop (suc (readable_bytes buffer)) c buffer
