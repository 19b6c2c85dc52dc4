-- ===== src/Rtmp/Sink.antt =====
-- How a connection of RtmpServer/RtmpConnection.cpp sends: control messages, replies, metadata and
-- media.
pub mod Bounds
pub mod Media
use cloud_assitant.Prelude.{
  ℕ, ◌+◌, ◌*◌, ◌/◌, ◌%◌, ◌^◌, List, [], ◌∷◌, ◌++◌, Option, none, some, Bool, true, false, ltb, ◌==◌,
  ◌&&◌, ◌||◌, not, if◌then◌else◌, length, text,
}
use cloud_assitant.Net.Bytes.{read_uint8, write_uint32_be}
use cloud_assitant.Rtmp.Message.{RtmpMessage, no_message}
use cloud_assitant.Rtmp.Chunk.{set_out_chunk_size}
use cloud_assitant.Rtmp.Chunk.Create.{create_chunk}
use cloud_assitant.Rtmp.Amf.Encoder.{AmfEncoder, encode_string, encode_ecma}
use cloud_assitant.Rtmp.Amf.Encoder
use cloud_assitant.Rtmp.World.{
  RtmpConnection, Header, World, Action, pure, fault, ◌>>=◌, ◌>>◌, lift, this, put, modify,
}

abbrev pub rtmp_set_chunk_size : ℕ
rtmp_set_chunk_size = 0x1

abbrev pub rtmp_ack_size : ℕ
rtmp_ack_size = 0x5

abbrev pub rtmp_bandwidth_size : ℕ
rtmp_bandwidth_size = 0x6

abbrev pub rtmp_audio : ℕ
rtmp_audio = 0x8

abbrev pub rtmp_video : ℕ
rtmp_video = 0x9

abbrev pub rtmp_notify : ℕ
rtmp_notify = 0x12

abbrev pub rtmp_invoke : ℕ
rtmp_invoke = 0x14

abbrev pub rtmp_avc_sequence_header : ℕ
rtmp_avc_sequence_header = 0x18

abbrev pub rtmp_aac_sequence_header : ℕ
rtmp_aac_sequence_header = 0x19

-- `TcpConnection::Send`.
unfoldable pub send : ℕ → List ℕ → Action (Unit {0})
send i bytes = do
  c ← this i
  if c.is_closed then pure tt else modify (λ w. record w { sent = w.sent ++ ((i, bytes) ∷ []) })

-- The size of the buffer for the chunks.
abbrev pub chunk_capacity : RtmpConnection → RtmpMessage → ℕ
chunk_capacity c m = (m.lenght + m.lenght / c.max_chunk_size * 5 + 1024) % 2 ^ 32

-- What follows `CreateChunk`; more bytes than the buffer holds are a store past its end.
unfoldable pub send_created : ℕ → ℕ → Option (List ℕ × RtmpMessage) → Action (Unit {0})
unfolding send
send_created i capacity none = pure tt
send_created i capacity (some (bytes, m)) =
    if ltb capacity (length bytes)
    then fault
    else (if ltb 0 (length bytes) then send i bytes else pure tt)

unfoldable pub send_rtmp_chunks : ℕ → ℕ → RtmpMessage → Action (Unit {0})
send_rtmp_chunks i csid m = do
  c ← this i
  if c.max_chunk_size == 0 then fault else (do
    r ← lift (create_chunk c.rtmp_chunk.out_chunk_size csid m (chunk_capacity c m))
    send_created i (chunk_capacity c m) r)

-- A control message: its type and its bytes.
unfoldable pub send_control : ℕ → ℕ → List ℕ → Action (Unit {0})
send_control i type_id bytes =
    send_rtmp_chunks i 2
      (record no_message { type_id = type_id; playload = some bytes; lenght = length bytes })

unfoldable pub set_peer_bandwidth : ℕ → Action (Unit {0})
unfolding write_uint32_be
set_peer_bandwidth i = do
  c ← this i
  send_control i rtmp_bandwidth_size (write_uint32_be c.peer_width ++ (2 ∷ []))

unfoldable pub send_acknowledgement : ℕ → Action (Unit {0})
unfolding write_uint32_be
send_acknowledgement i = do
  c ← this i
  send_control i rtmp_ack_size (write_uint32_be c.acknowledgement_size)

unfoldable pub set_chunk_size : ℕ → Action (Unit {0})
unfolding write_uint32_be set_out_chunk_size
set_chunk_size i = do
  c ← this i
  put i (record c { rtmp_chunk = set_out_chunk_size c.rtmp_chunk c.max_chunk_size })
  send_control i rtmp_set_chunk_size (write_uint32_be c.max_chunk_size)

-- `SendInvokeMessage` and `SendNotifyMessage`, which differ in the type of the message. The payload is
-- what the encoder has written.
unfoldable pub send_command : ℕ → ℕ → ℕ → Action Bool
send_command i type_id csid = do
  c ← this i
  if c.is_closed then pure false else (do
    send_rtmp_chunks i csid (record no_message {
      type_id = type_id;
      stream_id = c.stream_id;
      playload = some c.amf_encoder.written;
      lenght = length c.amf_encoder.written;
    })
    pure true)

abbrev pub send_invoke_message : ℕ → ℕ → Action Bool
send_invoke_message i csid = send_command i rtmp_invoke csid

abbrev pub send_notify_message : ℕ → ℕ → Action Bool
send_notify_message i csid = send_command i rtmp_notify csid

-- The next use of the encoder.
abbrev pub encode : ℕ → (AmfEncoder → Option AmfEncoder) → Action (Unit {0})
encode i f = do c ← this i; e ← lift (f c.amf_encoder); put i (record c { amf_encoder = e })

-- `SendMetaData` sends the receiver's own metadata, not its argument.
unfoldable pub send_meta_data : ℕ → Action Bool
unfolding Encoder.reset
send_meta_data i = do
  c ← this i
  if c.is_closed
      then pure false
      else (if elim c.meta_data [ [] ↦ true | _ ∷ _ ↦ false ] then pure false else (do
        encode i (λ e. encode_string (Encoder.reset e) (text "onMetaData") true)
        encode i (λ e. encode_ecma e c.meta_data)
        send_notify_message i 6))

-- `IsKeyFrame`; `none` is a read through a null pointer or past the payload.
unfoldable pub is_key_frame : Option (List ℕ) → Option Bool
is_key_frame none = none
is_key_frame (some []) = none
is_key_frame (some (b ∷ _)) = some (b / 16 % 16 == 1 && b % 16 == 7)

-- The message of `SendMediaData` for a type, and its chunk stream; other types are not sent.
unfoldable pub media_stream : ℕ → Option (ℕ × ℕ)
media_stream kind =
    if kind == rtmp_video || kind == rtmp_avc_sequence_header
    then some (rtmp_video, 5)
    else (if kind == rtmp_audio || kind == rtmp_aac_sequence_header
        then some (rtmp_audio, 4)
        else none)

abbrev pub is_header : ℕ → Bool
is_header kind = kind == rtmp_avc_sequence_header || kind == rtmp_aac_sequence_header

-- The sequence headers that a connection keeps.
unfoldable pub keep_header : ℕ → Header → RtmpConnection → RtmpConnection
keep_header kind h c =
    if kind == rtmp_avc_sequence_header
    then record c { avc_sequence_header = h }
    else (if kind == rtmp_aac_sequence_header then record c { aac_sequence_header = h } else c)

-- The end of `SendMediaData`.
unfoldable pub send_media_message : ℕ → ℕ → ℕ → Header → Action Bool
unfolding media_stream
send_media_message i kind timestamp h = do
  c ← this i
  elim (media_stream kind) [
    | none ↦ pure true
    | some (type_id, csid) ↦ do
      send_rtmp_chunks i csid (record no_message {
        type_id = type_id;
        clock = timestamp;
        stream_id = c.stream_id;
        playload = h.bytes;
        lenght = h.size;
      })
      pure true
  ]

-- Whether a connection waits for a key frame: once there is a video header, nothing is sent before.
abbrev pub waits : RtmpConnection → ℕ → Bool
waits c kind = not c.has_key_frame && (ltb 0 c.avc_sequence_header.size && not (is_header kind))

-- `SendMediaData` from the test for a key frame on, with the connection as it is then.
unfoldable pub send_playing : ℕ → ℕ → ℕ → Header → RtmpConnection → Action Bool
unfolding is_key_frame send_media_message
send_playing i kind timestamp h c = do
  put i c
  if waits c kind
      then (do
        key ← lift (is_key_frame h.bytes)
        if key
            then (do
              put i (record c { has_key_frame = true })
              send_media_message i kind timestamp h)
            else pure true)
      else send_media_message i kind timestamp h

-- `SendMediaData`
unfoldable pub send_media_data : ℕ → ℕ → ℕ → Header → Action Bool
unfolding keep_header send_playing
send_media_data i kind timestamp h = do
  c ← this i
  if c.is_closed
      then pure false
      else (if h.size == 0
          then pure false
          else send_playing i kind timestamp h
              (keep_header kind h (record c { is_playing = true })))
