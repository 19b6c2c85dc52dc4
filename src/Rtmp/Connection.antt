-- ===== src/Rtmp/Connection.antt =====
-- RtmpServer/RtmpConnection.cpp: the constructors and the commands `connect`, `createStream` and
-- `publish`. `Connection.Play` is the rest of the commands, `Connection.Media` the media and
-- `Connection.Read` what `OnRead` does. `double` is the compiler's conversion of an integer to the
-- eight bytes of a `double`; the flag of a command says whether the server is still there.
pub mod Play
pub mod Media
pub mod Read
pub mod Ends
pub mod Taken
use cloud_assitant.Prelude.{
  ℕ, zero, suc, ◌+◌, ◌-◌, ◌/◌, ◌%◌, List, [], ◌∷◌, ◌++◌, Option, none, some, Bool, true, false, ltb,
  ◌==◌, ◌&&◌, not, if◌then◌else◌, list_eq, length, drop, take, read_bytes, text,
}
use cloud_assitant.Net.Bytes.{read_uint32_be}
use cloud_assitant.Net.BufferReader.{BufferReader, IoResult, count, failed, readable_bytes}
use cloud_assitant.Rtmp.Message.{RtmpMessage, is_completed}
use cloud_assitant.Rtmp.Chunk.{RtmpChunk, set_in_chunk_size, clear_messages}
use cloud_assitant.Rtmp.Chunk
use cloud_assitant.Rtmp.Chunk.Parse.{Outcome, used, bad}
use cloud_assitant.Rtmp.Chunk.Parse
use cloud_assitant.Rtmp.Handshake
use cloud_assitant.Rtmp.Handshake.{Random, handshake_c0c1}
use cloud_assitant.Rtmp.Amf.{AmfObject, new_object, amf_number, amf_string, AmfObjects, find}
use cloud_assitant.Rtmp.Amf.Decoder.{AmfDecoder, new_decoder}
use cloud_assitant.Rtmp.Amf.Decoder
use cloud_assitant.Rtmp.Amf.Encoder.{
  AmfEncoder, encode_string, encode_number, encode_boolean, encode_objects,
}
use cloud_assitant.Rtmp.Amf.Encoder
use cloud_assitant.Rtmp.World.{
  Name, ConnectionState, handshaking, start_play, start_publish, Header, no_header, RtmpConnection,
  World, Action, pure, fault, ◌>>=◌, ◌>>◌, lift, this, put, gets, modify,
}
use cloud_assitant.Rtmp.Sink.{
  rtmp_set_chunk_size, rtmp_audio, rtmp_video, rtmp_notify, rtmp_invoke, rtmp_avc_sequence_header,
  rtmp_aac_sequence_header, send, set_peer_bandwidth, send_acknowledgement, set_chunk_size,
  send_invoke_message, send_notify_message, encode,
}
use cloud_assitant.Rtmp.Session.{
  find_session, set_avc_sequence_header, set_aac_sequence_header, add_sink, remove_sink,
  send_meta_data, send_media_data, is_publisher,
}
use cloud_assitant.Rtmp.Server.{Rtmp, add_session, get_session, has_publisher, notify_event}

-- The constructors, with the counter that all `RtmpChunk` share.
unfoldable pub init : Rtmp → ℕ → ℕ → RtmpConnection × ℕ
unfolding Chunk.init
init rtmp socket stream_id =
    let (chunk, stream_id') = Chunk.init stream_id in
    (
      record {
        socket = socket;
        is_closed = false;
        state = handshaking;
        handshake = handshake_c0c1;
        rtmp_chunk = chunk;
        session = none;
        peer_width = rtmp.peer_bandwidth;
        acknowledgement_size = rtmp.acknowledgement_size;
        max_chunk_size = rtmp.max_chunk_size;
        stream_id = 0;
        meta_data = [];
        amf_decoder = new_decoder;
        amf_encoder = Encoder.init 1024;
        is_playing = false;
        is_publishing = false;
        app = rtmp.app;
        stream_name = rtmp.stream_name;
        stream_path = rtmp.stream_path;
        has_key_frame = false;
        avc_sequence_header = no_header;
        aac_sequence_header = no_header;
      },
      stream_id',
    )

-- `rtmp_session_.lock()`
abbrev pub lock_session : ℕ → Action (Option ℕ)
lock_session i = do
  c ← this i
  gets (λ w. elim c.session [
    | none ↦ none
    | some n ↦ elim (find_session n w.sessions) [ none ↦ none | some _ ↦ some n ]
  ])

-- The payload of a message; `none` is a null pointer.
abbrev pub payload : RtmpMessage → Action (List ℕ)
payload m = lift m.playload

-- Objects nest less deep than a message is long.
abbrev pub decode_at : RtmpMessage → ℕ → Option ℕ → AmfDecoder → Action (ℕ × AmfDecoder)
decode_at m at n d = do
  p ← payload m
  lift (Decoder.decode (suc m.lenght) (drop at p) (m.lenght - at) n d)

-- A text of a status object.
abbrev pub status : Name → Name → Name → AmfObjects
status level code description =
    (text "level", record new_object { kind = amf_string; string = level })
    ∷ (text "code", record new_object { kind = amf_string; string = code })
    ∷ (text "description", record new_object { kind = amf_string; string = description })
    ∷ []

module _ (double : ℕ → List ℕ) where
  abbrev pub number_object : ℕ → AmfObject
  number_object n = record new_object { kind = amf_number; number = double n }

  -- `HandleConnect`
  unfoldable pub handle_connect : ℕ → Action Bool
  unfolding find send_acknowledgement set_peer_bandwidth set_chunk_size Encoder.reset
  handle_connect i = do
    c ← this i
    elim (find (text "app") c.amf_decoder.objs) [
      | none ↦ pure false
      | some o ↦ do
        put i (record c { app = o.string })
        if list_eq o.string [] then pure false else (do
          send_acknowledgement i
          set_peer_bandwidth i
          set_chunk_size i
          encode i (λ e. encode_string (Encoder.reset e) (text "_result") true)
          encode i (λ e. encode_number e c.amf_decoder.obj.number)
          encode i (λ e. encode_objects e (
              (
                text "fmsVer",
                record new_object { kind = amf_string; string = text "FMS/4,5,0,297" },
              )
              ∷ (text "capabilities", number_object 255)
              ∷ (text "mode", number_object 1)
              ∷ []))
          encode i (λ e. encode_objects e (
              status (text "status") (text "NetConnection.Connect.Success")
                (text "Connection succeeded")
              ++ ((text "objectEncoding", number_object 0) ∷ [])))
          send_invoke_message i 3
          pure true)
    ]

  -- `HandleCreateStream`
  unfoldable pub handle_create_stream : ℕ → Action Bool
  unfolding Encoder.reset
  handle_create_stream i = do
    c ← this i
    stream_id ← gets (λ w. w.stream_id)
    encode i (λ e. encode_string (Encoder.reset e) (text "_result") true)
    encode i (λ e. encode_number e c.amf_decoder.obj.number)
    encode i (λ e. encode_objects e [])
    encode i (λ e. encode_number e (double stream_id))
    send_invoke_message i 3
    c' ← this i
    put i (record c' { stream_id = stream_id })
    pure true

  -- "onStatus", the number 0 and what follows, as one command.
  abbrev pub send_status : ℕ → List AmfObjects → Action Bool
  send_status i objects = do
    encode i (λ e. encode_string (Encoder.reset e) (text "onStatus") true)
    encode i (λ e. encode_number e (double 0))
    encode_all objects
    send_invoke_message i 3
    where
      encode_all : List AmfObjects → Action (Unit {0})
      encode_all [] = pure tt
      encode_all (o ∷ os) = encode i (λ e. encode_objects e o) >> encode_all os

  -- The reply of `HandlePublish` to a stream that cannot be published.
  abbrev pub refuse_publish : ℕ → Name → Action Bool
  refuse_publish i code = do
    send_status i ([] ∷ status (text "error") code (text "Stream already publishing.") ∷ [])
    pure false

  -- `HandlePublish`. Its encoder is reset and begun before the test, and nothing else uses it between.
  unfoldable pub handle_publish : Bool → ℕ → Action Bool
  unfolding has_publisher add_session get_session notify_event add_sink Encoder.reset
  handle_publish false i = pure false
  handle_publish true i = do
    c ← this i
    taken ← has_publisher c.stream_path
    if taken
        then refuse_publish i (text "NetStream.Publish.BadName")
        else (if is_publisher c.state
            then refuse_publish i (text "NetStream.Publish.BadConnection")
            else (do
              modify (add_session c.stream_path)
              n ← get_session c.stream_path
              put i (record c { session = some n })
              notify_event (text "publish.start") c.stream_path
              send_status i (
                  []
                  ∷ status (text "status") (text "NetStream.Publish.Start")
                      (text "Start publishing.")
                  ∷ [])
              c' ← this i
              put i (record c' { state = start_publish; is_publishing = true })
              session ← lock_session i
              elim session [ none ↦ pure true | some m ↦ add_sink m i >> pure true ]))
