-- ===== src/Rtmp/Connection/Play.antt =====
-- RtmpServer/RtmpConnection.cpp: the commands `play` and `DeleteStream`, and `HandleInvoke`.
use cloud_assitant.Prelude.{
  ℕ, ◌+◌, List, [], ◌∷◌, ◌++◌, Option, none, some, Bool, true, false, ltb, ◌==◌, not, if◌then◌else◌,
  list_eq, text,
}
use cloud_assitant.Rtmp.Message.{RtmpMessage}
use cloud_assitant.Rtmp.Chunk.{clear_messages}
use cloud_assitant.Rtmp.Amf.Decoder.{AmfDecoder}
use cloud_assitant.Rtmp.Amf.Decoder
use cloud_assitant.Rtmp.Amf.Encoder.{encode_string, encode_boolean}
use cloud_assitant.Rtmp.Amf.Encoder
use cloud_assitant.Rtmp.World.{
  start_play, RtmpConnection, Action, pure, ◌>>=◌, ◌>>◌, this, put, gets, modify,
}
use cloud_assitant.Rtmp.Sink.{send_notify_message, encode}
use cloud_assitant.Rtmp.Session.{find_session, add_sink, remove_sink}
use cloud_assitant.Rtmp.Server.{get_session, notify_event}
use cloud_assitant.Rtmp.Connection.{
  lock_session, decode_at, status, send_status, handle_connect, handle_create_stream,
  handle_publish,
}

-- The end of `HandlePlay`, once its three messages are sent.
unfoldable pub start_playing : ℕ → Action Bool
unfolding get_session add_sink notify_event
start_playing i = do
  c ← this i
  n ← get_session c.stream_path
  put i (record c { state = start_play; session = some n })
  session ← lock_session i
  elim session [ none ↦ pure tt | some m ↦ add_sink m i ]
  notify_event (text "Play.start") c.stream_path
  pure true

-- `HandlePlay`
unfoldable pub handle_play : (ℕ → List ℕ) → Bool → ℕ → Action Bool
unfolding Encoder.reset start_playing
handle_play double false i = pure false
handle_play double true i = do
  reset ← send_status double i (
      status (text "status") (text "NetStream.Play.Reset") (text "Resetting ond playing stream.")
      ∷ [])
  if not reset then pure false else (do
    started ←
        send_status double i
          (status (text "status") (text "NetStream.Play.Start") (text "Started playing.") ∷ [])
    if not started then pure false else (do
      encode i (λ e. encode_string (Encoder.reset e) (text "|RtmpSampleAccess") true)
      encode i (λ e. encode_boolean e true)
      encode i (λ e. encode_boolean e true)
      granted ← send_notify_message i 6
      if not granted then pure false else start_playing i))

-- The task that is to take the connection out of the session, and the event.
unfoldable pub leave_session : ℕ → RtmpConnection → Option ℕ → Action (Unit {0})
unfolding notify_event
leave_session i c none = pure tt
leave_session i c (some n) = do
  modify (λ w. record w { removals = w.removals ++ ((n, i) ∷ []) })
  if c.is_publishing
      then notify_event (text "publish,stop") c.stream_path
      else (if c.is_playing then notify_event (text "play.stop") c.stream_path else pure tt)

-- `HandleDeleteStream`
unfoldable pub handle_delete_stream : Bool → ℕ → Action Bool
unfolding leave_session clear_messages
handle_delete_stream false i = pure false
handle_delete_stream true i = do
  c ← this i
  if list_eq c.stream_path [] then pure true else (do
    session ← lock_session i
    leave_session i c session
    put i (record c {
      is_playing = false;
      is_publishing = false;
      has_key_frame = false;
      rtmp_chunk = clear_messages c.rtmp_chunk;
    })
    pure true)

-- The oldest removal: its timer fires. A session that the server has dropped by then is not in the
-- state any more.
unfoldable pub fire_removal : List (ℕ × ℕ) → Action (Unit {0})
unfolding remove_sink
fire_removal [] = pure tt
fire_removal ((n, i) ∷ later) = do
  modify (λ w. record w { removals = later })
  session ← gets (λ w. find_session n w.sessions)
  elim session [ none ↦ pure tt | some _ ↦ remove_sink n i ]

-- The commands on the message stream 0.
unfoldable pub connection_command : (ℕ → List ℕ) → List ℕ → ℕ → Action Bool
unfolding handle_connect handle_create_stream
connection_command double method i =
    if list_eq method (text "connect")
    then handle_connect double i
    else (if list_eq method (text "createStream") then handle_create_stream double i else pure true)

-- The commands on the connection's own message stream.
unfoldable pub stream_command : (ℕ → List ℕ) → Bool → List ℕ → ℕ → Action Bool
unfolding handle_publish handle_play handle_delete_stream
stream_command double server method i =
    if list_eq method (text "publish")
    then handle_publish double server i
    else (if list_eq method (text "play")
        then handle_play double server i
        else (if list_eq method (text "DeleteStream")
            then handle_delete_stream server i
            else pure true))

-- `HandleInvoke`
unfoldable pub handle_invoke : (ℕ → List ℕ) → Bool → ℕ → RtmpMessage → Action Bool
unfolding Decoder.reset connection_command stream_command
handle_invoke double server i m = do
  c ← this i
  (used, d) ← decode_at m 0 (some 1) (Decoder.reset c.amf_decoder)
  let method = d.obj.string
  put i (record c { amf_decoder = d })
  if m.stream_id == 0
      then (do
        (_, d') ← decode_at m used none d
        put i (record c { amf_decoder = d' })
        connection_command double method i)
      else (if m.stream_id == c.stream_id
          then (do
            (used', d') ← decode_at m used (some 3) d
            (_, d'') ←
                (if ltb (used + used') m.lenght
                  then decode_at m (used + used') none d'
                  else pure (0, d'))
            put i (record c {
              amf_decoder = d'';
              stream_name = d'.obj.string;
              stream_path = text "/" ++ (c.app ++ (text "/" ++ d'.obj.string));
            })
            stream_command double server method i)
          else pure true)
