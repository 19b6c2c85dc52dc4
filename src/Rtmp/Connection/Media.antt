-- ===== src/Rtmp/Connection/Media.antt =====
-- RtmpServer/RtmpConnection.cpp: the metadata and the media of a publisher.
use cloud_assitant.Prelude.{
  ℕ, ◌/◌, ◌%◌, none, some, Bool, true, false, ◌==◌, ◌&&◌, if◌then◌else◌, list_eq, drop, take, text,
}
use cloud_assitant.Net.Bytes.{read_uint8}
use cloud_assitant.Rtmp.Message.{RtmpMessage}
use cloud_assitant.Rtmp.Amf.Decoder.{AmfDecoder}
use cloud_assitant.Rtmp.Amf.Decoder
use cloud_assitant.Rtmp.World.{Header, Action, pure, ◌>>=◌, ◌>>◌, lift, this, put}
use cloud_assitant.Rtmp.Sink.{
  rtmp_audio, rtmp_video, rtmp_avc_sequence_header, rtmp_aac_sequence_header,
}
use cloud_assitant.Rtmp.Session.{
  set_avc_sequence_header, set_aac_sequence_header, send_meta_data, send_media_data,
}
use cloud_assitant.Rtmp.Connection.{lock_session, payload, decode_at}

-- The metadata after the name. The offset counts from the payload's start, without the bytes of the
-- method.
unfoldable pub read_meta_data : RtmpMessage → ℕ → AmfDecoder → ℕ → Action (Unit {0})
read_meta_data m used d i = do
  c ← this i
  if list_eq d.obj.string (text "onMetaData")
      then (do
        (_, d') ← decode_at m used none d
        put i (record c { amf_decoder = d'; meta_data = d'.objs }))
      else put i (record c { amf_decoder = d })

-- `HandleNotify`
unfoldable pub handle_notify : Bool → ℕ → RtmpMessage → Action Bool
unfolding Decoder.reset read_meta_data send_meta_data
handle_notify server i m = do
  c ← this i
  (used, d) ← decode_at m 0 (some 1) (Decoder.reset c.amf_decoder)
  put i (record c { amf_decoder = d })
  if list_eq d.obj.string (text "@setDataFrame")
      then (do
        (used', d') ← decode_at m used (some 1) (Decoder.reset d)
        read_meta_data m used' d' i
        if server
            then (do
              session ← lock_session i
              elim session [ none ↦ pure tt | some n ↦ send_meta_data n ]
              pure true)
            else pure false)
      else pure true

-- `playload[at]`
abbrev pub byte_at : RtmpMessage → ℕ → Action ℕ
byte_at m at = payload m >>= λ p. lift (read_uint8 (drop at p))

-- The bytes that a message hands on, and their copy.
abbrev pub bytes_of : RtmpMessage → Header
bytes_of m = record { bytes = m.playload; size = m.lenght }

abbrev pub copy_of : RtmpMessage → Action Header
copy_of m = payload m >>= λ p. pure (record { bytes = some (take m.lenght p); size = m.lenght })

-- Whether the first byte of an audio message tells AAC, and of a video message an H264 key frame.
abbrev pub is_aac : ℕ → Bool
is_aac b = b / 16 % 16 == 10

abbrev pub is_h264_key : ℕ → Bool
is_h264_key b = b / 16 % 16 == 1 && b % 16 == 7

-- An AAC sequence header is kept by the connection and by the session.
unfoldable pub audio_type : ℕ → ℕ → RtmpMessage → ℕ → Action ℕ
unfolding set_aac_sequence_header read_uint8
audio_type i n m first =
    if is_aac first
    then (do
      packet ← byte_at m 1
      if packet == 0
          then (do
            h ← copy_of m
            c ← this i
            put i (record c { aac_sequence_header = h })
            set_aac_sequence_header n h
            pure rtmp_aac_sequence_header)
          else pure rtmp_audio)
    else pure rtmp_audio

-- `HandleAudio`
unfoldable pub handle_audio : Bool → ℕ → RtmpMessage → Action Bool
unfolding audio_type send_media_data
handle_audio server i m = do
  first ← byte_at m 0
  if server
      then (do
        session ← lock_session i
        elim session [
          | none ↦ pure false
          | some n ↦ do
            kind ← audio_type i n m first
            send_media_data n kind m.timestamp (bytes_of m)
            pure true
        ])
      else pure false

-- The same for an AVC sequence header.
unfoldable pub video_type : ℕ → ℕ → RtmpMessage → ℕ → Action ℕ
unfolding set_avc_sequence_header read_uint8
video_type i n m first =
    if is_h264_key first
    then (do
      packet ← byte_at m 1
      if packet == 0
          then (do
            h ← copy_of m
            c ← this i
            put i (record c { avc_sequence_header = h })
            set_avc_sequence_header n h
            pure rtmp_avc_sequence_header)
          else pure rtmp_video)
    else pure rtmp_video

-- `HandleVideo`
unfoldable pub handle_video : Bool → ℕ → RtmpMessage → Action Bool
unfolding video_type send_media_data
handle_video server i m = do
  first ← byte_at m 0
  if server
      then (do
        session ← lock_session i
        elim session [
          | none ↦ pure false
          | some n ↦ do
            kind ← video_type i n m first
            send_media_data n kind m.timestamp (bytes_of m)
            pure true
        ])
      else pure false
