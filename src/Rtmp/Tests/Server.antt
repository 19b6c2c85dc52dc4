-- ===== src/Rtmp/Tests/Server.antt =====
-- Runs of the models of RtmpServer/RtmpConnection.cpp and RtmpServer/RtmpSession.cpp.
use cloud_assitant.Prelude.{
  drop, ℕ, ◌≡◌, ◌≢◌, refl, List, [], ◌∷◌, none, some, true, false, ◌==◌, if◌then◌else◌, list_eq,
  arith,
}
use cloud_assitant.Net.BufferReader.{BufferReader}
use cloud_assitant.Net.BufferReader.Stream.{IsValid}
use cloud_assitant.Rtmp.Message.{RtmpMessage, no_message}
use cloud_assitant.Rtmp.Chunk.{RtmpChunk, parse_header}
use cloud_assitant.Rtmp.Handshake.{Random, handshake_complete}
use cloud_assitant.Rtmp.Amf.Decoder.{new_decoder, decode, decode_by}
use cloud_assitant.Rtmp.Amf.Encoder
use cloud_assitant.Rtmp.World.{
  start_play, start_publish, Header, no_header, RtmpConnection, RtmpSession, World,
}
use cloud_assitant.Rtmp.Sink.{
  rtmp_video, rtmp_audio, rtmp_avc_sequence_header, rtmp_aac_sequence_header, chunk_capacity,
  media_stream, is_key_frame,
}
use cloud_assitant.Rtmp.Sink
use cloud_assitant.Rtmp.Sink.Bounds.{Agrees}
use cloud_assitant.Rtmp.Sink.Media.{
  Playable, Chunks, IsMedia, FrameSent, with_sent, send_media_data-waits,
}
use cloud_assitant.Rtmp.Session.{send_to_player, find_session}
use cloud_assitant.Rtmp.Session.Players.{send_to_player-fresh}
use cloud_assitant.Rtmp.Server.{number_of, has_publisher}
use cloud_assitant.Rtmp.Connection.Play.{handle_delete_stream, fire_removal}
use cloud_assitant.Rtmp.Connection.Read.{on_read}
use cloud_assitant.Rtmp.Connection.Ends.{on_read-ends}
use cloud_assitant.Rtmp.Connection.Taken.{delete_stream-taken}

abbrev chunk : RtmpChunk
chunk = record {
  state = parse_header;
  chunk_stream_id = none;
  in_chunk_size = 128;
  out_chunk_size = 128;
  messages = [];
}

-- A connection that plays `/a/b` and has been sent nothing.
abbrev player : RtmpConnection
player = record {
  socket = 7;
  is_closed = false;
  state = start_play;
  handshake = handshake_complete;
  rtmp_chunk = chunk;
  session = some 0;
  peer_width = 5000000;
  acknowledgement_size = 5000000;
  max_chunk_size = 128;
  stream_id = 1;
  meta_data = [];
  amf_decoder = new_decoder;
  amf_encoder = Encoder.init 1024;
  is_playing = false;
  is_publishing = false;
  app = b'a' ∷ [];
  stream_name = b'b' ∷ [];
  stream_path = b'/' ∷ b'a' ∷ b'/' ∷ b'b' ∷ [];
  has_key_frame = false;
  avc_sequence_header = no_header;
  aac_sequence_header = no_header;
}

abbrev header : Header
header = record { bytes = some (0x17 ∷ 0 ∷ 9 ∷ []); size = 3 }

abbrev inter_frame : Header
inter_frame = record { bytes = some (0x27 ∷ 1 ∷ 5 ∷ 5 ∷ []); size = 4 }

abbrev key_frame : Header
key_frame = record { bytes = some (0x17 ∷ 1 ∷ 5 ∷ 5 ∷ []); size = 4 }

abbrev session : RtmpSession
session = record {
  has_publisher = true;
  publisher = some 5;
  rtmp_sinks = (7, 5) ∷ [];
  avc_sequence_header = header;
  aac_sequence_header = header;
}

-- A server with one connection, of number 5.
abbrev server : RtmpConnection → World
server c = record {
  connections = λ j. if j == 5 then some c else none;
  sessions = record { path = player.stream_path; number = 0; session = session } ∷ [];
  next_session = 1;
  stream_id = 2;
  sent = [];
  events = [];
  removals = [];
}

player-Agrees : Agrees player
player-Agrees = (refl, omega arith)

abbrev frame_message : RtmpMessage
frame_message = record no_message { type_id = 9; lenght = 3; playload = header.bytes }

header-Playable : Playable header
header-Playable = (0x17 ∷ 0 ∷ 9 ∷ [], refl, omega arith, omega arith, omega arith)

video-IsMedia : IsMedia rtmp_video
unfolding media_stream
video-IsMedia = (rtmp_video, 5, refl, omega arith)

-- A player that has the video header and waits for a key frame.
abbrev waiting : RtmpConnection
waiting = record player { is_playing = true; avc_sequence_header = header }

send_media_data-waits_example :
    (w' : World) × (Sink.send_media_data 5 rtmp_video 40 inter_frame (server waiting)
      ≡ some (true, w'))
    × (w'.connections 5 ≡ some waiting)
    × (w'.sent ≡ [])
unfolding is_key_frame
send_media_data-waits_example =
    send_media_data-waits (server waiting) 5 waiting rtmp_video 40 inter_frame false refl refl
      player-Agrees refl (omega arith) video-IsMedia refl
      (0x27 ∷ 1 ∷ 5 ∷ 5 ∷ [], refl, omega arith, omega arith, omega arith) refl

send_to_player-fresh_example :
    (audio video : List ℕ) × (w' : World) × (send_to_player session rtmp_video 40 key_frame 5 player
        (server player)
      ≡ some (true, w'))
    × Chunks player rtmp_aac_sequence_header 40 header audio
    × Chunks player rtmp_avc_sequence_header 40 header video
    × FrameSent true
        (with_sent (with_sent (server player) 5 audio) 5 video)
        w'
        5
        player
        rtmp_video
        40
        key_frame
unfolding is_key_frame
send_to_player-fresh_example =
    send_to_player-fresh (server player) 5 player session rtmp_video 40 key_frame true refl refl
      player-Agrees refl refl header-Playable header-Playable video-IsMedia refl
      (0x17 ∷ 1 ∷ 5 ∷ 5 ∷ [], refl, omega arith, omega arith, omega arith) refl

-- Seven bytes of a message's header.
abbrev half_header : BufferReader
half_header = record { buffer = 3 ∷ 0 ∷ 0 ∷ 0 ∷ 0 ∷ 0 ∷ 4 ∷ []; reader_index = 0; writer_index = 7 }

half_header-IsValid : IsValid half_header
half_header-IsValid = record { ordered = omega arith; within = omega arith; bounded = omega arith }

abbrev eight_zeros : ℕ → List ℕ
eight_zeros n = 0 ∷ 0 ∷ 0 ∷ 0 ∷ 0 ∷ 0 ∷ 0 ∷ 0 ∷ []

abbrev zeros : Random
zeros n = 0

on_read-ends_example :
    (on_read eight_zeros true zeros 5 half_header (server player) ≢ some (none, server player))
    × (decode_by
          (some (1, []))
          (some (2, new_decoder))
          5
          (drop 1 half_header.buffer)
          3
          none
          new_decoder
        ≡ decode 5 (drop 1 half_header.buffer) 3 none new_decoder)
on_read-ends_example =
    on_read-ends eight_zeros true zeros 5 half_header (server player) (server player)
      (record no_message { lenght = 4 }) half_header.buffer 1 none new_decoder (some (1, []))
      (some (2, new_decoder)) half_header-IsValid

abbrev publishing : RtmpConnection
publishing = record player { state = start_publish; is_publishing = true }

delete_stream-taken_example :
    (w' w'' : World) × (handle_delete_stream true 5 (server publishing) ≡ some (true, w'))
    × (fire_removal w'.removals w' ≡ some (tt, w''))
    × (has_publisher player.stream_path w'' ≡ some (true, w''))
unfolding find_session number_of list_eq
delete_stream-taken_example =
    delete_stream-taken (server publishing) 5 0 publishing session refl refl (λ e. cc) refl refl
      refl refl
