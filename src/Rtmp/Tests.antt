-- ===== src/Rtmp/Tests.antt =====
-- Runs of the models of the directory RtmpServer.
mod Server
mod Urls
use cloud_assitant.Prelude.{ℕ, List, [], ◌∷◌, ◌++◌, none, some, ◌≡◌, refl, arith}
use cloud_assitant.Net.BufferReader.{BufferReader}
use cloud_assitant.Net.BufferReader.Stream.{IsValid, unread}
use cloud_assitant.Rtmp.Message.{RtmpMessage, no_message}
use cloud_assitant.Rtmp.Chunk.{RtmpChunk, parse_header, message_at}
use cloud_assitant.Rtmp.Chunk.Parse.{basic_header}
use cloud_assitant.Rtmp.Chunk.Create.{create_chunk, create_basic_header}
use cloud_assitant.Rtmp.Chunk.Headers.{Fits, IsSized, basic_header-create}
use cloud_assitant.Rtmp.Chunk.RoundTrip.{Receives, parse-create}
use cloud_assitant.Net.BufferReader.{count, retrieve}
use cloud_assitant.Rtmp.Handshake.{
  handshake_c0c1, handshake_s0s1s2, handshake_c2, handshake_complete, Random, build_c0c1,
}
use cloud_assitant.Rtmp.Handshake
use cloud_assitant.Rtmp.Handshake.Exchange.{c1_of, exchange}
use cloud_assitant.Rtmp.Amf.{AmfObject, new_object, amf_string}
use cloud_assitant.Rtmp.Amf.Encoder.{AmfEncoder}
use cloud_assitant.Rtmp.Amf.RoundTrip

-- A parser that has seen nothing, with chunks of two bytes.
abbrev small_chunks : RtmpChunk
small_chunks = record {
  state = parse_header;
  chunk_stream_id = none;
  in_chunk_size = 2;
  out_chunk_size = 2;
  messages = [];
}

abbrev five_bytes : List ℕ
five_bytes = 11 ∷ 22 ∷ 33 ∷ 44 ∷ 55 ∷ []

abbrev video : RtmpMessage
video = record no_message {
  lenght = 5;
  type_id = 9;
  stream_id = 1;
  clock = 40;
  playload = some five_bytes;
}

video-Fits : Fits video
video-Fits = record {
  lenght = omega arith;
  type_id = omega arith;
  stream_id = omega arith;
  clock = omega arith;
}

no_message-IsSized : IsSized no_message
no_message-IsSized p e = cc

parse-create_example :
    (bytes : List ℕ) × (create_chunk 2 4 video 100
      ≡ some (some (bytes, record video { lenght = 0 })))
    × ((b : BufferReader) (rest : List ℕ)
        → IsValid b
        → unread b ≡ bytes ++ rest
        → Receives small_chunks b video five_bytes rest)
unfolding message_at
parse-create_example =
    parse-create small_chunks 4 100 video five_bytes (omega arith) (omega arith) (omega arith)
      video-Fits (omega arith) refl refl refl no_message-IsSized (omega arith) (omega arith)

abbrev connect : AmfObject
connect = record new_object { kind = amf_string; string = b'c' ∷ b'o' ∷ b'n' ∷ [] }

-- An encoder that has to grow.
abbrev full_encoder : AmfEncoder
full_encoder = record { written = 7 ∷ 8 ∷ []; size = 4 }

abbrev sevens : Random
sevens i = 7

abbrev eights : Random
eights i = 8

-- A buffer that holds what a client sends first.
abbrev first_bytes : BufferReader
first_bytes = record { buffer = build_c0c1 eights; reader_index = 0; writer_index = 1537 }

first_bytes-IsValid : IsValid first_bytes
unfolding build_c0c1
first_bytes-IsValid = record { ordered = omega arith; within = omega arith; bounded = omega arith }

first_unread : unread first_bytes ≡ build_c0c1 eights ++ []
unfolding build_c0c1
first_unread = refl

exchange_example :
    let answer = build_c0c1 sevens ++ c1_of eights in
    (Handshake.parse handshake_c0c1 first_bytes sevens
      ≡ some (count 3073, handshake_c2, retrieve first_bytes 1537, answer))
    × (unread (retrieve first_bytes 1537) ≡ [])
    × ((e : BufferReader) (behind : List ℕ)
        → IsValid e
        → unread e ≡ answer ++ behind
        → (Handshake.parse handshake_s0s1s2 e sevens
            ≡ some (count 1536, handshake_complete, retrieve e 3073, c1_of sevens))
          × (unread (retrieve e 3073) ≡ behind))
    × ((d : BufferReader) (behind : List ℕ)
        → IsValid d
        → unread d ≡ c1_of sevens ++ behind
        → (Handshake.parse handshake_c2 d sevens
            ≡ some (count 0, handshake_complete, retrieve d 1536, []))
          × (unread (retrieve d 1536) ≡ behind))
exchange_example = exchange eights sevens sevens first_bytes [] first_bytes-IsValid first_unread
