-- ===== src/Rtmp/Chunk.antt =====
-- The state of RtmpServer/RtmpChunk.h. `Chunk.Parse` and `Chunk.Create` are the two directions.
pub mod Parse
pub mod Create
pub mod Headers
pub mod Steps
pub mod Chunked
pub mod Bodies
pub mod RoundTrip
pub mod Moves
use cloud_assitant.Prelude.{
  ℕ, zero, suc, ◌+◌, List, [], ◌∷◌, Option, none, some, Bool, ◌==◌, if◌then◌else◌, ◌≡◌, arith,
}
use cloud_assitant.Rtmp.Message.{RtmpMessage, no_message}

pub data State : Type 0 where
  parse_header parse_body : State

-- `chunk_stream_id` is `none` for the source's -1.
pub record RtmpChunk : Type 0 where
  pub state : State
  pub chunk_stream_id : Option ℕ
  pub in_chunk_size : ℕ
  pub out_chunk_size : ℕ
  pub messages : List (ℕ × RtmpMessage)

-- The constructor, with the shared counter `stream_id_`.
unfoldable pub init : ℕ → RtmpChunk × ℕ
init stream_id = (
  record {
    state = parse_header;
    chunk_stream_id = none;
    in_chunk_size = 128;
    out_chunk_size = 128;
    messages = [];
  },
  stream_id + 1,
)

-- `rtmp_message_[csid]`: a key that is missing stands for a new message.
unfoldable pub message_at : ℕ → List (ℕ × RtmpMessage) → RtmpMessage
message_at k [] = no_message
message_at k ((j, m) ∷ ms) = if j == k then m else message_at k ms

unfoldable pub put_message : ℕ → RtmpMessage → List (ℕ × RtmpMessage) → List (ℕ × RtmpMessage)
put_message k v [] = (k, v) ∷ []
put_message k v ((j, m) ∷ ms) = if j == k then (k, v) ∷ ms else (j, m) ∷ put_message k v ms

unfoldable pub set_in_chunk_size : RtmpChunk → ℕ → RtmpChunk
set_in_chunk_size c n = record c { in_chunk_size = n }

unfoldable pub set_out_chunk_size : RtmpChunk → ℕ → RtmpChunk
set_out_chunk_size c n = record c { out_chunk_size = n }

unfoldable pub clear_messages : RtmpChunk → RtmpChunk
clear_messages c = record c { messages = [] }

pub message_at-put_message :
    (k : ℕ) (v : RtmpMessage) (ms : List (ℕ × RtmpMessage)) → message_at k (put_message k v ms) ≡ v
unfolding message_at put_message
message_at-put_message k v [] = ground arith
message_at-put_message k v ((j, m) ∷ ms) = ground (arith, message_at-put_message k v ms)
