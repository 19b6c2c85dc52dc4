-- ===== src/Rtmp/Connection/Read.antt =====
-- RtmpServer/RtmpConnection.cpp: what a connection does with the bytes that arrive.
use cloud_assitant.Prelude.{
  ℕ, zero, suc, List, Option, none, some, Bool, true, false, ltb, ◌==◌, not, if◌then◌else◌,
}
use cloud_assitant.Net.Bytes.{read_uint32_be}
use cloud_assitant.Net.BufferReader.{BufferReader, IoResult, count, failed, readable_bytes}
use cloud_assitant.Rtmp.Message.{RtmpMessage, is_completed}
use cloud_assitant.Rtmp.Chunk.{set_in_chunk_size}
use cloud_assitant.Rtmp.Chunk.Parse.{Outcome, used, bad}
use cloud_assitant.Rtmp.Chunk.Parse
use cloud_assitant.Rtmp.Handshake
use cloud_assitant.Rtmp.Handshake.{Random}
use cloud_assitant.Rtmp.World.{Action, pure, ◌>>=◌, ◌>>◌, lift, this, put}
use cloud_assitant.Rtmp.Sink.{
  rtmp_set_chunk_size, rtmp_audio, rtmp_video, rtmp_notify, rtmp_invoke, send,
}
use cloud_assitant.Rtmp.Connection.{payload}
use cloud_assitant.Rtmp.Connection.Play.{handle_invoke, handle_delete_stream}
use cloud_assitant.Rtmp.Connection.Media.{handle_notify, handle_audio, handle_video}

-- What `OnRead` makes of the handshake's result.
abbrev pub is_good : IoResult → Bool
is_good failed = false
is_good (count _) = true

abbrev pub is_reply : IoResult → Bool
is_reply failed = false
is_reply (count n) = ltb 0 n

module _ (double : ℕ → List ℕ) (server : Bool) where
  -- `HandleMessage`
  unfoldable pub handle_message : ℕ → RtmpMessage → Action Bool
  unfolding handle_invoke handle_notify handle_audio handle_video set_in_chunk_size read_uint32_be
  handle_message i m =
      if m.type_id == rtmp_video
      then handle_video server i m
      else (if m.type_id == rtmp_audio
          then handle_audio server i m
          else (if m.type_id == rtmp_invoke
              then handle_invoke double server i m
              else (if m.type_id == rtmp_notify
                  then handle_notify server i m
                  else (if m.type_id == rtmp_set_chunk_size
                      then (do
                        p ← payload m
                        size ← lift (read_uint32_be p)
                        c ← this i
                        put i (record c { rtmp_chunk = set_in_chunk_size c.rtmp_chunk size })
                        pure true)
                      else pure true))))

  -- What the loop of `HandleChunk` does with the message that a parse gives; `none` is a message
  -- that is not complete.
  unfoldable pub handle_parsed : ℕ → Option RtmpMessage → Action Bool
  unfolding is_completed handle_message
  handle_parsed i none = pure true
  handle_parsed i (some m) = if is_completed m then handle_message i m else pure true

  -- `HandleChunk`, with the buffer that it leaves; `none` is fuel that ran out.
  unfoldable pub handle_chunk : ℕ → ℕ → BufferReader → Action (Option (Bool × BufferReader))
  unfolding handle_parsed Parse.parse
  handle_chunk zero i b = pure none
  handle_chunk (suc fuel) i b = do
    c ← this i
    (outcome, chunk, b', m) ← lift (Parse.parse c.rtmp_chunk b)
    put i (record c { rtmp_chunk = chunk })
    elim outcome [
      | bad ↦ pure (some (false, b'))
      | used n ↦ do
        ok ← handle_parsed i m
        if not ok
            then pure (some (false, b'))
            else (if n == 0
                then pure (some (true, b'))
                else (if ltb 0 (readable_bytes b')
                    then handle_chunk fuel i b'
                    else pure (some (true, b'))))
    ]

  -- `OnRead`, with the buffer that it leaves. As many rounds as there are bytes, and one more.
  unfoldable pub on_read : Random → ℕ → BufferReader → Action (Option (Bool × BufferReader))
  unfolding handle_chunk Handshake.parse send
  on_read rd i b = do
    c ← this i
    if Handshake.is_completed c.handshake then handle_chunk (suc (readable_bytes b)) i b else (do
      (res_size, h, b', res) ← lift (Handshake.parse c.handshake b rd)
      put i (record c { handshake = h })
      (if is_reply res_size then send i res else pure tt)
      if Handshake.is_completed h
          then (if ltb 0 (readable_bytes b')
              then handle_chunk (suc (readable_bytes b')) i b'
              else pure (some (is_good res_size, b')))
          else pure (some (is_good res_size, b')))

-- `OnClose`
unfoldable pub on_close : Bool → ℕ → Action (Unit {0})
unfolding handle_delete_stream
on_close server i = handle_delete_stream server i >> pure tt
