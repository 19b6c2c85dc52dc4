-- ===== src/Rtmp/Handshake.antt =====
-- RtmpServer/RtmpHandshake.h and RtmpServer/RtmpHandshake.cpp. `rd n` is what the n-th call of the
-- random device gives.
pub mod Exchange
use cloud_assitant.Prelude.{
  ℕ, zero, suc, ◌+◌, List, [], ◌∷◌, ◌++◌, Option, none, some, Bool, true, false, ltb, ◌==◌, not,
  if◌then◌else◌, drop, ◌>>=◌, read_bytes, replicate,
}
use cloud_assitant.Net.Bytes.{to_byte, read_uint8}
use cloud_assitant.Net.BufferReader.{
  BufferReader, IoResult, count, failed, readable_bytes, peek, retrieve,
}

pub data State : Type 0 where
  handshake_c0c1 handshake_s0s1s2 handshake_c2 handshake_complete : State

abbrev pub Random : Type 0
Random = ℕ → ℕ

-- `*p++ = rd()`, `n` times.
unfoldable pub random_bytes : ℕ → ℕ → Random → List ℕ
random_bytes zero i rd = []
random_bytes (suc n) i rd = to_byte (rd i) ∷ random_bytes n (suc i) rd

abbrev pub is_completed : State → Bool
is_completed handshake_complete = true
is_completed _ = false

-- A version byte, eight zero bytes and 1528 random ones: what either side sends first.
unfoldable pub build_c0c1 : Random → List ℕ
unfolding random_bytes
build_c0c1 rd = 3 ∷ (replicate 8 0 ++ random_bytes 1528 0 rd)

-- `Parse`: its result, the state and the buffer after it, and the bytes put in `res_buf`. `none` is
-- a read outside the buffer.
unfoldable pub parse :
    State → BufferReader → Random → Option (IoResult × State × BufferReader × List ℕ)
unfolding read_uint8
parse handshake_s0s1s2 b rd =
    if ltb (readable_bytes b) (1 + 1536 + 1536)
    then some (count 0, handshake_s0s1s2, b, [])
    else (read_uint8 (peek b) >>= λ version.
        if not (version == 3)
        then some (failed, handshake_s0s1s2, b, [])
        else (read_bytes 1536 (drop 1 (peek b)) >>= λ s1.
            some (count 1536, handshake_complete, retrieve b (1 + 1536 + 1536), s1)))
parse handshake_c0c1 b rd =
    if ltb (readable_bytes b) (1 + 1536)
    then some (count 0, handshake_c0c1, b, [])
    else (read_uint8 (peek b) >>= λ version.
        if not (version == 3)
        then some (failed, handshake_c0c1, b, [])
        else (read_bytes 1536 (drop 1 (peek b)) >>= λ c1.
            some (count (1 + 1536 + 1536), handshake_c2, retrieve b 1537, build_c0c1 rd ++ c1)))
parse handshake_c2 b rd =
    if ltb (readable_bytes b) 1536
    then some (count 0, handshake_c2, b, [])
    else some (count 0, handshake_complete, retrieve b 1536, [])
parse handshake_complete b rd = some (count 0, handshake_complete, retrieve b 0, [])
