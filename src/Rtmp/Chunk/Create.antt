-- ===== src/Rtmp/Chunk/Create.antt =====
-- `CreateChunk`, `CreateBasicHeader` and `CreateMessageHeader` of RtmpServer/RtmpChunk.cpp. They
-- give the bytes that the source stores from `buf` on.
use cloud_assitant.Prelude.{
  ℕ, zero, suc, ◌+◌, ◌-◌, ◌*◌, ◌/◌, ◌%◌, ◌^◌, List, [], ◌∷◌, ◌++◌, Option, none, some, ltb, leb,
  ◌==◌, if◌then◌else◌, drop, ◌>>=◌, read_bytes,
}
use cloud_assitant.Net.Bytes.{to_byte, write_uint24_be, write_uint32_be, write_uint32_le}
use cloud_assitant.Rtmp.Message.{RtmpMessage}
use cloud_assitant.Rtmp.Chunk.Parse.{extended}

unfoldable pub create_basic_header : ℕ → ℕ → List ℕ
create_basic_header fmt csid =
    if leb (64 + 255) csid
    then to_byte (fmt * 64 + 1) ∷ to_byte (csid - 64) ∷ to_byte ((csid - 64) / 2 ^ 8) ∷ []
    else (if leb 64 csid
        then to_byte (fmt * 64) ∷ to_byte (csid - 64) ∷ []
        else to_byte (fmt * 64 + csid) ∷ [])

unfoldable pub create_message_header : ℕ → RtmpMessage → List ℕ
unfolding write_uint24_be write_uint32_le
create_message_header fmt m =
    (if leb fmt 2 then write_uint24_be (if ltb m.clock extended then m.clock else extended) else [])
    ++ ((if leb fmt 1 then write_uint24_be m.lenght ++ (to_byte m.type_id ∷ []) else [])
        ++ (if fmt == 0 then write_uint32_le m.stream_id else []))

-- The extended time stamp, where there is one.
unfoldable pub create_extended : RtmpMessage → List ℕ
unfolding write_uint32_be
create_extended m = if leb extended m.clock then write_uint32_be m.extend_timestamp else []

-- The loop `while (in_msg.lenght > 0)`: `left` is `in_msg.lenght`, and the list is the payload from
-- `playload_offset` on. `none` is a read outside it, or fuel that ran out.
unfoldable pub create_loop : ℕ → ℕ → ℕ → RtmpMessage → ℕ → List ℕ → Option (List ℕ)
create_loop zero size csid m left payload = none
create_loop (suc fuel) size csid m left payload =
    let rest = create_loop fuel size csid m (left - size) (drop size payload) in
    if left == 0
    then some []
    else (if ltb size left
        then (do
          bytes ← read_bytes size payload
          more ← rest
          some (bytes ++ (create_basic_header 3 csid ++ (create_extended m ++ more))))
        else read_bytes left payload)

abbrev pub payload_of : RtmpMessage → List ℕ
payload_of m = elim m.playload [ none ↦ [] | some p ↦ p ]

-- The room that `CreateChunk` asks for.
abbrev pub capacity : ℕ → RtmpMessage → ℕ
capacity out_chunk_size m = (m.lenght + m.lenght / out_chunk_size * 5) % 2 ^ 32

-- `CreateChunk`: the middle `none` is its -1. The message is left with `lenght` 0. An outer `none`
-- is a read outside the payload, or the division by a chunk size of 0.
unfoldable pub create_chunk : ℕ → ℕ → RtmpMessage → ℕ → Option (Option (List ℕ × RtmpMessage))
create_chunk out_chunk_size csid m buf_size =
    if out_chunk_size == 0
    then none
    else (if ltb buf_size (capacity out_chunk_size m)
        then some none
        else (create_loop (suc m.lenght) out_chunk_size csid m m.lenght (payload_of m) >>= λ body.
            some (
              some (
                create_basic_header 0 csid
                    ++ (create_message_header 0 m ++ (create_extended m ++ body)),
                record m { lenght = 0 },
              ))))
