-- ===== src/Sig/Wire.antt =====
-- The bytes of the packets of SigServer/Define.h, those that the server sends and those that clients
-- build.
pub mod Framed
use cloud_assitant.Prelude.{ℕ, List, [], ◌∷◌, ◌++◌, replicate, string_copy}
use cloud_assitant.Net.Bytes.{write_uint16_le, write_uint32_le, to_byte}
use cloud_assitant.Sig.Define.{
  ResultCode, successful, error, request_timeout, already_redistered, user_disappear, already_login,
  verficate_failed, Packet, join_reply, obtain_stream_reply, create_stream_packet,
  play_stream_packet, delete_stream_packet, forwarded,
}

unfoldable pub result_number : ResultCode → ℕ
result_number successful = 0
result_number error = 1
result_number request_timeout = 2
result_number already_redistered = 3
result_number user_disappear = 4
result_number already_login = 5
result_number verficate_failed = 6

-- `packet_head`
unfoldable pub head : ℕ → ℕ → List ℕ
unfolding write_uint16_le
head len cmd = write_uint16_le len ++ write_uint16_le cmd

-- A result is an `int`.
unfoldable pub with_result : ResultCode → List ℕ
unfolding write_uint32_le result_number
with_result r = write_uint32_le (result_number r)

-- `SetstreamAddres` of an array of zeros.
unfoldable pub stream_address : List ℕ → List ℕ
unfolding string_copy
stream_address str = string_copy (replicate 70 0) str

-- `SetId` of an array of zeros.
unfoldable pub id_array : List ℕ → List ℕ
unfolding string_copy
id_array str = string_copy (replicate 10 0) str

-- What the server sends.
unfoldable pub wire : Packet → List ℕ
unfolding head with_result stream_address write_uint32_le
wire (join_reply r) = head 8 0x0005 ++ with_result r
wire (obtain_stream_reply r) = head 8 0x0100 ++ with_result r
wire create_stream_packet = head 4 0x0101
wire (play_stream_packet b) = head 78 0x0102 ++ (with_result b.result ++ stream_address b.address)
wire (delete_stream_packet n) = head 8 0x0103 ++ write_uint32_le n
wire (forwarded bytes) = bytes

-- What clients build, with the values that they set.
pub data Request : Type 0 where
  join obtain_stream : List ℕ → Request
  create_stream_reply : ResultCode → List ℕ → Request
  play_stream_reply : ResultCode → Request
  mouse key : ℕ → ℕ → Request
  mouse_move : ℕ → ℕ → ℕ → ℕ → Request
  wheel : ℕ → Request
  clipboard_offer clipboard_data file_offer : ℕ → Request
  clipboard_request : Request

unfoldable pub request : Request → List ℕ
unfolding head with_result stream_address id_array write_uint16_le write_uint32_le
request (join id) = head 14 0x0005 ++ id_array id
request (obtain_stream id) = head 14 0x0100 ++ id_array id
request (create_stream_reply r address) =
    head 78 0x0101 ++ (with_result r ++ stream_address address)
request (play_stream_reply r) = head 8 0x0102 ++ with_result r
request (mouse kind button) = head 6 0x0200 ++ (to_byte kind ∷ to_byte button ∷ [])
request (mouse_move xl xr yl yr) =
    head 8 0x0201 ++ (to_byte xl ∷ to_byte xr ∷ to_byte yl ∷ to_byte yr ∷ [])
request (key k kind) = head 7 0x0202 ++ (write_uint16_le k ++ (to_byte kind ∷ []))
request (wheel w) = head 5 0x0203 ++ (to_byte w ∷ [])
request (clipboard_offer size) = head 8 0x0300 ++ write_uint32_le size
request clipboard_request = head 4 0x0301
request (clipboard_data size) = head 8 0x0302 ++ write_uint32_le size
request (file_offer size) = head 8 0x0400 ++ write_uint32_le size
