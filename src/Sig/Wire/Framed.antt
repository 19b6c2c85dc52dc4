-- ===== src/Sig/Wire/Framed.antt =====
-- The packets of SigServer/Define.h announce their own length, and the server reads the texts that
-- clients set.
use cloud_assitant.Prelude.{
  ℕ, zero, suc, ◌<◌, ◌≡◌, refl, ap, List, ◌++◌, some, false, ◌==◌, length, drop, replicate,
  get_elem?, All, Fits, c_string, c_string-copy, length-string_copy, arith,
}
use cloud_assitant.Net.Bytes.{read_uint16_le, write_uint16_le, write_uint32_le}
use cloud_assitant.Sig.Define.{
  ResultCode, Packet, join_reply, obtain_stream_reply, create_stream_packet, play_stream_packet,
  delete_stream_packet, forwarded,
}
use cloud_assitant.Sig.Wire.{
  wire, head, with_result, stream_address, Request, join, obtain_stream, create_stream_reply,
  play_stream_reply, mouse, key, mouse_move, wheel, clipboard_offer, clipboard_data, file_offer,
  clipboard_request, request, id_array,
}

-- A packet that is passed on came whole.
abbrev pub IsWhole : Packet → Type 0
IsWhole (forwarded bytes) = read_uint16_le bytes ≡ some (length bytes)
IsWhole _ = Unit

-- Every packet that the server sends starts with its length.
pub wire-framed : (p : Packet) → IsWhole p → read_uint16_le (wire p) ≡ some (length (wire p))
unfolding wire head with_result stream_address write_uint16_le write_uint32_le read_uint16_le
wire-framed (join_reply r) h = refl
wire-framed (obtain_stream_reply r) h = refl
wire-framed create_stream_packet h = refl
wire-framed (play_stream_packet b) h =
    ap some (omega (arith, length-string_copy (replicate 70 0) b.address))
wire-framed (delete_stream_packet n) h = refl
wire-framed (forwarded bytes) h = h

-- Every packet that a client builds starts with its length.
pub request-framed : (r : Request) → read_uint16_le (request r) ≡ some (length (request r))
unfolding request head with_result stream_address id_array write_uint16_le write_uint32_le
    read_uint16_le
request-framed (join id) = ap some (omega (arith, length-string_copy (replicate 10 0) id))
request-framed (obtain_stream id) = ap some (omega (arith, length-string_copy (replicate 10 0) id))
request-framed (create_stream_reply r a) =
    ap some (omega (arith, length-string_copy (replicate 70 0) a))
request-framed (play_stream_reply r) = refl
request-framed (mouse k b) = refl
request-framed (key k b) = refl
request-framed (mouse_move a b c d) = refl
request-framed (wheel w) = refl
request-framed (clipboard_offer n) = refl
request-framed (clipboard_data n) = refl
request-framed (file_offer n) = refl
request-framed clipboard_request = refl

get_elem?-replicate : (z n i : ℕ) → i < n → get_elem? (replicate n z) i ≡ some z
get_elem?-replicate z zero i h = absurd (omega arith)
get_elem?-replicate z (suc n) zero h = refl
get_elem?-replicate z (suc n) (suc i) h = get_elem?-replicate z n i (omega arith)

-- A text without a zero that is shorter than an array of zeros.
zeros-Fits :
    (n : ℕ) (str : List ℕ)
    → All (λ b. (b == 0) ≡ false) str
    → length str < n
    → Fits (replicate n 0) str
zeros-Fits n str a h = record { nonzero = a; ends = get_elem?-replicate 0 n (length str) h }

-- The server reads the room of a Join or an ObtainStream and the address of a reply to CreateStream
-- as the client has set them, whatever follows in memory, when they have no zero and are shorter
-- than 10 and 70 bytes.
pub request-read :
    (id address rest : List ℕ) (r : ResultCode)
    → All (λ b. (b == 0) ≡ false) id
    → length id < 10
    → All (λ b. (b == 0) ≡ false) address
    → length address < 70
    → (c_string (drop 4 (request (join id) ++ rest)) ≡ some id)
      × (c_string (drop 4 (request (obtain_stream id) ++ rest)) ≡ some id)
      × (c_string (drop 8 (request (create_stream_reply r address) ++ rest)) ≡ some address)
unfolding request head with_result stream_address id_array write_uint16_le write_uint32_le
request-read id address rest r a h b k = (
  c_string-copy (replicate 10 0) id rest (zeros-Fits 10 id a h),
  c_string-copy (replicate 10 0) id rest (zeros-Fits 10 id a h),
  c_string-copy (replicate 70 0) address rest (zeros-Fits 70 address b k),
)
