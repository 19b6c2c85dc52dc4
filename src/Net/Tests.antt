-- ===== src/Net/Tests.antt =====
-- Runs of the models of Net/BufferReader.cpp and Net/BufferWriter.cpp.
mod Connections
mod Servers
mod Timers
use cloud_assitant.Prelude.{
  ℕ, ◌≤◌, ◌<◌, ◌^◌, ◌/◌, ◌%◌, List, [], ◌∷◌, ◌++◌, some, true, false, length, ◌≡◌, refl, arith, ◌⊎◌,
  ◌↔◌, min,
}
use cloud_assitant.Net.Bytes.{read_uint24_le, write_uint24_le}
use cloud_assitant.Net.Bytes.RoundTrip.{read_uint24_le-write}
use cloud_assitant.Net.BufferReader.{BufferReader, count, bytes, retrieve, read, max_buffer_size}
use cloud_assitant.Net.BufferReader.Stream.{unread, unread-retrieve, unread-read}
use cloud_assitant.Net.BufferReader.Stream
use cloud_assitant.Net.BufferWriter.{BufferWriter, Sent, accepted, send, append, is_full}
use cloud_assitant.Net.BufferWriter.Wire.{
  IsSocket, pending, send-conserves, send-drains, pending-append_packet,
}
use cloud_assitant.Net.BufferWriter.Wire

abbrev five_bytes : BufferReader
five_bytes = record { buffer = 9 ∷ 1 ∷ 2 ∷ 3 ∷ 0 ∷ []; reader_index = 1; writer_index = 4 }

five_bytes-IsValid : Stream.IsValid five_bytes
five_bytes-IsValid = record { ordered = omega arith; within = omega arith; bounded = omega arith }

unread-read_example :
    ((read five_bytes (bytes (7 ∷ 8 ∷ [])) ≡ some (count 0, five_bytes)) × (max_buffer_size < 5))
    ⊎ ((b' : BufferReader) × (read five_bytes (bytes (7 ∷ 8 ∷ [])) ≡ some (count 2, b'))
        × (unread b' ≡ 1 ∷ 2 ∷ 3 ∷ 7 ∷ 8 ∷ [])
        × Stream.IsValid b')
unread-read_example = unread-read {b = five_bytes} (7 ∷ 8 ∷ []) five_bytes-IsValid (omega arith)

abbrev two_packets : BufferWriter
two_packets = record {
  buffer =
      record { bytes = 1 ∷ 2 ∷ 3 ∷ []; size = 3; write_index = 1 }
      ∷ record { bytes = 4 ∷ 5 ∷ []; size = 2; write_index = 0 }
      ∷ [];
  max_queue_length = 4;
}

two_packets-IsValid : Wire.IsValid two_packets
two_packets-IsValid = record {
  packets = ((omega arith, omega arith), ((omega arith, omega arith), tt));
  limit = omega arith;
}

-- A socket that takes three bytes at most.
abbrev narrow : ℕ → List ℕ → Sent
narrow round xs = accepted (min 3 (length xs))

narrow-IsSocket : IsSocket narrow
narrow-IsSocket round k xs e = ground arith

abbrev wide : ℕ → List ℕ → Sent
wide round xs = accepted (length xs)

send-conserves_example :
    let (ret, b', wire) = send two_packets narrow in
    (wire ++ pending b'.buffer ≡ 2 ∷ 3 ∷ 4 ∷ 5 ∷ []) × Wire.IsValid b'
send-conserves_example = send-conserves two_packets narrow narrow-IsSocket two_packets-IsValid
