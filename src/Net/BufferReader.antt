-- ===== src/Net/BufferReader.antt =====
-- Net/BufferReader.h and Net/BufferReader.cpp: the receive buffer of a connection, bytes of a
-- vector between two indices. The indices are `size_t`; `IsValid` keeps them below 2 ^ 32.
pub mod Stream
use cloud_assitant.Prelude.{
  ℕ, zero, suc, ◌+◌, ◌-◌, ◌*◌, ◌/◌, ◌%◌, ◌^◌, ◌≤◌, ◌<◌, List, [], ◌∷◌, ◌++◌, Option, none, some,
  Bool, true, false, ltb, leb, ◌==◌, if◌then◌else◌, length, take, drop, replicate, ◌>>=◌,
}

pub record BufferReader : Type 0 where
  pub buffer : List ℕ
  pub reader_index : ℕ
  pub writer_index : ℕ

abbrev pub max_bytes_per_read : ℕ
max_bytes_per_read = 4096

abbrev pub max_buffer_size : ℕ
max_buffer_size = 1024 * 100000

-- The `int` that a socket call returns: a count of bytes, or -1.
pub data IoResult : Type 0 where
  count : ℕ → IoResult
  failed : IoResult

-- What `recv` does: it fails, or stores some bytes (none at the end of the stream).
pub data Received : Type 0 where
  bytes : List ℕ → Received
  error : Received

unfoldable pub init : ℕ → BufferReader
init initial_size = record { buffer = replicate initial_size 0; reader_index = 0; writer_index = 0 }

unfoldable pub readable_bytes : BufferReader → ℕ
readable_bytes b = (b.writer_index + 2 ^ 32 - b.reader_index) % 2 ^ 32

unfoldable pub writable_bytes : BufferReader → ℕ
writable_bytes b = (length b.buffer + 2 ^ 32 - b.writer_index) % 2 ^ 32

-- The memory from `Begin() + reader_index_` on: it goes on behind the bytes received so far.
unfoldable pub peek : BufferReader → List ℕ
peek b = drop b.reader_index b.buffer

unfoldable pub retrieve_all : BufferReader → BufferReader
retrieve_all b = record b { reader_index = 0; writer_index = 0 }

unfoldable pub retrieve : BufferReader → ℕ → BufferReader
unfolding readable_bytes retrieve_all
retrieve b len =
    if ltb len (readable_bytes b)
    then (let reader_index' = b.reader_index + len in
        if reader_index' == b.writer_index
        then retrieve_all b
        else record b { reader_index = reader_index' })
    else retrieve_all b

-- A store of `xs` from index `at` on; `none` is a store past the end of the vector.
unfoldable pub store : List ℕ → ℕ → List ℕ → Option (List ℕ)
store buffer at xs =
    if leb (at + length xs) (length buffer)
    then some (take at buffer ++ (xs ++ drop (at + length xs) buffer))
    else none

-- `BeginWrite()` and `recv`, on the vector that has room.
unfoldable pub receive : BufferReader → Received → Option (IoResult × BufferReader)
unfolding store
receive b error = some (failed, b)
receive b (bytes xs) = do
  buffer' ← store b.buffer b.writer_index xs
  some (count (length xs), record b { buffer = buffer'; writer_index = b.writer_index + length xs })

-- `Read`: grow by one block if less than a block is free, then receive.
unfoldable pub read : BufferReader → Received → Option (IoResult × BufferReader)
unfolding writable_bytes receive
read b received =
    if ltb (writable_bytes b) max_bytes_per_read
    then (if ltb max_buffer_size (length b.buffer)
        then some (count 0, b)
        else receive (record b { buffer = b.buffer ++ replicate max_bytes_per_read 0 }) received)
    else receive b received

-- `ReadAll`: the count, what the string is set to (`none` leaves it alone), the buffer.
unfoldable pub read_all : BufferReader → ℕ × Option (List ℕ) × BufferReader
unfolding readable_bytes peek retrieve_all
read_all b =
    let size = readable_bytes b in
    if ltb 0 size then (size, some (take size (peek b)), retrieve_all b) else (size, none, b)
