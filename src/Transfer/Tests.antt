-- ===== src/Transfer/Tests.antt =====
-- Runs of the models of the directory Transfer, those of Transfer/TransferTests.cpp among them.
use cloud_assitant.Prelude.{
  ℕ, ◌≤◌, ◌<◌, ◌==◌, List, [], ◌∷◌, ◌++◌, none, some, Bool, true, false, not, if◌then◌else◌, length,
  ◌≡◌, ◌≢◌, refl, ap, arith, All, list_eq, list_eq_iff, read_bytes,
}
use cloud_assitant.Net.BufferReader.{BufferReader}
use cloud_assitant.Net.BufferReader.Stream.{IsValid, unread}
use cloud_assitant.Transfer.Codec.{TransferMessage, encode, decode, empty_message, encode_header}
use cloud_assitant.Transfer.Codec.RoundTrip.{Fits, decode-encode}
use cloud_assitant.Transfer.Checksum.{update_crc32, checksum_file}
use cloud_assitant.Transfer.Checksum.Blocks.{checksum_file_lem}
use cloud_assitant.Transfer.Receiver.Files.{FileSystem, IsFileSystem, IsWilling}
use cloud_assitant.Transfer.Receiver.{
  accept, Session, ready, find, Receiver, safe_file_name, begin, write, finish,
}
use cloud_assitant.Transfer.Receiver.Safety.{
  Consistent, here, next, begun, Reach-Consistent, safe_file_name-parent, seen, parent,
}
use cloud_assitant.Transfer.Receiver.Upload.{write_all, upload-delivers}
use cloud_assitant.Transfer.Connection.{Connection, message_type, handle_message, on_read}
use cloud_assitant.Transfer.Connection.Total.{on_read-ne-none}
use cloud_assitant.Transfer.Connection.Framing.{
  IsSendable, HandlesAll, done, frames, on_read-frames,
}
use cloud_assitant.Transfer.Connection.Framing

-- Files in memory: one that nothing was written to is empty.
abbrev Memory : Type 0
Memory = List ℕ → List ℕ

abbrev put : Memory → List ℕ → List ℕ → Memory
put d p xs q = if list_eq q p then xs else d q

-- Whether a path has a slash, and what follows the last.
abbrev last_part : List ℕ → Bool × List ℕ
last_part [] = (false, [])
last_part (c ∷ cs) =
    let (found, rest) = last_part cs in
    if found then (true, rest) else (if c == b'/' then (true, rest) else (false, c ∷ rest))

abbrev in_memory : FileSystem
in_memory = record {
  Disk = Memory;
  filename = λ p. (last_part p).1;
  join = λ d n. d ++ (b'/' ∷ n);
  exists = λ d p. (not (list_eq (d p) []), false);
  file_size = λ d p. (length (d p), false);
  truncate = λ d p. (true, put d p []);
  open_append = λ d p. (true, d);
  write = λ d p xs. (true, put d p (d p ++ xs));
  close = λ d p. d;
  flushes = λ d p. true;
  contents = λ d p. some (d p);
  rename = λ d p q. (false, put (put d p []) q (d p));
  remove = λ d p. put d p [];
}

put_same : (d : Memory) (p xs : List ℕ) → put d p xs p ≡ xs
put_same d p xs = rw ((list_eq_iff p p).1 refl) refl

abbrev in_memory_laws : IsFileSystem in_memory
in_memory_laws = record {
  written = λ d p. d p;
  written-write = λ d p xs h. put_same d p (d p ++ xs);
  contents-close = λ d p. refl;
  contents-rename = λ d p q h. ap some (put_same (put d p []) q (d p));
}

in_memory-IsWilling : IsWilling in_memory
in_memory-IsWilling = record { writes = λ d p xs. refl; renames = λ d p q. refl }

last_part-plain : (p : List ℕ) → All (λ c. c ≢ b'/') (last_part p).1
last_part-plain [] = tt
last_part-plain (c ∷ cs) = ground (arith, last_part-plain cs)

-- "123456789"
abbrev digits : List ℕ
digits = b'1' ∷ b'2' ∷ b'3' ∷ b'4' ∷ b'5' ∷ b'6' ∷ b'7' ∷ b'8' ∷ b'9' ∷ []

abbrev part_file : List ℕ
part_file = b'p' ∷ []

abbrev final_file : List ℕ
final_file = b'f' ∷ []

abbrev nine_bytes : Session
nine_bytes = record {
  file_size = 9;
  received = 4;
  chunk_size = 5;
  checksum = 0xCBF43926;
  part_path = part_file;
  final_path = final_file;
  stream = ready;
}

-- Four of the nine bytes are there.
abbrev begun_upload : Receiver in_memory
begun_upload = record {
  directory = b'd' ∷ [];
  sessions = (9, nine_bytes) ∷ [];
  disk = put (λ p. []) part_file (b'1' ∷ b'2' ∷ b'3' ∷ b'4' ∷ []);
}

abbrev last_five : List ℕ
last_five = b'5' ∷ b'6' ∷ b'7' ∷ b'8' ∷ b'9' ∷ []

session_found : find 9 begun_upload.sessions ≡ some nine_bytes
unfolding find
session_found = refl

checksum_of_digits : update_crc32 0 digits ≡ 0xCBF43926
unfolding update_crc32
checksum_of_digits = refl

checksum_file_lem_example : checksum_file (some digits) ≡ some (update_crc32 0 digits)
checksum_file_lem_example = checksum_file_lem digits

in_chunks : length last_five ≤ 5
in_chunks = omega arith

upload-delivers_example :
    (r' : Receiver in_memory) × (finish in_memory
        (write_all in_memory begun_upload 9 4 (last_five ∷ []))
        9
        0xCBF43926
      ≡ some (accept 9, r'))
    × (some (r'.disk final_file) ≡ some digits)
unfolding list_eq
upload-delivers_example =
    upload-delivers in_memory in_memory_laws begun_upload 9 nine_bytes (last_five ∷ [])
      in_memory-IsWilling session_found refl (omega arith) (in_chunks, tt) refl checksum_of_digits

-- All nine bytes are there.
abbrev full_upload : Receiver in_memory
full_upload = record {
  directory = b'd' ∷ [];
  sessions = (9, record nine_bytes { received = 9 }) ∷ [];
  disk = put (λ p. []) part_file digits;
}

abbrev finished_upload : Receiver in_memory
finished_upload = record full_upload {
  sessions = [];
  disk = put (put (put (λ p. []) part_file digits) part_file []) final_file digits;
}

-- Another upload begins.
abbrev two_uploads : Receiver in_memory
two_uploads = (begin in_memory begun_upload 5 7 7 1 (b'x' ∷ [])).1

Reach-Consistent_example : Consistent two_uploads.sessions
Reach-Consistent_example =
    Reach-Consistent in_memory {r = begun_upload} {r' = two_uploads}
      (next here (begun 5 7 7 1 (b'x' ∷ []) (omega arith) refl)) ((omega arith, omega arith), tt)

-- "../x" becomes "x".
abbrev up_x : List ℕ
up_x = b'.' ∷ b'.' ∷ b'/' ∷ b'x' ∷ []

safe_file_name-parent_example :
    (seen (safe_file_name in_memory up_x) ≡ parent []
      → (rest : List ℕ) × (in_memory.filename up_x ≡ parent (0 ∷ rest)))
    × ((rest : List ℕ)
        → in_memory.filename up_x ≡ parent (0 ∷ rest)
        → seen (safe_file_name in_memory up_x) ≡ parent [])
safe_file_name-parent_example = safe_file_name-parent in_memory up_x

-- The name is what `filename()` gives, unless that is empty or one of the dot names.
safe_file_name_run : safe_file_name in_memory up_x ≡ b'x' ∷ []
unfolding safe_file_name list_eq
safe_file_name_run = refl

abbrev one_message : TransferMessage
one_message = record {
  header = record { version = 1; kind = 5; flags = 7; request_id = 42; payload_size = 8 };
  payload = 0 ∷ 0 ∷ 0 ∷ 0 ∷ 0 ∷ 0 ∷ 0 ∷ 4 ∷ [];
}

one_message-Fits : Fits one_message
one_message-Fits = record {
  version = omega arith;
  kind = omega arith;
  flags = omega arith;
  request_id = omega arith;
  size = omega arith;
}

abbrev one_frame : List ℕ
one_frame = 1 ∷ 5 ∷ 0 ∷ 7 ∷ 0 ∷ 0 ∷ 0 ∷ 42 ∷ 0 ∷ 0 ∷ 0 ∷ 8 ∷ 0 ∷ 0 ∷ 0 ∷ 0 ∷ 0 ∷ 0 ∷ 0 ∷ 4 ∷ []

encode_run : encode one_message ≡ some one_frame
unfolding encode read_bytes
encode_run = refl

decode-encode_example :
    decode (some (one_frame ++ (9 ∷ []))) 20 empty_message ≡ some (true, one_message)
decode-encode_example =
    decode-encode one_message empty_message (9 ∷ []) {out = one_frame} one_message-Fits encode_run

abbrev one_connection : Connection in_memory
one_connection = record {
  file_receiver = begun_upload;
  clipboard = record {
    last_data = record { format = 0; content = [] };
    has_callback = false;
    delivered = [];
  };
  sent = [];
}

abbrev one_frame_read : BufferReader
one_frame_read = record {
  buffer = one_frame ++ (1 ∷ 9 ∷ 0 ∷ []);
  reader_index = 0;
  writer_index = 22;
}

one_frame_read-IsValid : IsValid one_frame_read
one_frame_read-IsValid = record {
  ordered = omega arith;
  within = omega arith;
  bounded = omega arith;
}

on_read-ne-none_example : on_read in_memory one_connection one_frame_read ≢ none
on_read-ne-none_example =
    on_read-ne-none in_memory one_connection one_frame_read one_frame_read-IsValid

one_message-IsSendable : IsSendable one_message
one_message-IsSendable = record {
  fits = one_message-Fits;
  small = omega arith;
  version = refl;
  sized = refl;
}

ack_run : handle_message in_memory one_connection one_message ≡ some (true, one_connection)
unfolding handle_message message_type
ack_run = refl

two_bytes_left : length {A = ℕ} (1 ∷ 9 ∷ []) < 12
two_bytes_left = omega arith

frame_unread : unread one_frame_read ≡ frames (one_message ∷ []) ++ (1 ∷ 9 ∷ [])
unfolding encode_header
frame_unread = refl

on_read-frames_example :
    (b' : BufferReader) × (on_read in_memory one_connection one_frame_read
      ≡ some (true, one_connection, b'))
    × (unread b' ≡ 1 ∷ 9 ∷ [])
    × IsValid b'
on_read-frames_example =
    on_read-frames in_memory one_connection one_connection one_frame_read (one_message ∷ [])
      (1 ∷ 9 ∷ []) (Framing.next ack_run done) one_frame_read-IsValid (one_message-IsSendable, tt)
      frame_unread two_bytes_left
