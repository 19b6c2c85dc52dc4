-- ===== src/Transfer/Receiver.antt =====
-- Transfer/FileReceiver.h and Transfer/FileReceiver.cpp. The file system is a parameter; a path and
-- a name are lists of bytes.
pub mod Files
pub mod Safety
pub mod Upload
use cloud_assitant.Prelude.{
  ℕ, zero, suc, ◌+◌, ◌-◌, ◌*◌, ◌/◌, ◌%◌, ◌^◌, List, [], ◌∷◌, ◌++◌, Option, none, some, Bool, true,
  false, ltb, leb, ◌==◌, if◌then◌else◌, length, ◌||◌, ◌&&◌, not, list_eq,
}
use cloud_assitant.Transfer.Checksum.{checksum_file}
use Files.{FileSystem}

-- The texts of `Result.error`.
pub data Failure : Type 0 where
  invalid_metadata cannot_reset cannot_open : Failure
  unknown_request unexpected_offset invalid_chunk write_failed : Failure
  incomplete checksum_mismatch cannot_finalize invalid_file_id invalid_temporary : Failure

pub record Result : Type 0 where
  pub ok : Bool
  pub offset : ℕ
  pub error : Option Failure

abbrev pub accept : ℕ → Result
accept offset = record { ok = true; offset = offset; error = none }

abbrev pub refuse : ℕ → Failure → Result
refuse offset e = record { ok = false; offset = offset; error = some e }

-- The `std::ofstream` of a session: open and good, closed and good, or failed. A write of bytes to a
-- closed stream fails, a write of no bytes does not, and a failed stream stays so.
pub data Stream : Type 0 where
  ready closed failed : Stream

pub record Session : Type 0 where
  pub file_size : ℕ
  pub received : ℕ
  pub chunk_size : ℕ
  pub checksum : ℕ
  pub part_path : List ℕ
  pub final_path : List ℕ
  pub stream : Stream

-- `std::unordered_map<uint32_t, Session>`.
unfoldable pub find : ℕ → List (ℕ × Session) → Option Session
find id [] = none
find id ((j, s) ∷ m) = if j == id then some s else find id m

unfoldable pub erase : ℕ → List (ℕ × Session) → List (ℕ × Session)
erase id [] = []
erase id ((j, s) ∷ m) = if j == id then erase id m else (j, s) ∷ erase id m

-- A write through `Session &`.
unfoldable pub update : ℕ → Session → List (ℕ × Session) → List (ℕ × Session)
update id t [] = []
update id t ((j, s) ∷ m) = if j == id then (j, t) ∷ update id t m else (j, s) ∷ update id t m

-- `emplace` leaves a key that is there alone.
unfoldable pub emplace : ℕ → Session → List (ℕ × Session) → List (ℕ × Session)
unfolding find
emplace id s m = elim (find id m) [ none ↦ (id, s) ∷ m | some _ ↦ m ]

-- Decimal digits, lowest last; 20 of them hold every `uint64_t`.
unfoldable pub decimal : ℕ → ℕ → List ℕ
decimal zero n = []
decimal (suc fuel) n =
    let front = decimal fuel (n / 10) in
    if ltb n 10 then (b'0' + n) ∷ [] else front ++ ((b'0' + n % 10) ∷ [])

abbrev pub hex_digit : ℕ → ℕ
hex_digit d = if ltb d 10 then b'0' + d else b'a' + d - 10

-- `std::hex << std::setw(8) << std::setfill('0')` of a 32-bit number.
unfoldable pub hexadecimal : ℕ → ℕ → List ℕ
hexadecimal zero n = []
hexadecimal (suc width) n = hexadecimal width (n / 16) ++ (hex_digit (n % 16) ∷ [])

unfoldable pub make_file_id : ℕ → ℕ → List ℕ
unfolding decimal hexadecimal
make_file_id file_size checksum = decimal 20 file_size ++ (b'-' ∷ hexadecimal 8 checksum)

-- "." and ".part" around the file's id.
abbrev pub part_name : List ℕ → List ℕ
part_name file_id = b'.' ∷ (file_id ++ (b'.' ∷ b'p' ∷ b'a' ∷ b'r' ∷ b't' ∷ []))

-- "unnamed.bin"
abbrev pub unnamed : List ℕ
unnamed = b'u' ∷ b'n' ∷ b'n' ∷ b'a' ∷ b'm' ∷ b'e' ∷ b'd' ∷ b'.' ∷ b'b' ∷ b'i' ∷ b'n' ∷ []

module _ (fs : FileSystem) where
  open fs use {Disk}

  pub record Receiver : Type 0 where
    pub directory : List ℕ
    pub sessions : List (ℕ × Session)
    pub disk : Disk

  unfoldable pub safe_file_name : List ℕ → List ℕ
  safe_file_name name =
      let result = fs.filename name in
      if list_eq result [] || (list_eq result (b'.' ∷ []) || list_eq result (b'.' ∷ b'.' ∷ []))
      then unnamed
      else result

  unfoldable pub cancel_found : Receiver → ℕ → Option Session → Receiver
  unfolding erase
  cancel_found r id none = r
  cancel_found r id (some s) = record r {
    sessions = erase id r.sessions;
    disk = fs.remove (fs.close r.disk s.part_path) s.part_path;
  }

  unfoldable pub cancel : Receiver → ℕ → Receiver
  unfolding find cancel_found
  cancel r id = cancel_found r id (find id r.sessions)

  -- `session.stream.open(...)` and what follows.
  unfoldable pub open_session : Receiver → ℕ → Session → Result × Receiver
  unfolding emplace
  open_session r id s =
      let (opened, disk') = fs.open_append r.disk s.part_path in
      if opened
      then (accept s.received, record r { sessions = emplace id s r.sessions; disk = disk' })
      else (refuse 0 cannot_open, record r { disk = disk' })

  -- The size of the part file and the error code that the two calls leave.
  unfoldable pub part_size : Disk → List ℕ → ℕ × Bool
  part_size d path =
      let (found, error) = fs.exists d path in if found then fs.file_size d path else (0, error)

  unfoldable pub start_session : Receiver → ℕ → Session → Bool → Result × Receiver
  unfolding open_session
  start_session r id s error =
      if error || ltb s.file_size s.received
      then (let (done, disk') = fs.truncate r.disk s.part_path in
          if done
          then open_session (record r { disk = disk' }) id (record s { received = 0 })
          else (refuse 0 cannot_reset, record r { disk = disk' }))
      else open_session r id s

  unfoldable pub begin : Receiver → ℕ → ℕ → ℕ → ℕ → List ℕ → Result × Receiver
  unfolding cancel start_session part_size make_file_id safe_file_name
  begin r id file_size chunk_size checksum file_name =
      if chunk_size == 0 || list_eq file_name []
      then (refuse 0 invalid_metadata, r)
      else (let r' = cancel r id in
          let part_path = fs.join r.directory (part_name (make_file_id file_size checksum)) in
          let (received, error) = part_size r'.disk part_path in
          start_session r' id
            (record {
              file_size = file_size;
              received = received;
              chunk_size = chunk_size;
              checksum = checksum;
              part_path = part_path;
              final_path = fs.join r.directory (safe_file_name file_name);
              stream = ready;
            })
            error)

  -- `stream.write`, and whether the stream is good after it.
  unfoldable pub stream_write : Disk → Session → List ℕ → Bool × Disk
  stream_write d s bytes = elim s.stream [
    | ready ↦ fs.write d s.part_path bytes
    | closed ↦ (list_eq bytes [], d)
    | failed ↦ (false, d)
  ]

  -- `stream.close`, which fails on a stream that is closed.
  unfoldable pub closed_stream : Disk → Session → Stream
  closed_stream d s = elim s.stream [
    | ready ↦ if fs.flushes d s.part_path then closed else failed
    | closed ↦ failed
    | failed ↦ failed
  ]

  unfoldable pub write_found : Receiver → ℕ → ℕ → List ℕ → Option Session → Result × Receiver
  unfolding update stream_write
  write_found r id offset bytes none = (refuse 0 unknown_request, r)
  write_found r id offset bytes (some s) =
      if not (offset == s.received)
      then (refuse s.received unexpected_offset, r)
      else (if ltb s.chunk_size (length bytes)
            || ltb ((s.file_size + 2 ^ 64 - s.received) % 2 ^ 64) (length bytes)
          then (refuse s.received invalid_chunk, r)
          else (let (written, disk') = stream_write r.disk s bytes in
              if written
              then (
                accept (s.received + length bytes),
                record r {
                  sessions =
                      update id (record s { received = s.received + length bytes }) r.sessions;
                  disk = disk';
                },
              )
              else (
                refuse s.received write_failed,
                record r {
                  sessions = update id (record s { stream = failed }) r.sessions;
                  disk = disk';
                },
              )))

  unfoldable pub write : Receiver → ℕ → ℕ → List ℕ → Result × Receiver
  unfolding find write_found
  write r id offset bytes = write_found r id offset bytes (find id r.sessions)

  -- The two attempts to move the part file to its place: whether it failed, and the disk.
  unfoldable pub finalize : Disk → Session → Bool × Disk
  finalize d s =
      let (error, d') = fs.rename d s.part_path s.final_path in
      if error then fs.rename (fs.remove d' s.final_path) s.part_path s.final_path else (false, d')

  -- `Finish` closes the stream before anything else, so a session that it refuses has no open stream.
  -- The checksum of the part file is `none` if its loop did not end.
  unfoldable pub finish_found : Receiver → ℕ → ℕ → Option Session → Option (Result × Receiver)
  unfolding update erase finalize closed_stream
  finish_found r id checksum none = some (refuse 0 unknown_request, r)
  finish_found r id checksum (some s) =
      let disk = fs.close r.disk s.part_path in
      let left = record r {
        sessions = update id (record s { stream = closed_stream r.disk s }) r.sessions;
        disk = disk;
      } in
      if not (s.received == s.file_size)
      then some (refuse s.received incomplete, left)
      else (elim (checksum_file (fs.contents disk s.part_path)) [
        | none ↦ none
        | some crc ↦
            if not (checksum == s.checksum) || not (crc == checksum)
            then some (refuse s.received checksum_mismatch, left)
            else (let (error, disk') = finalize disk s in
                if error
                then some (refuse s.received cannot_finalize, record left { disk = disk' })
                else some
                    (accept s.received, record r { sessions = erase id r.sessions; disk = disk' }))
      ])

  unfoldable pub finish : Receiver → ℕ → ℕ → Option (Result × Receiver)
  unfolding find finish_found
  finish r id checksum = finish_found r id checksum (find id r.sessions)

  unfoldable pub resume : Receiver → List ℕ → ℕ → ℕ → Result
  unfolding make_file_id part_size
  resume r file_id file_size checksum =
      if not (list_eq file_id (make_file_id file_size checksum))
      then refuse 0 invalid_file_id
      else (let (size, error) = part_size r.disk (fs.join r.directory (part_name file_id)) in
          if error || ltb file_size size then refuse 0 invalid_temporary else accept size)
