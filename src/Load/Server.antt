-- ===== src/Load/Server.antt =====
-- LoadBanlanceServer/LoadBanlanceServer.cpp: the reports of the login servers. The server keeps
-- pointers into the receive buffers of its connections, so the buffers are part of the state.
use cloud_assitant.Prelude.{
  ℕ, List, [], ◌∷◌, Option, none, some, Bool, ltb, ◌==◌, if◌then◌else◌, length, drop, ◌>>=◌,
}
use cloud_assitant.Net.BufferReader.{BufferReader}
use cloud_assitant.Load.{LoginReply, monitor_mem}

-- A `Monitor_body *`: the connection whose vector it points into, the index, and the size that the
-- vector had.
pub record Pointer : Type 0 where
  pub owner : ℕ
  pub offset : ℕ
  pub size : ℕ

-- A `LoadBanlanceConnection`.
pub record Connection : Type 0 where
  pub socket : ℕ
  pub read_buffer : BufferReader

-- A connection is a number in place of a pointer. `monitor_infos` are the pairs of the map in the
-- order of their keys, `alive` says whether the server still exists, and `sent` has the replies with
-- their connections, oldest first.
pub record World : Type 0 where
  pub connections : ℕ → Option Connection
  pub monitor_infos : List (ℕ × Pointer)
  pub alive : Bool
  pub sent : List (ℕ × LoginReply)

-- The memory from a pointer on: none if its connection was destroyed, or if the vector has grown
-- since, which may have moved it.
unfoldable pub deref : (ℕ → Option Connection) → Pointer → Option (List ℕ)
deref connections p = connections p.owner >>= λ c.
    (if length c.read_buffer.buffer == p.size
      then some (drop p.offset c.read_buffer.buffer)
      else none)

-- `monitorInfos_[fd] = info`
unfoldable pub insert : ℕ → Pointer → List (ℕ × Pointer) → List (ℕ × Pointer)
insert fd info [] = (fd, info) ∷ []
insert fd info ((k, p) ∷ ms) =
    if ltb fd k
    then (fd, info) ∷ (k, p) ∷ ms
    else (if k == fd then (k, info) ∷ ms else (k, p) ∷ insert fd info ms)

-- `UpdateMonitor`
unfoldable pub update_monitor : ℕ → Pointer → World → World
unfolding insert
update_monitor fd info w = record w { monitor_infos = insert fd info w.monitor_infos }

-- A pair of the vector with the key that `CmpByValue` reads through its pointer.
abbrev pub Candidate : Type 0
Candidate = ℕ × ℕ × Pointer

-- The vector that is sorted. The comparisons read every report, and there is one at least when there
-- are two pairs; the caller reads the report of a single pair.
unfoldable pub candidates : (ℕ → Option Connection) → List (ℕ × Pointer) → Option (List Candidate)
unfolding deref monitor_mem
candidates connections [] = some []
candidates connections ((fd, info) ∷ ms) = do
  body ← deref connections info
  mem ← monitor_mem body
  vec ← candidates connections ms
  some ((mem, fd, info) ∷ vec)

-- `vec[0].second`, which is undefined on an empty vector.
unfoldable pub first : List Candidate → Option Pointer
first [] = none
first ((mem, fd, info) ∷ vec) = some info

-- `GetMonitorInfo`, with `std::sort` as a parameter.
unfoldable pub get_monitor_info : (List Candidate → List Candidate) → World → Option Pointer
unfolding candidates first
get_monitor_info sort w = do vec ← candidates w.connections w.monitor_infos; first (sort vec)
