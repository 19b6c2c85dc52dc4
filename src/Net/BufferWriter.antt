-- ===== src/Net/BufferWriter.antt =====
-- Net/BufferWriter.h and Net/BufferWriter.cpp: the queue of packets that a connection still has to
-- send. The socket is a parameter: what `send` does with the bytes that it is offered.
pub mod Wire
use cloud_assitant.Prelude.{
  ℕ, zero, suc, ◌+◌, ◌-◌, ◌≤◌, ◌<◌, List, [], ◌∷◌, ◌++◌, Option, none, some, Bool, true, false, ltb,
  leb, ◌==◌, if◌then◌else◌, length, take, drop, ◌>>=◌, read_bytes,
}
use cloud_assitant.Net.BufferReader.{IoResult, count, failed}

-- `data` points to at least `size` bytes; those before `write_index` have been sent.
pub record Packet : Type 0 where
  pub bytes : List ℕ
  pub size : ℕ
  pub write_index : ℕ

pub record BufferWriter : Type 0 where
  pub buffer : List Packet
  pub max_queue_length : ℕ

unfoldable pub init : ℕ → BufferWriter
init capacity = record { buffer = []; max_queue_length = capacity }

unfoldable pub is_empty : BufferWriter → Bool
is_empty b = elim b.buffer [ [] ↦ true | _ ∷ _ ↦ false ]

unfoldable pub is_full : BufferWriter → Bool
is_full b = leb b.max_queue_length (length b.buffer)

-- `Append(std::shared_ptr<char>, ...)`: the packet shares the caller's memory.
unfoldable pub append_shared : BufferWriter → List ℕ → ℕ → ℕ → Bool × BufferWriter
append_shared b data' size index =
    if leb size index
    then (false, b)
    else (if leb b.max_queue_length (length b.buffer) then (false, b) else (
      true,
      record b {
        buffer = b.buffer ++ (record { bytes = data'; size = size; write_index = index } ∷ []);
      },
    ))

-- `Append(const char *, ...)` copies `size` bytes; `none` is a read past the caller's memory.
unfoldable pub append : BufferWriter → List ℕ → ℕ → ℕ → Option (Bool × BufferWriter)
append b data' size index =
    if leb size index
    then some (false, b)
    else (if leb b.max_queue_length (length b.buffer)
        then some (false, b)
        else (read_bytes size data' >>= λ copy. some (
          true,
          record b {
            buffer = b.buffer ++ (record { bytes = copy; size = size; write_index = index } ∷ []);
          },
        )))

-- What `send` answers: a count, -1 with `errno` EINTR or EAGAIN, or -1 with another `errno`.
pub data Sent : Type 0 where
  accepted : ℕ → Sent
  again : Sent
  broken : Sent

-- What a round offers to the socket.
abbrev pub offered : Packet → List ℕ
offered p = drop p.write_index (take p.size p.bytes)

-- The loop of `Send`, with its result, the queue after it, and the bytes that the socket took.
-- `socket n` is the answer to the n-th call. A round goes on only when it has sent a packet whole.
unfoldable pub send_loop : (ℕ → List ℕ → Sent) → ℕ → List Packet → IoResult × List Packet × List ℕ
send_loop socket round [] = (count 0, [], [])
send_loop socket round (p ∷ q) = elim (socket round (offered p)) [
  | accepted zero ↦ (count 0, p ∷ q, [])
  | accepted (suc k) ↦
      let rest = send_loop socket (suc round) q in
      let ret = suc k in
      let p' = record p { write_index = p.write_index + ret } in
      if p.size == p'.write_index
      then (rest.0, rest.1, take ret (offered p) ++ rest.2)
      else (count ret, p' ∷ q, take ret (offered p))
  | again ↦ (count 0, p ∷ q, [])
  | broken ↦ (failed, p ∷ q, [])
]

-- `Send`.
unfoldable pub send : BufferWriter → (ℕ → List ℕ → Sent) → IoResult × BufferWriter × List ℕ
unfolding send_loop
send b socket =
    let (ret, buffer', wire) = send_loop socket 0 b.buffer in
    (ret, record b { buffer = buffer' }, wire)
