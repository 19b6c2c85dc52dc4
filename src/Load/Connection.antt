-- ===== src/Load/Connection.antt =====
-- LoadBanlanceServer/LoadBanlanceConnection.cpp, with what TcpConnection and TcpServer do around it.
-- `now` is the system clock in seconds, and `none` is undefined behaviour.
use cloud_assitant.Prelude.{
  ℕ, ◌+◌, ◌-◌, ◌%◌, ◌^◌, List, [], ◌∷◌, ◌++◌, Option, none, some, Bool, ltb, ◌==◌, if◌then◌else◌,
  length, drop, ◌>>=◌,
}
use cloud_assitant.Net.Bytes.{read_uint16_le}
use cloud_assitant.Net.BufferReader.{
  BufferReader, IoResult, count, failed, Received, init, readable_bytes, peek, retrieve,
}
use cloud_assitant.Net.BufferReader
use cloud_assitant.Login.{Cmd, login, minotor, error, head_size}
use cloud_assitant.Load.{
  LoginReply, login_reply, login_timestamp, monitor_ip, monitor_port, command,
}
use cloud_assitant.Load.Server.{
  World, Connection, Pointer, Candidate, deref, update_monitor, get_monitor_info,
}

-- `IsTimeOut`: `abs` takes an `int`, so the difference keeps 32 bits; that of -2 ^ 31 is undefined.
unfoldable pub is_time_out : ℕ → ℕ → Option Bool
is_time_out now timestamp =
    let time = (now + 2 ^ 64 - timestamp) % 2 ^ 32 in
    if time == 2 ^ 31
    then none
    else some (ltb 60 (if ltb time (2 ^ 31) then time else 2 ^ 32 - time))

-- `Send` of a reply.
abbrev pub reply : ℕ → LoginReply → World → World
reply i r w = record w { sent = w.sent ++ ((i, r) ∷ []) }

-- The reply to a login, with the address of the server that was chosen.
unfoldable pub chosen : World → Pointer → Option LoginReply
unfolding deref monitor_ip monitor_port login_reply
chosen w best = do
  body ← deref w.connections best
  ip ← monitor_ip body
  port ← monitor_port body
  some (record login_reply { ip = ip; port = port })

abbrev pub refused : LoginReply
unfolding login_reply
refused = record login_reply { cmd = error }

-- `HandleMinoterInfo`: the pointer is `buffer.Peek()`.
unfoldable pub handle_minoter_info : ℕ → Connection → World → World
unfolding update_monitor
handle_minoter_info i c w =
    let b = c.read_buffer in
    if w.alive
    then update_monitor c.socket
        (record { owner = i; offset = b.reader_index; size = length b.buffer }) w
    else w

-- The connection `i` with another buffer.
abbrev pub put : ℕ → Connection → BufferReader → World → World
put i c b w = record w {
  connections = λ j. if j == i then some (record c { read_buffer = b }) else w.connections j;
}

-- `OnConnect` and `AddConnection`; `i` is the new object.
unfoldable pub on_connect : ℕ → ℕ → World → World
on_connect i socket w = record w {
  connections = λ j.
      if j == i
      then some (record { socket = socket; read_buffer = init 2048 })
      else w.connections j;
}

-- `Close` and `RemoveConnection`, which destroys the object; `DisConnection` does nothing.
unfoldable pub disconnect : ℕ → World → World
disconnect i w = record w { connections = λ j. if j == i then none else w.connections j }

module _ (sort : List Candidate → List Candidate) where
  -- `HnadleLogin`, on the memory from the packet on.
  unfoldable pub hnadle_login : ℕ → ℕ → List ℕ → World → Option World
  unfolding login_timestamp is_time_out get_monitor_info chosen
  hnadle_login now i p w = do
    time ← login_timestamp p
    late ← is_time_out now time
    if late
        then some (reply i refused w)
        else (if w.alive
            then (do best ← get_monitor_info sort w; r ← chosen w best; some (reply i r w))
            else some (reply i refused w))

  -- The `switch` of `HandleMessage`.
  unfoldable pub dispatch : ℕ → ℕ → Connection → World → Option Cmd → Option World
  unfolding hnadle_login handle_minoter_info
  dispatch now i c w (some login) = hnadle_login now i (peek c.read_buffer) w
  dispatch now i c w (some minotor) = some (handle_minoter_info i c w)
  dispatch now i c w _ = some w

  -- `HandleMessage`
  unfoldable pub handle_message : ℕ → ℕ → Connection → World → Option World
  unfolding dispatch command
  handle_message now i c w =
      let b = c.read_buffer in
      if ltb (readable_bytes b) head_size then some w else (do
        len ← read_uint16_le (peek b)
        cmd ← read_uint16_le (drop 2 (peek b))
        if ltb (readable_bytes b) len
            then some w
            else (dispatch now i c w (command cmd) >>= λ w'. some (put i c (retrieve b len) w')))

  -- `OnRead`, which always answers true.
  unfoldable pub on_read : ℕ → ℕ → Connection → World → Option World
  unfolding handle_message
  on_read now i c w =
      if ltb 0 (readable_bytes c.read_buffer) then handle_message now i c w else some w

  -- What `HandleRead` does after `Read`.
  unfoldable pub after_read : ℕ → ℕ → Connection → World → IoResult → BufferReader → Option World
  unfolding on_read disconnect
  after_read now i c w failed b = some (disconnect i w)
  after_read now i c w (count n) b = on_read now i (record c { read_buffer = b }) (put i c b w)

  -- `HandleRead`, when the connection `i` exists.
  unfoldable pub handle_read : ℕ → ℕ → Received → World → Option World
  unfolding BufferReader.read after_read
  handle_read now i received w = elim (w.connections i) [
    | none ↦ some w
    | some c ↦ (BufferReader.read c.read_buffer received >>= λ (ret, b). after_read now i c w ret b)
  ]
