-- ===== src/Net/TcpConnection.antt =====
-- Net/TcpConnection.h and Net/TcpConnection.cpp, with the scheduler, which other connections use as
-- well. Whether `try_lock` gets the mutex, what `recv` and `send` answer and what the read callback
-- does are parameters.
pub mod Watch
pub mod Interest
pub mod Stream
use cloud_assitant.Prelude.{
  ℕ, ◌+◌, List, [], ◌∷◌, ◌++◌, Option, none, some, Bool, true, false, if◌then◌else◌, ◌>>=◌, ◌==◌,
}
use cloud_assitant.Net.BufferReader.{BufferReader, IoResult, count, failed, Received}
use cloud_assitant.Net.BufferReader
use cloud_assitant.Net.BufferWriter.{BufferWriter, Sent, is_empty, append, append_shared}
use cloud_assitant.Net.BufferWriter
use cloud_assitant.Net.Channel.{
  Channel, TaskScheduler, enable_reading, enable_writing, disable_writing, is_writing,
  update_channel, remove_channel,
}

-- `closings` counts the runs of `closeCb_` and `disconnectCb_`, and `wire` are the bytes that the
-- socket took so far.
pub record TcpConnection : Type 0 where
  pub is_closed : Bool
  pub read_buffer : BufferReader
  pub write_buffer : BufferWriter
  pub channel : Channel
  pub scheduler : TaskScheduler
  pub closings : ℕ
  pub wire : List ℕ

-- The constructor; its buffer has room for 500 packets.
unfoldable pub init : ℕ → TaskScheduler → TcpConnection
unfolding BufferReader.init BufferWriter.init enable_reading update_channel
init sockfd s =
    let channel = enable_reading (record { sockfd = sockfd; events = 0 }) in
    record {
      is_closed = false;
      read_buffer = BufferReader.init 2048;
      write_buffer = BufferWriter.init 500;
      channel = channel;
      scheduler = update_channel s channel;
      closings = 0;
      wire = [];
    }

-- `Close`
unfoldable pub close : TcpConnection → TcpConnection
unfolding remove_channel
close c = if c.is_closed then c else record c {
  is_closed = true;
  scheduler = remove_channel c.scheduler c.channel;
  closings = c.closings + 1;
}

-- The channel and the scheduler after `HandleWrite` has sent: writing is watched while bytes wait.
unfoldable pub watch : TcpConnection → TcpConnection
unfolding is_empty is_writing enable_writing disable_writing update_channel
watch c =
    if is_empty c.write_buffer
    then (if is_writing c.channel
        then (let channel = disable_writing c.channel in
            record c { channel = channel; scheduler = update_channel c.scheduler channel })
        else c)
    else (if is_writing c.channel
        then c
        else (let channel = enable_writing c.channel in
            record c { channel = channel; scheduler = update_channel c.scheduler channel }))

abbrev pub Socket : Type 0
Socket = ℕ → List ℕ → Sent

-- What `HandleWrite` does after `Send` of the buffer.
unfoldable pub after_send : TcpConnection → IoResult → TcpConnection
unfolding close watch
after_send c failed = close c
after_send c (count n) = watch c

-- What `HandleWrite` does with the mutex.
unfoldable pub write_locked : TcpConnection → Socket → TcpConnection
unfolding BufferWriter.send after_send
write_locked c socket =
    let (ret, buffer, wire) = BufferWriter.send c.write_buffer socket in
    after_send (record c { write_buffer = buffer; wire = c.wire ++ wire }) ret

-- `HandleWrite`; `free` is what `try_lock` answers.
unfoldable pub handle_write : TcpConnection → Bool → Socket → TcpConnection
unfolding write_locked
handle_write c free socket = if c.is_closed then c else (if free then write_locked c socket else c)

-- `Send` of shared memory, which the packet shares. It ignores whether the packet was queued.
unfoldable pub send_shared : TcpConnection → List ℕ → ℕ → Bool → Socket → TcpConnection
unfolding append_shared handle_write
send_shared c data' size free socket =
    if c.is_closed
    then c
    else handle_write (record c { write_buffer = (append_shared c.write_buffer data' size 0).1 })
        free socket

-- `Send` of the caller's memory, which is copied; `none` is a read past the caller's memory.
unfoldable pub send : TcpConnection → List ℕ → ℕ → Bool → Socket → Option TcpConnection
unfolding append handle_write
send c data' size free socket =
    if c.is_closed
    then some c
    else (append c.write_buffer data' size 0 >>= λ (queued, buffer).
        some (handle_write (record c { write_buffer = buffer }) free socket))

-- `DisConnect`, `HandleClose` and `HandleError`
unfoldable pub disconnect : TcpConnection → TcpConnection
unfolding close
disconnect c = close c

-- What the read callback answers, and the connection that it leaves.
abbrev pub ReadCallback : Type 0
ReadCallback = TcpConnection → Option (Bool × TcpConnection)

unfoldable pub run_callback : TcpConnection → Option ReadCallback → Option TcpConnection
unfolding close
run_callback c none = some c
run_callback c (some callback) = callback c >>= λ (ok, c'). some (if ok then c' else close c')

-- `HandleRead`; `none` is a store past the buffer.
unfoldable pub handle_read : TcpConnection → Received → Option ReadCallback → Option TcpConnection
unfolding BufferReader.read run_callback
handle_read c received callback =
    if c.is_closed
    then some c
    else (BufferReader.read c.read_buffer received >>= λ (ret, buffer).
        let c' = record c { read_buffer = buffer } in
        elim ret [ failed ↦ some (close c') | count n ↦ run_callback c' callback ])

-- `UpdateChannel` of another connection with the same scheduler. Descriptors that are open at one
-- time differ, so a channel with this connection's own is none of another.
unfoldable pub update_other : TcpConnection → Channel → TcpConnection
unfolding update_channel
update_other c ch =
    if ch.sockfd == c.channel.sockfd
    then c
    else record c { scheduler = update_channel c.scheduler ch }

-- What happens to a connection.
pub data Event : Type 0 where
  arrives : Received → Option ReadCallback → Event
  writable : Bool → Socket → Event
  sends shares : List ℕ → ℕ → Bool → Socket → Event
  hangs_up : Event
  elsewhere : Channel → Event

unfoldable pub step : TcpConnection → Event → Option TcpConnection
unfolding handle_read handle_write send send_shared disconnect update_other
step c (arrives received callback) = handle_read c received callback
step c (writable free socket) = some (handle_write c free socket)
step c (sends data' size free socket) = send c data' size free socket
step c (shares data' size free socket) = some (send_shared c data' size free socket)
step c (elsewhere ch) = some (update_other c ch)
step c hangs_up = some (disconnect c)

unfoldable pub run : TcpConnection → List Event → Option TcpConnection
unfolding step
run c [] = some c
run c (e ∷ es) = step c e >>= λ c'. run c' es
