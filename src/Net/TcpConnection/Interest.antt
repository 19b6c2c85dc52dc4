-- ===== src/Net/TcpConnection/Interest.antt =====
-- What Net/TcpConnection.cpp keeps true of a connection, its channel and its scheduler.
use cloud_assitant.Prelude.{
  ℕ, ◌≡◌, refl, sym, ap, ◌∙◌, subst, inl, inr, List, [], ◌∷◌, ◌++◌, Option, none, some, Bool, true,
  false, if◌then◌else◌, All, Holds, then_bind-Holds, bind-Holds, Bool-cases, ◌>>=◌,
}
use cloud_assitant.Net.BufferReader.{BufferReader, IoResult, count, failed, Received}
use cloud_assitant.Net.BufferReader
use cloud_assitant.Net.BufferWriter.{BufferWriter, Sent, is_empty, append, append_shared}
use cloud_assitant.Net.BufferWriter
use cloud_assitant.Net.Channel.{TaskScheduler}
use cloud_assitant.Net.TcpConnection.{
  TcpConnection, init, write_locked, close, Socket, after_send, handle_write, send, send_shared,
  disconnect, ReadCallback, run_callback, handle_read, Event, arrives, writable, sends, shares,
  hangs_up, elsewhere, step, run,
}
use cloud_assitant.Net.TcpConnection.Watch.{
  Loose, Keeps, close-Keeps, after_send-Keeps, init-Keeps, update_other-Keeps,
}

write_open :
    (c : TcpConnection) (socket : Socket)
    → c.is_closed ≡ false
    → Loose c
    → Keeps (handle_write c true socket)
unfolding handle_write write_locked
write_open c socket opened k =
    subst Keeps (sym (ap (λ b. if b then c else sent) opened))
      (after_send-Keeps (record c { write_buffer = r.1; wire = c.wire ++ r.2 }) r.0 opened k)
  where
    r : IoResult × BufferWriter × List ℕ
    r = BufferWriter.send c.write_buffer socket

    sent : TcpConnection
    sent = after_send (record c { write_buffer = r.1; wire = c.wire ++ r.2 }) r.0

write_closed :
    (c : TcpConnection) (socket : Socket) → c.is_closed ≡ true → handle_write c true socket ≡ c
unfolding handle_write
write_closed c socket closed = rw (handle_write, closed) refl

handle_write-Keeps :
    (c : TcpConnection) (socket : Socket) → Keeps c → Keeps (handle_write c true socket)
handle_write-Keeps c socket k = elim (Bool-cases c.is_closed) [
  | inl closed ↦ subst Keeps (sym (write_closed c socket closed)) k
  | inr opened ↦ write_open c socket opened k.0
]

send-Keeps :
    (c : TcpConnection) (data' : List ℕ) (size : ℕ) (socket : Socket)
    → Keeps c
    → Holds Keeps (send c data' size true socket)
unfolding send
send-Keeps c data' size socket k = elim (Bool-cases c.is_closed) [
  | inl closed ↦ subst (Holds Keeps) (sym (ap (λ b. if b then some c else queued) closed)) k
  | inr opened ↦ subst (Holds Keeps) (sym (ap (λ b. if b then some c else queued) opened)) (
      bind-Holds Keeps (append c.write_buffer data' size 0) _
        λ (done, buffer). handle_write_queued (record c { write_buffer = buffer }) opened k.0)
]
  where
    queued : Option TcpConnection
    queued = append c.write_buffer data' size 0 >>= λ (done, buffer).
        some (handle_write (record c { write_buffer = buffer }) true socket)

    handle_write_queued :
        (d : TcpConnection) → d.is_closed ≡ false → Loose d → Keeps (handle_write d true socket)
    handle_write_queued d opened k = write_open d socket opened k

send_shared-Keeps :
    (c : TcpConnection) (data' : List ℕ) (size : ℕ) (socket : Socket)
    → Keeps c
    → Keeps (send_shared c data' size true socket)
unfolding send_shared
send_shared-Keeps c data' size socket k = elim (Bool-cases c.is_closed) [
  | inl closed ↦
      subst Keeps (sym (ap (λ b. if b then c else handle_write queued true socket) closed)) k
  | inr opened ↦
      subst Keeps (sym (ap (λ b. if b then c else handle_write queued true socket) opened))
        (write_open queued socket opened k.0)
]
  where
    queued : TcpConnection
    queued = record c { write_buffer = (append_shared c.write_buffer data' size 0).1 }

-- What the read callback may do: whatever keeps the connection's own calls in order.
abbrev pub KeepsUp : Option ReadCallback → Type 0
KeepsUp none = Unit
KeepsUp (some callback) = (c : TcpConnection) → Keeps c → Holds (λ (ok, c'). Keeps c') (callback c)

run_callback-Keeps :
    (c : TcpConnection) (callback : Option ReadCallback)
    → KeepsUp callback
    → Keeps c
    → Holds Keeps (run_callback c callback)
unfolding run_callback
run_callback-Keeps c none up k = k
run_callback-Keeps c (some callback) up k =
    then_bind-Holds (λ (ok, c'). Keeps c') Keeps (callback c) _ (up c k)
      λ (ok, c') k'. answered ok c' k'
  where
    answered : (ok : Bool) (c' : TcpConnection) → Keeps c' → Keeps (if ok then c' else close c')
    answered true c' k' = k'
    answered false c' k' = close-Keeps c' k'.0

handle_read-Keeps :
    (c : TcpConnection) (received : Received) (callback : Option ReadCallback)
    → KeepsUp callback
    → Keeps c
    → Holds Keeps (handle_read c received callback)
unfolding handle_read
handle_read-Keeps c received callback up k = elim (Bool-cases c.is_closed) [
  | inl closed ↦ subst (Holds Keeps) (sym (ap (λ b. if b then some c else reading) closed)) k
  | inr opened ↦ subst (Holds Keeps) (sym (ap (λ b. if b then some c else reading) opened)) (
      bind-Holds Keeps (BufferReader.read c.read_buffer received) _
        λ (ret, buffer). answered ret (record c { read_buffer = buffer }) k)
]
  where
    answer : IoResult → TcpConnection → Option TcpConnection
    answer failed c' = some (close c')
    answer (count n) c' = run_callback c' callback

    reading : Option TcpConnection
    reading = BufferReader.read c.read_buffer received >>= λ (ret, buffer). elim ret [
      | failed ↦ some (close (record c { read_buffer = buffer }))
      | count n ↦ run_callback (record c { read_buffer = buffer }) callback
    ]

    answered :
        (ret : IoResult) (c' : TcpConnection)
        → Keeps c'
        → Holds Keeps (elim ret as (λ _. Option TcpConnection) [
          | failed ↦ some (close c')
          | count n ↦ run_callback c' callback
        ])
    answered failed c' k' = close-Keeps c' k'.0
    answered (count n) c' k' = run_callback-Keeps c' callback up k'

-- What is asked of an event: its callback, and that `try_lock` gets the mutex.
abbrev pub IsCalm : Event → Type 0
IsCalm (arrives received callback) = KeepsUp callback
IsCalm (writable free socket) = free ≡ true
IsCalm (sends data' size free socket) = free ≡ true
IsCalm (shares data' size free socket) = free ≡ true
IsCalm hangs_up = Unit
IsCalm (elsewhere ch) = Unit

step-Keeps : (c : TcpConnection) (e : Event) → IsCalm e → Keeps c → Holds Keeps (step c e)
unfolding step disconnect
step-Keeps c (arrives received callback) up k = handle_read-Keeps c received callback up k
step-Keeps c (writable free socket) e k = rw e (handle_write-Keeps c socket k)
step-Keeps c (sends data' size free socket) e k = rw e (send-Keeps c data' size socket k)
step-Keeps c (shares data' size free socket) e k = rw e (send_shared-Keeps c data' size socket k)
step-Keeps c (elsewhere ch) up k = update_other-Keeps c ch k
step-Keeps c hangs_up up k = close-Keeps c k.0

run-Keeps : (c : TcpConnection) (es : List Event) → All IsCalm es → Keeps c → Holds Keeps (run c es)
unfolding run
run-Keeps c [] calm k = k
run-Keeps c (e ∷ es) (calm, more) k =
    then_bind-Holds Keeps Keeps (step c e) _ (step-Keeps c e calm k)
      λ c' k'. run-Keeps c' es more k'

-- Whatever a new connection reads, sends and is told, in any order, and whatever the other
-- connections of its scheduler do in between, as long as `try_lock` always gets the mutex: while it
-- is open, it watches for writing just as long as bytes wait to be sent, and the newest call of
-- `epoll_ctl` for its descriptor says so; its close callbacks have run once if it is closed, and not
-- before. The read callbacks are to keep this too.
pub run-init :
    (fd : ℕ) (s : TaskScheduler) (es : List Event)
    → All IsCalm es
    → Holds Keeps (run (init fd s) es)
run-init fd s es calm = run-Keeps (init fd s) es calm (init-Keeps fd s)

-- A `Send` whose `try_lock` fails only queues its bytes: nothing is sent, writing is not watched and
-- `epoll_ctl` is not called.
pub send-unwatched :
    (c : TcpConnection) (data' : List ℕ) (size : ℕ) (queued : Bool) (b : BufferWriter)
    (socket : Socket)
    → append c.write_buffer data' size 0 ≡ some (queued, b)
    → c.is_closed ≡ false
    → send c data' size false socket ≡ some (record c { write_buffer = b })
unfolding send handle_write
send-unwatched c data' size queued b socket e opened =
    ap
      (λ closed.
        if closed
        then some c
        else (append c.write_buffer data' size 0 >>= λ (q, buffer).
            some (handle_write (record c { write_buffer = buffer }) false socket)))
      opened
    ∙ ap
        (λ o. o >>= λ (q, buffer).
          some (handle_write (record c { write_buffer = buffer }) false socket))
        e
    ∙ ap
        (λ closed.
          some (if closed then record c { write_buffer = b } else record c { write_buffer = b }))
        opened
