-- ===== src/Net/TcpConnection/Stream.antt =====
-- What becomes of the bytes and of the descriptor of a connection of Net/TcpConnection.cpp.
use cloud_assitant.Prelude.{
  ℕ, ◌≤◌, ◌<◌, ◌≡◌, refl, sym, ap, ◌∙◌, subst, inl, inr, List, ◌∷◌, ◌++◌, some, Bool, true, false,
  if◌then◌else◌, length, take, Bool-cases, arith, append_assoc, ◌>>=◌,
}
use cloud_assitant.Net.BufferReader.{IoResult, count, failed}
use cloud_assitant.Net.BufferWriter.{BufferWriter, is_full, is_empty, append}
use cloud_assitant.Net.BufferWriter
use cloud_assitant.Net.BufferWriter.Wire.{
  pending, IsValid, IsSocket, send-conserves, pending-append_packet,
}
use cloud_assitant.Net.Channel.{
  ctl_mod, update_channel, update, enable_reading, is_writing, remove_channel, is_none_event,
}
use cloud_assitant.Net.TcpConnection.{
  TcpConnection, init, close, watch, Socket, after_send, write_locked, handle_write, send,
}
use cloud_assitant.Net.TcpConnection.Watch.{Keeps, close-Keeps, watched, watch-watched}

-- The bytes that have gone out or wait to go out.
abbrev pub stream : TcpConnection → List ℕ
stream c = c.wire ++ pending c.write_buffer.buffer

close-stream :
    (c : TcpConnection) → ((close c).wire ≡ c.wire) × ((close c).write_buffer ≡ c.write_buffer)
unfolding close remove_channel
close-stream c = elim (Bool-cases c.is_closed) [
  | inl e ↦ rw e (refl, refl)
  | inr e ↦ rw e (refl, refl)
]

watch-stream :
    (c : TcpConnection) → ((watch c).wire ≡ c.wire) × ((watch c).write_buffer ≡ c.write_buffer)
watch-stream c =
    by_flags (is_empty c.write_buffer) (is_writing c.channel)
      (watch-watched c (is_empty c.write_buffer) (is_writing c.channel) refl refl)
  where
    by_flags :
        (a b : Bool)
        → watch c ≡ watched c a b
        → ((watch c).wire ≡ c.wire) × ((watch c).write_buffer ≡ c.write_buffer)
    by_flags true true e = (ap (λ d. d.wire) e, ap (λ d. d.write_buffer) e)
    by_flags true false e = (ap (λ d. d.wire) e, ap (λ d. d.write_buffer) e)
    by_flags false true e = (ap (λ d. d.wire) e, ap (λ d. d.write_buffer) e)
    by_flags false false e = (ap (λ d. d.wire) e, ap (λ d. d.write_buffer) e)

after_send-stream :
    (c : TcpConnection) (r : IoResult)
    → ((after_send c r).wire ≡ c.wire) × ((after_send c r).write_buffer ≡ c.write_buffer)
unfolding after_send
after_send-stream c failed = close-stream c
after_send-stream c (count n) = watch-stream c

write_locked-stream :
    (c : TcpConnection) (socket : Socket)
    → IsSocket socket
    → IsValid c.write_buffer
    → (stream (write_locked c socket) ≡ stream c) × IsValid (write_locked c socket).write_buffer
unfolding write_locked
write_locked-stream c socket fair v =
    let (kept, v') = send-conserves c.write_buffer socket fair v in
    let (wire, buffer) = after_send-stream sent r.0 in
    (
      ap (λ b. (after_send sent r.0).wire ++ pending b.buffer) buffer
          ∙ ap (λ ws. ws ++ pending r.1.buffer) wire
          ∙ append_assoc c.wire r.2 (pending r.1.buffer)
          ∙ ap (λ ws. c.wire ++ ws) kept,
      subst IsValid (sym buffer) v',
    )
  where
    r : IoResult × BufferWriter × List ℕ
    r = BufferWriter.send c.write_buffer socket

    sent : TcpConnection
    sent = record c { write_buffer = r.1; wire = c.wire ++ r.2 }

handle_write-stream :
    (c : TcpConnection) (free : Bool) (socket : Socket)
    → c.is_closed ≡ false
    → IsSocket socket
    → IsValid c.write_buffer
    → (stream (handle_write c free socket) ≡ stream c)
      × IsValid (handle_write c free socket).write_buffer
unfolding handle_write
handle_write-stream c true socket opened fair v =
    subst (λ d. (stream d ≡ stream c) × IsValid d.write_buffer)
      (sym (ap (λ b. if b then c else write_locked c socket) opened))
      (write_locked-stream c socket fair v)
handle_write-stream c false socket opened fair v =
    subst (λ d. (stream d ≡ stream c) × IsValid d.write_buffer)
      (sym (ap (λ b. if b then c else c) opened)) (refl, v)

-- `Send` on an open connection whose queue has room, of at least one byte: whatever the socket takes
-- now, and whether or not `try_lock` gets the mutex, what has gone out and what waits are together just what they were, followed by the new bytes,
-- and the queue stays well formed.
pub send-stream :
    (c : TcpConnection) (data' : List ℕ) (size : ℕ) (free : Bool) (socket : Socket)
    → c.is_closed ≡ false
    → IsSocket socket
    → IsValid c.write_buffer
    → 0 < size
    → size ≤ length data'
    → is_full c.write_buffer ≡ false
    → (c' : TcpConnection) × (send c data' size free socket ≡ some c')
      × (stream c' ≡ stream c ++ take size data')
      × IsValid c'.write_buffer
unfolding send
send-stream c data' size free socket opened fair v pos enough room =
    elim (pending-append_packet c.write_buffer data' size 0 v enough) [
      | inl (e, inl spent) ↦ absurd (omega (arith, spent, pos))
      | inl (e, inr full) ↦ absurd_full full
      | inr (b, e, added, v') ↦
          let queued = record c { write_buffer = b } in
          let (kept, v'') = handle_write-stream queued free socket opened fair v' in
          (
            handle_write queued free socket,
            ap
                  (λ b.
                    if b
                    then some c
                    else (append c.write_buffer data' size 0 >>= λ (q, buffer).
                        some (handle_write (record c { write_buffer = buffer }) free socket)))
                  opened
                ∙ ap
                    (λ o. o >>= λ (q, buffer).
                      some (handle_write (record c { write_buffer = buffer }) free socket))
                    e,
            kept
                ∙ ap (λ ws. c.wire ++ ws) added
                ∙ sym (append_assoc c.wire (pending c.write_buffer.buffer) (take size data')),
            v'',
          )
    ]
  where
    absurd_full : {A : Type 0} → is_full c.write_buffer ≡ true → A
    absurd_full full = cc

known-modified :
    (c : TcpConnection)
    → Keeps c
    → (init c.channel.sockfd c.scheduler).scheduler.controls
      ≡ record { operation = ctl_mod; fd = c.channel.sockfd; events = 1 } ∷ c.scheduler.controls
unfolding init update_channel enable_reading update is_none_event
known-modified c ((_, _, known, _), _) = rw known refl

-- A connection that has been closed, and whose descriptor the system gives out again: the scheduler
-- still has the old channel, so for the new connection it has epoll modify the descriptor in place
-- of adding it.
pub init-reused :
    (c : TcpConnection)
    → Keeps c
    → (init (close c).channel.sockfd (close c).scheduler).scheduler.controls
      ≡ record { operation = ctl_mod; fd = (close c).channel.sockfd; events = 1 }
        ∷ (close c).scheduler.controls
init-reused c (loose, _) = known-modified (close c) (close-Keeps c loose)
