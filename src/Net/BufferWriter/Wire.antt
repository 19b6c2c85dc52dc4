-- ===== src/Net/BufferWriter/Wire.antt =====
-- The send queue of Net/BufferWriter.h as one stream of bytes.
use cloud_assitant.Prelude.{
  ℕ, zero, suc, ◌+◌, ◌-◌, ◌≤◌, ◌<◌, List, [], ◌∷◌, ◌++◌, some, true, false, leb, ◌==◌, length, take,
  drop, ◌≡◌, ◌≢◌, refl, sym, ap, ◌∙◌, All, ◌⊎◌, inl, inr, append_assoc, append-nil, arith,
  length-take, length-drop, length-append, leb→le, take-append-drop, drop-drop, Bool-cases,
  read_bytes-take, take-take, take_all,
}
use cloud_assitant.Net.BufferReader.{IoResult, count}
use cloud_assitant.Net.BufferWriter.{
  Packet, BufferWriter, Sent, accepted, again, broken, offered, is_full, send_loop, send, append,
}

-- The bytes still to be sent, in their order.
abbrev pub pending : List Packet → List ℕ
pending [] = []
pending (p ∷ q) = offered p ++ pending q

-- Something is left of every packet, and its memory holds it.
abbrev pub IsOpen : Packet → Type 0
IsOpen p = (p.write_index < p.size) × (p.size ≤ length p.bytes)

pub record IsValid (b : BufferWriter) : Type 0 where
  pub packets : All IsOpen b.buffer
  pub limit : length b.buffer ≤ b.max_queue_length

-- `send` takes no more than it is offered.
abbrev pub IsSocket : (ℕ → List ℕ → Sent) → Type 0
IsSocket socket = (round k : ℕ) (xs : List ℕ) → socket round xs ≡ accepted k → k ≤ length xs

length-offered : (p : Packet) → IsOpen p → length (offered p) ≡ p.size - p.write_index
length-offered p h =
    omega (arith, length-drop p.write_index (take p.size p.bytes), length-take p.size p.bytes)

-- What `send_loop` gives for the queue `q`: no byte is lost, repeated or moved.
abbrev Conserves : List Packet → IoResult × List Packet × List ℕ → Type 0
Conserves q r = (r.2 ++ pending r.1 ≡ pending q) × All IsOpen r.1 × (length r.1 ≤ length q)

module _ (socket : ℕ → List ℕ → Sent) (p : Packet) (q : List Packet) where
  sent_whole :
      (k : ℕ) (rest : IoResult × List Packet × List ℕ)
      → IsOpen p
      → p.size ≡ p.write_index + suc k
      → Conserves q rest
      → Conserves (p ∷ q) (rest.0, rest.1, take (suc k) (offered p) ++ rest.2)
  sent_whole k rest h e (kept, open_, short) = (
    rw (take_all (suc k) (offered p) (omega (arith, length-offered p h)))
        (append_assoc (offered p) rest.2 (pending rest.1) ∙ ap (◌++◌ (offered p)) kept),
    open_,
    omega arith,
  )

  sent_part :
      (k : ℕ)
      → IsOpen p
      → All IsOpen q
      → suc k ≤ length (offered p)
      → p.size ≢ p.write_index + suc k
      → Conserves (p ∷ q) (
        count (suc k),
        record p { write_index = p.write_index + suc k } ∷ q,
        take (suc k) (offered p),
      )
  sent_part k h hq took e = (
    rw (← append_assoc)
        (ap (λ t. t ++ pending q) (rw (← drop-drop) (take-append-drop (suc k) (offered p)))),
    ((omega (arith, length-offered p h), h.1), hq),
    omega arith,
  )

send_loop-Conserves :
    (socket : ℕ → List ℕ → Sent) (round : ℕ) (q : List Packet)
    → IsSocket socket
    → All IsOpen q
    → Conserves q (send_loop socket round q)
unfolding send_loop
send_loop-Conserves socket round [] fair open_ = (refl, tt, omega arith)
send_loop-Conserves socket round (p ∷ q) fair (h, hq) =
    answer (socket round (offered p)) refl (send_loop-Conserves socket (suc round) q fair hq)
  where
    stays : Conserves (p ∷ q) (count 0, p ∷ q, [])
    stays = (refl, (h, hq), omega arith)

    answer :
        (s : Sent)
        → socket round (offered p) ≡ s
        → Conserves q (send_loop socket (suc round) q)
        → Conserves (p ∷ q) (send_loop socket round (p ∷ q))
    answer (accepted zero) e ih = rw (e, send_loop) stays
    answer (accepted (suc k)) e ih =
        rw (e, send_loop)
          (elim (Bool-cases (p.size == (p.write_index + suc k))) [
            | inl whole ↦
                rw whole
                  (sent_whole socket p q k (send_loop socket (suc round) q) h (ground arith) ih)
            | inr part ↦
                rw part
                  (sent_part socket p q k h hq (fair round (suc k) (offered p) e) (ground arith))
          ])
    answer again e ih = rw (e, send_loop) stays
    answer broken e ih = rw (e, send_loop) stays

-- `Send` puts a prefix of the pending bytes on the wire and keeps the rest, in order, and the queue
-- stays well formed.
pub send-conserves :
    (b : BufferWriter) (socket : ℕ → List ℕ → Sent)
    → IsSocket socket
    → IsValid b
    → let (ret, b', wire) = send b socket in
      (wire ++ pending b'.buffer ≡ pending b.buffer) × IsValid b'
unfolding send
send-conserves b socket fair v =
    let (kept, open_, short) = send_loop-Conserves socket 0 b.buffer fair v.packets in
    (kept, record { packets = open_; limit = omega (arith, v.limit) })

send_loop-drains :
    (socket : ℕ → List ℕ → Sent) (round : ℕ) (q : List Packet)
    → ((n : ℕ) (xs : List ℕ) → socket n xs ≡ accepted (length xs))
    → All IsOpen q
    → send_loop socket round q ≡ (count 0, [], pending q)
unfolding send_loop
send_loop-drains socket round [] all open_ = refl
send_loop-drains socket round (p ∷ q) all (h, hq) = ground (
  arith,
  all round (offered p),
  length-offered p h,
  send_loop-drains socket (suc round) q all hq,
  take_all (length (offered p)) (offered p),
)

-- A socket that takes all that it is offered leaves an empty queue, and `Send` returns 0.
pub send-drains :
    (b : BufferWriter) (socket : ℕ → List ℕ → Sent)
    → ((n : ℕ) (xs : List ℕ) → socket n xs ≡ accepted (length xs))
    → IsValid b
    → send b socket ≡ (count 0, record b { buffer = [] }, pending b.buffer)
unfolding send
send-drains b socket all v = rw (send_loop-drains socket 0 b.buffer all v.packets)

pending-append : (q r : List Packet) → pending (q ++ r) ≡ pending q ++ pending r
pending-append [] r = refl
pending-append (p ∷ q) r =
    ap (◌++◌ (offered p)) (pending-append q r) ∙ sym (append_assoc (offered p) _ _)

All-append : (q : List Packet) (p : Packet) → All IsOpen q → IsOpen p → All IsOpen (q ++ (p ∷ []))
All-append [] p h hp = (hp, tt)
All-append (x ∷ q) p (hx, h) hp = (hx, All-append q p h hp)

-- `Append` of `size` bytes from index `index` on adds them behind all that is pending; it refuses,
-- and changes nothing, when no byte is left to send or the queue is full.
pub pending-append_packet :
    (b : BufferWriter) (bytes : List ℕ) (size index : ℕ)
    → IsValid b
    → size ≤ length bytes
    → ((append b bytes size index ≡ some (false, b)) × ((size ≤ index) ⊎ (is_full b ≡ true)))
      ⊎ ((b' : BufferWriter) × (append b bytes size index ≡ some (true, b'))
          × (pending b'.buffer ≡ pending b.buffer ++ drop index (take size bytes))
          × IsValid b')
unfolding append is_full
pending-append_packet b bytes size index v h = elim (Bool-cases (leb size index)) [
  | inl spent ↦ inl (rw spent, inl (leb→le size index spent))
  | inr some_left ↦ elim (Bool-cases (leb b.max_queue_length (length b.buffer))) [
    | inl full ↦ inl (rw (some_left, full), inr full)
    | inr room ↦ inr (
      record b { buffer = b.buffer ++ (packet ∷ []) },
      rw (some_left, room, read_bytes-take size bytes h),
      joined,
      record {
        packets =
            All-append b.buffer packet v.packets
              (ground arith, omega (arith, length-take size bytes));
        limit = ground (arith, length-append b.buffer (packet ∷ []), v.limit);
      },
    )
  ]
]
  where
    packet : Packet
    packet = record { bytes = take size bytes; size = size; write_index = index }

    joined : pending (b.buffer ++ (packet ∷ [])) ≡ pending b.buffer ++ drop index (take size bytes)
    joined = rw pending-append (
        ap (◌++◌ (pending b.buffer))
          (rw (append-nil, take-take size size bytes (omega arith)) refl))
