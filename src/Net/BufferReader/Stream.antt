-- ===== src/Net/BufferReader/Stream.antt =====
-- The receive buffer of Net/BufferReader.h as a stream: the bytes received and not yet retrieved.
use cloud_assitant.Prelude.{
  ℕ, ◌+◌, ◌-◌, ◌≤◌, ◌<◌, List, ◌++◌, some, true, false, ltb, leb, ◌==◌, length, take, drop,
  replicate, ◌≡◌, sym, ap, ap₂, ◌∙◌, ◌⊎◌, inl, inr, length-append, length-take, length-drop,
  length-replicate, drop-take, drop-drop, drop-append, take-append, take-append-drop,
  take-append_left, drop_all, take-take, take-length-append, Bool-cases, ltb→lt, arith,
}
use cloud_assitant.Net.BufferReader.{
  BufferReader, max_bytes_per_read, max_buffer_size, count, bytes, readable_bytes, writable_bytes,
  peek, retrieve, receive, read,
}

pub record IsValid (b : BufferReader) : Type 0 where
  pub ordered : b.reader_index ≤ b.writer_index
  pub within : b.writer_index ≤ length b.buffer
  pub bounded : length b.buffer ≤ max_buffer_size + max_bytes_per_read

-- What has come in and was not retrieved yet, oldest first.
abbrev pub unread : BufferReader → List ℕ
unread b = take (b.writer_index - b.reader_index) (drop b.reader_index b.buffer)

pub readable_bytes-length : {b : BufferReader} → IsValid b → readable_bytes b ≡ length (unread b)
unfolding readable_bytes
readable_bytes-length {b} v = omega (
  arith,
  length-take (b.writer_index - b.reader_index) (drop b.reader_index b.buffer),
  length-drop b.reader_index b.buffer,
  v.ordered,
  v.within,
  v.bounded,
)

pub readable_bytes_lem :
    {b : BufferReader} → IsValid b → readable_bytes b ≡ b.writer_index - b.reader_index
unfolding readable_bytes
readable_bytes_lem {b} v = omega (arith, v.ordered, v.within, v.bounded)

-- A client that reads no more than `readable_bytes` sees the stream through `peek`.
pub take-peek :
    {b : BufferReader} (n : ℕ)
    → IsValid b
    → n ≤ readable_bytes b
    → take n (peek b) ≡ take n (unread b)
unfolding peek
take-peek {b} n v h = sym (
    take-take n (b.writer_index - b.reader_index) (drop b.reader_index b.buffer)
      (omega (arith, readable_bytes_lem v)))

pub retrieve-IsValid : {b : BufferReader} (n : ℕ) → IsValid b → IsValid (retrieve b n)
unfolding retrieve
retrieve-IsValid n v = ground arith

-- `Retrieve` drops from the front of the stream, and empties it when asked for more than it holds.
pub unread-retrieve :
    {b : BufferReader} (n : ℕ) → IsValid b → unread (retrieve b n) ≡ drop n (unread b)
unfolding retrieve
unread-retrieve {b} n v = elim (Bool-cases (ltb n (readable_bytes b))) [
  | inl less ↦ rw less (rw (gap less) (rw drop-take (rw drop-drop (rw sub_sub))))
  | inr more ↦ rw more (sym (drop_all n (unread b) (beyond more)))
]
  where
    gap : ltb n (readable_bytes b) ≡ true → ((b.reader_index + n) == b.writer_index) ≡ false
    gap less = ground (arith, readable_bytes_lem v)

    sub_sub : b.writer_index - b.reader_index - n ≡ b.writer_index - (b.reader_index + n)
    sub_sub = omega arith

    beyond : ltb n (readable_bytes b) ≡ false → length (unread b) ≤ n
    beyond more = ground (arith, readable_bytes-length v)

receive_lem :
    {b : BufferReader} (xs : List ℕ)
    → IsValid b
    → b.writer_index + length xs ≤ length b.buffer
    → (b' : BufferReader) × (receive b (bytes xs) ≡ some (count (length xs), b'))
      × (unread b' ≡ unread b ++ xs)
      × IsValid b'
unfolding receive
receive_lem {b} xs v room = (after, rw fits, joined, valid)
  where
    open b use {buffer, reader_index as r, writer_index as w}

    fits : leb (w + length xs) (length buffer) ≡ true
    fits = ground arith

    front : List ℕ
    front = take w buffer

    back : List ℕ
    back = drop (w + length xs) buffer

    after : BufferReader
    after = record b { buffer = front ++ (xs ++ back); writer_index = w + length xs }

    size : w + length xs - r ≡ length (drop r front) + length xs
    size = omega (arith, length-drop r front, length-take w buffer)

    joined : unread after ≡ unread b ++ xs
    joined = rw (drop-append r front (xs ++ back) (omega (arith, length-take w buffer))) (
        rw size (
          take-append (length xs) (drop r front) (xs ++ back)
          ∙ ap₂ ◌++◌ (drop-take r w buffer) (take-length-append xs back)))

    size_after : length (front ++ (xs ++ back)) ≡ length buffer
    size_after = omega (
      arith,
      length-append front (xs ++ back),
      length-append xs back,
      length-take w buffer,
      length-drop (w + length xs) buffer,
    )

    valid : IsValid after
    valid = record {
      ordered = omega arith;
      within = rw size_after room;
      bounded = rw size_after v.bounded;
    }

grow-IsValid :
    {b : BufferReader}
    → IsValid b
    → length b.buffer ≤ max_buffer_size
    → IsValid (record b { buffer = b.buffer ++ replicate max_bytes_per_read 0 })
grow-IsValid {b} v h = record {
  ordered = v.ordered;
  within = omega (arith, length-append b.buffer blank, v.within);
  bounded =
      omega (arith, length-append b.buffer blank, length-replicate {A = ℕ} max_bytes_per_read 0);
}
  where
    blank : List ℕ
    blank = replicate max_bytes_per_read 0

unread-grow :
    {b : BufferReader} (ys : List ℕ)
    → IsValid b
    → unread (record b { buffer = b.buffer ++ ys }) ≡ unread b
unread-grow {b} ys v =
    rw (drop-append b.reader_index b.buffer ys (omega (arith, v.ordered, v.within))) (
      take-append_left (b.writer_index - b.reader_index) (drop b.reader_index b.buffer) ys
        (omega (arith, length-drop b.reader_index b.buffer, v.ordered, v.within)))

-- `Read` never stores past the end of the vector. It appends what `recv` brought to the stream, or
-- does nothing because the vector has grown past its limit.
pub unread-read :
    {b : BufferReader} (xs : List ℕ)
    → IsValid b
    → length xs ≤ max_bytes_per_read
    → ((read b (bytes xs) ≡ some (count 0, b)) × (max_buffer_size < length b.buffer))
      ⊎ ((b' : BufferReader) × (read b (bytes xs) ≡ some (count (length xs), b'))
          × (unread b' ≡ unread b ++ xs)
          × IsValid b')
unfolding read
unread-read {b} xs v h = elim (Bool-cases (ltb (writable_bytes b) max_bytes_per_read)) [
  | inl small ↦ elim (Bool-cases (ltb max_buffer_size (length b.buffer))) [
    | inl full ↦ inl (rw (small, full), ltb→lt _ _ full)
    | inr open_ ↦
        let grown = record b { buffer = b.buffer ++ blank } in
        let (b', e, u, w) =
          receive_lem {b = grown} xs (grow-IsValid v (not_ltb open_)) (room_grown) in
        inr (b', rw (small, open_) e, u ∙ ap (λ t. t ++ xs) (unread-grow blank v), w)
  ]
  | inr large ↦ let (b', e, u, w) = receive_lem xs v (room large) in inr (b', rw large e, u, w)
]
  where
    blank : List ℕ
    blank = replicate max_bytes_per_read 0

    not_ltb : {m n : ℕ} → ltb m n ≡ false → n ≤ m
    not_ltb e = ground arith

    room_grown : b.writer_index + length xs ≤ length (b.buffer ++ blank)
    room_grown = omega (
      arith,
      length-append b.buffer blank,
      length-replicate {A = ℕ} max_bytes_per_read 0,
      v.within,
    )

    room_of : max_bytes_per_read ≤ writable_bytes b → b.writer_index + length xs ≤ length b.buffer
    room_of e = unfold writable_bytes in omega (arith, e, v.within, v.bounded)

    room :
        ltb (writable_bytes b) max_bytes_per_read ≡ false
        → b.writer_index + length xs ≤ length b.buffer
    room large = let e = not_ltb large in room_of e

-- What lies behind the stream in the vector.
pub peek-unread :
    {b : BufferReader} → IsValid b → peek b ≡ unread b ++ drop (readable_bytes b) (peek b)
unfolding peek
peek-unread {b} v =
    rw (readable_bytes_lem v)
      (sym (take-append-drop (b.writer_index - b.reader_index) (drop b.reader_index b.buffer)))
