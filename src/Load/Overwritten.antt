-- ===== src/Load/Overwritten.antt =====
-- A report changes with the bytes that arrive after it.
use cloud_assitant.Prelude.{
  ℕ, ◌+◌, ◌-◌, ◌*◌, ◌%◌, ◌^◌, ◌≤◌, ◌<◌, ◌≡◌, refl, sym, subst, ◌∙◌, [], length-append, length-drop,
  List, ◌∷◌, ◌++◌, Option, none, some, true, false, ◌==◌, ◌>>=◌, ltb, leb, length, drop, arith,
  zero, suc, get_elem?,
}
use native.Mathlib.Nat.{zero-add, suc-add}
use mathlib.Core.List.{Mem}
use cloud_assitant.Net.Bytes.{read_uint16_le, read_uint8}
use cloud_assitant.Net.BufferReader.{
  BufferReader, bytes, read, Received, receive, store, readable_bytes, writable_bytes, peek, count,
}
use cloud_assitant.Load.{monitor_mem}
use cloud_assitant.Load.Server.{World, Connection, Candidate, Pointer, deref}
use cloud_assitant.Load.Connection.{handle_read, after_read, on_read, handle_message, put}
use cloud_assitant.Load.Reports.{key}

-- A buffer whose bytes have all been retrieved, with room for a read.
pub record IsFree (b : BufferReader) : Type 0 where
  pub reader : b.reader_index ≡ 0
  pub writer : b.writer_index ≡ 0
  pub room : 4096 ≤ length b.buffer
  pub bound : length b.buffer < 2 ^ 32

abbrev refilled : BufferReader → List ℕ → BufferReader
refilled b xs = record {
  buffer = xs ++ drop (length xs) b.buffer;
  reader_index = 0;
  writer_index = length xs;
}

read-IsFree :
    (b : BufferReader) (xs : List ℕ)
    → IsFree b
    → length xs ≤ length b.buffer
    → read b (bytes xs) ≡ some (count (length xs), refilled b xs)
unfolding read receive store writable_bytes
read-IsFree b xs f h =
    subst (λ b. read b (bytes xs) ≡ some (count (length xs), refilled b xs)) (sym at_zero)
      (rw (full, wide, room, zero-add) refl)
  where
    at_zero : b ≡ record { buffer = b.buffer; reader_index = 0; writer_index = 0 }
    at_zero =
        λ i. record { buffer = b.buffer; reader_index = f.reader i; writer_index = f.writer i }

    full : (length b.buffer + 2 ^ 32 - 0) % 2 ^ 32 ≡ length b.buffer
    full = omega (arith, f.bound)

    wide : ltb (length b.buffer) 4096 ≡ false
    wide = ground (arith, f.room)

    room : leb (0 + length xs) (length b.buffer) ≡ true
    room = ground (arith, h)

on_read_waits :
    (sort : List Candidate → List Candidate) (now i len : ℕ) (c : Connection) (w : World)
    → 4 ≤ readable_bytes c.read_buffer
    → read_uint16_le (peek c.read_buffer) ≡ some len
    → (cmd : ℕ) → read_uint16_le (drop 2 (peek c.read_buffer)) ≡ some cmd
    → readable_bytes c.read_buffer < len
    → on_read sort now i c w ≡ some w
unfolding on_read handle_message
on_read_waits sort now i len c w h l cmd k s = rw (some_bytes, whole_head, l, k, short) refl
  where
    some_bytes : ltb 0 (readable_bytes c.read_buffer) ≡ true
    some_bytes = ground (arith, h)

    whole_head : ltb (readable_bytes c.read_buffer) 4 ≡ false
    whole_head = ground (arith, h)

    short : ltb (readable_bytes c.read_buffer) len ≡ true
    short = ground (arith, s)

handle_read-count :
    (sort : List Candidate → List Candidate) (now i n : ℕ) (c : Connection) (w : World)
    (received : Received) (b : BufferReader)
    → w.connections i ≡ some c
    → read c.read_buffer received ≡ some (count n, b)
    → handle_read sort now i received w
      ≡ on_read sort now i (record c { read_buffer = b }) (put i c b w)
unfolding handle_read after_read
handle_read-count sort now i n c w received b e r = go (w.connections i) e
  where
    go :
        (o : Option Connection)
        → o ≡ some c
        → (elim o [
          | none ↦ some w
          | some c ↦ (read c.read_buffer received >>= λ (ret, b). after_read sort now i c w ret b)
        ])
          ≡ on_read sort now i (record c { read_buffer = b }) (put i c b w)
    go o e = rw (e, r) refl

-- A byte of a text, with anything after it.
read_at :
    (k : ℕ) (xs ys : List ℕ) (m : ℕ)
    → get_elem? xs (k + 4) ≡ some m
    → read_uint8 (drop 4 (drop k (xs ++ ys))) ≡ some m
unfolding read_uint8
read_at zero [] ys m e = cc
read_at zero (a ∷ []) ys m e = cc
read_at zero (a ∷ b ∷ []) ys m e = cc
read_at zero (a ∷ b ∷ c ∷ []) ys m e = cc
read_at zero (a ∷ b ∷ c ∷ d ∷ []) ys m e = cc
read_at zero (a ∷ b ∷ c ∷ d ∷ x ∷ xs) ys m e = e
read_at (suc k) [] ys m e = cc
read_at (suc k) (x ∷ xs) ys m e = read_at k xs ys m (rw suc-add at e)

key-refilled :
    (i m : ℕ) (xs : List ℕ) (p : Pointer) (c : Connection) (w : World)
    → length xs ≤ length c.read_buffer.buffer
    → p.owner ≡ i
    → p.size ≡ length c.read_buffer.buffer
    → get_elem? xs (p.offset + 4) ≡ some m
    → key (put i c (refilled c.read_buffer xs) w).connections p ≡ some m
unfolding deref monitor_mem
key-refilled i m xs p c w h owner size e = rw owner (rw self (rw same (read_at p.offset xs _ m e)))
  where
    self : (i == i) ≡ true
    self = ground arith

    same : (length (xs ++ drop (length xs) c.read_buffer.buffer) == p.size) ≡ true
    same = ground (
      arith,
      h,
      size,
      length-append xs (drop (length xs) c.read_buffer.buffer),
      length-drop (length xs) c.read_buffer.buffer,
    )

-- The first bytes of a packet that is not whole yet already replace the load in a report that the
-- server keeps of the connection, when all bytes of the buffer have been retrieved, the new ones fit
-- into it, and they reach the fifth byte of the report: no message is handled and the map keeps its
-- pointers, but the pointer of the report now leads to a byte of the new packet for its load.
pub handle_read-overwritten :
    (sort : List Candidate → List Candidate) (now i fd a b lo hi m : ℕ) (rest : List ℕ)
    (p : Pointer) (c : Connection) (w : World)
    → w.connections i ≡ some c
    → Mem (fd, p) w.monitor_infos
    → p.owner ≡ i
    → p.size ≡ length c.read_buffer.buffer
    → IsFree c.read_buffer
    → 4 + length rest ≤ length c.read_buffer.buffer
    → 4 + length rest < b * 2 ^ 8 + a
    → get_elem? (a ∷ b ∷ lo ∷ hi ∷ rest) (p.offset + 4) ≡ some m
    → (w' : World) × (handle_read sort now i (bytes (a ∷ b ∷ lo ∷ hi ∷ rest)) w ≡ some w')
      × Mem (fd, p) w'.monitor_infos
      × (key w'.connections p ≡ some m)
unfolding readable_bytes peek read_uint16_le
handle_read-overwritten sort now i fd a b lo hi m rest p c w e kept owner size f h s byte = (
  put i c b' w,
  handle_read-count sort now i (length xs) c w (bytes xs) b' e (read-IsFree c.read_buffer xs f fits)
      ∙ on_read_waits sort now i _ c' _ (rw all (omega arith)) refl _ refl
          (rw all (omega (arith, s))),
  kept,
  key-refilled i m xs p c w fits owner size byte,
)
  where
    xs : List ℕ
    xs = a ∷ b ∷ lo ∷ hi ∷ rest

    fits : length xs ≤ length c.read_buffer.buffer
    fits = omega (arith, h)

    b' : BufferReader
    b' = refilled c.read_buffer xs

    c' : Connection
    c' = record c { read_buffer = b' }

    all : (length xs + 2 ^ 32 - 0) % 2 ^ 32 ≡ length xs
    all = omega (arith, fits, f.bound)
