-- ===== src/Transfer/Connection/Total.antt =====
-- `OnRead` of Transfer/TransferConnection.cpp stays inside the received bytes, and its loop ends.
use cloud_assitant.Prelude.{
  ℕ, zero, suc, ◌+◌, ◌-◌, ◌≤◌, ◌<◌, ◌≡◌, ◌≢◌, refl, ap, List, [], ◌∷◌, Option, none, some, Bool,
  true, false, ltb, ◌==◌, if◌then◌else◌, length, take, drop, ◌||◌, not, ◌>>=◌, read_bytes,
  read_bytes-take, arith, length-drop,
}
use cloud_assitant.Net.Bytes.{read_uint32_be}
use cloud_assitant.Net.BufferReader.{BufferReader, readable_bytes, peek, retrieve}
use cloud_assitant.Net.BufferReader.Stream.{
  IsValid, unread, retrieve-IsValid, unread-retrieve, readable_bytes-length, readable_bytes_lem,
}
use cloud_assitant.Transfer.Codec.{TransferMessage, header_size, empty_message}
use cloud_assitant.Transfer.Codec.RoundTrip.{encode_lem, decode-ne-none}
use cloud_assitant.Transfer.Receiver.Files.{FileSystem}
use cloud_assitant.Transfer.Receiver.{Receiver, Result}
use cloud_assitant.Transfer.Receiver.Safety.{finish-ne-none}
use cloud_assitant.Transfer.Connection.{
  max_payload_size, protocol_version, MessageType, clipboard_data, file_begin, file_chunk, file_end,
  file_ack, file_cancel, file_resume_request, file_resume_response, message_type, read_u64_loop,
  read_u64, read_u32, read_u16, put_u64, Connection, send_message, send_ack, send_resume_response,
  acknowledge, handle_clipboard_data, handle_file_begin, handle_file_chunk, handle_file_end,
  handle_file_cancel, handle_file_resume, dispatch, handle_message, on_read_loop, on_read,
}

abbrev Returns {ℓ} : {A : Type ℓ} → Option A → Type ℓ
Returns {A} o = (a : A) × (o ≡ some a)

returns {ℓ} : {A : Type ℓ} (o : Option A) → o ≢ none → Returns o
returns none h = absurd (h refl)
returns (some a) h = (a, refl)

read_u64_loop-Returns :
    (n value : ℕ) (xs : List ℕ) → n ≤ length xs → Returns (read_u64_loop n value xs)
unfolding read_u64_loop
read_u64_loop-Returns zero value xs h = (value, refl)
read_u64_loop-Returns (suc n) value [] h = absurd (omega arith)
read_u64_loop-Returns (suc n) value (x ∷ xs) h = read_u64_loop-Returns n _ xs (omega arith)

read_u64-Returns : (xs : List ℕ) → 8 ≤ length xs → Returns (read_u64 xs)
unfolding read_u64
read_u64-Returns xs h = read_u64_loop-Returns 8 0 xs h

read_u32-Returns : (xs : List ℕ) → 4 ≤ length xs → Returns (read_u32 xs)
unfolding read_u32
read_u32-Returns (a ∷ b ∷ c ∷ d ∷ r) h = (_, refl)
read_u32-Returns _ h = absurd (omega (arith, h))

read_u16-Returns : (xs : List ℕ) → 2 ≤ length xs → Returns (read_u16 xs)
unfolding read_u16
read_u16-Returns (a ∷ b ∷ r) h = (_, refl)
read_u16-Returns _ h = absurd (omega (arith, h))

length-put_u64 : (v : ℕ) → length (put_u64 v) ≡ 8
unfolding put_u64
length-put_u64 v = refl

bind-Returns {ℓ κ} :
    {A : Type ℓ} {B : Type κ} {o : Option A} {f : A → Option B}
    → Returns o
    → ((a : A) → Returns (f a))
    → Returns (o >>= f)
bind-Returns (a, e) k = rw e (k a)

if-Returns {ℓ} :
    {A : Type ℓ} (b : Bool) {x y : Option A}
    → (b ≡ true → Returns x)
    → (b ≡ false → Returns y)
    → Returns (if b then x else y)
if-Returns true f g = f refl
if-Returns false f g = g refl

elim-Returns {ℓ} :
    {A : Type ℓ} (b : Bool) {x y : Option A}
    → Returns x
    → Returns y
    → Returns (elim b as (λ _. Option A) [ true ↦ x | false ↦ y ])
elim-Returns true f g = f
elim-Returns false f g = g

read_bytes-Returns : (n : ℕ) (xs : List ℕ) → n ≤ length xs → Returns (read_bytes n xs)
read_bytes-Returns n xs h = (take n xs, read_bytes-take n xs h)

module _ (fs : FileSystem) (c : Connection fs) where
  send_message-Returns :
      (m : TransferMessage) → length m.payload ≤ max_payload_size → Returns (send_message fs c m)
  unfolding send_message
  send_message-Returns m h = returns _ λ e. ground (arith, encode_lem m (omega arith), e)

module _ (fs : FileSystem) where
  send_ack-Returns :
      (c : Connection fs) (id offset : ℕ) (ok : Bool) → Returns (send_ack fs c id offset ok)
  unfolding send_ack
  send_ack-Returns c id offset ok =
      bind-Returns (send_message-Returns fs c _ (omega (arith, length-put_u64 offset)))
        λ (done, c'). (c', refl)

  send_resume_response-Returns :
      (c : Connection fs) (id offset : ℕ) (ok : Bool)
      → Returns (send_resume_response fs c id ok offset)
  unfolding send_resume_response
  send_resume_response-Returns c id offset ok =
      bind-Returns (send_message-Returns fs c _ (omega (arith, length-put_u64 offset)))
        λ (done, c'). (c', refl)

  acknowledge-Returns :
      (c : Connection fs) (id : ℕ) (r : Result × Receiver fs) → Returns (acknowledge fs c id r)
  unfolding acknowledge
  acknowledge-Returns c id r =
      bind-Returns (send_ack-Returns (record c { file_receiver = r.1 }) id r.0.offset r.0.ok)
        λ c'. ((true, c'), refl)

  handle_clipboard_data-Returns :
      (c : Connection fs) (p : List ℕ) → Returns (handle_clipboard_data fs c p)
  unfolding handle_clipboard_data
  handle_clipboard_data-Returns c [] = (_, refl)
  handle_clipboard_data-Returns c (x ∷ xs) = (_, refl)

  module _ (c : Connection fs) (id : ℕ) (p : List ℕ) where
    -- `n` bytes lie at index `i` of a payload of at least `m`.
    left : {m : ℕ} (i n : ℕ) → ltb (length p) m ≡ false → i + n ≤ m → n ≤ length (drop i p)
    left i n long h = ground (arith, length-drop i p)

    handle_file_begin-Returns : Returns (handle_file_begin fs c id p)
    unfolding handle_file_begin
    handle_file_begin-Returns =
        if-Returns (ltb (length p) 18) (λ _. (_, refl))
          λ long. bind-Returns (read_u16-Returns (drop 16 p) (left 16 2 long (omega arith))) λ n.
            if-Returns (n == 0 || not (length p == (18 + n))) (λ _. (_, refl))
              λ fits.
                bind-Returns (read_bytes-Returns n (drop 18 p) (ground (arith, length-drop 18 p)))
                  λ name. bind-Returns (read_u64-Returns p (ground arith)) λ size.
                    bind-Returns (read_u32-Returns (drop 8 p) (left 8 4 long (omega arith)))
                      λ chunk.
                        bind-Returns (read_u32-Returns (drop 12 p) (left 12 4 long (omega arith)))
                          λ sum. acknowledge-Returns c id _

    handle_file_chunk-Returns : Returns (handle_file_chunk fs c id p)
    unfolding handle_file_chunk
    handle_file_chunk-Returns =
        if-Returns (ltb (length p) 8) (λ _. (_, refl))
          λ long. bind-Returns (read_u64-Returns p (ground arith)) λ offset.
            bind-Returns
              (read_bytes-Returns (length p - 8) (drop 8 p) (omega (arith, length-drop 8 p)))
              λ chunk. acknowledge-Returns c id _

    handle_file_end-Returns : Returns (handle_file_end fs c id p)
    unfolding handle_file_end
    handle_file_end-Returns =
        if-Returns (not (length p == 4)) (λ _. (_, refl))
          λ fits. bind-Returns (read_u32-Returns p (ground arith)) λ checksum.
            bind-Returns (returns _ (finish-ne-none fs c.file_receiver id checksum))
              λ result. acknowledge-Returns c id result

    handle_file_cancel-Returns : Returns (handle_file_cancel fs c id p)
    unfolding handle_file_cancel
    handle_file_cancel-Returns =
        if-Returns (not (length p == 0)) (λ _. (_, refl))
          λ fits. bind-Returns (send_ack-Returns _ id 0 true) λ c'. (_, refl)

    handle_file_resume-Returns : Returns (handle_file_resume fs c id p)
    unfolding handle_file_resume
    handle_file_resume-Returns =
        if-Returns (ltb (length p) 14) (λ _. (_, refl))
          λ long. bind-Returns (read_u16-Returns p (ground arith)) λ n.
            if-Returns (n == 0 || not (length p == (14 + n))) (λ _. (_, refl))
              λ fits.
                bind-Returns (read_bytes-Returns n (drop 2 p) (ground (arith, length-drop 2 p)))
                  λ name.
                    bind-Returns
                      (read_u64-Returns (drop (2 + n) p) (ground (arith, length-drop (2 + n) p)))
                      λ size.
                        bind-Returns
                          (read_u32-Returns (drop (10 + n) p)
                            (ground (arith, length-drop (10 + n) p)))
                          λ sum.
                            bind-Returns (send_resume_response-Returns c id _ _) λ c'. (_, refl)

    dispatch-Returns : (t : Option MessageType) → Returns (dispatch fs c id p t)
    unfolding dispatch
    dispatch-Returns none = (_, refl)
    dispatch-Returns (some clipboard_data) = handle_clipboard_data-Returns c p
    dispatch-Returns (some file_begin) = handle_file_begin-Returns
    dispatch-Returns (some file_chunk) = handle_file_chunk-Returns
    dispatch-Returns (some file_end) = handle_file_end-Returns
    dispatch-Returns (some file_ack) = (_, refl)
    dispatch-Returns (some file_cancel) = handle_file_cancel-Returns
    dispatch-Returns (some file_resume_request) = handle_file_resume-Returns
    dispatch-Returns (some file_resume_response) = (_, refl)

  -- No message, however malformed, makes `HandleMessage` read outside the payload.
  pub handle_message-ne-none :
      (c : Connection fs) (m : TransferMessage) → handle_message fs c m ≢ none
  unfolding handle_message
  handle_message-ne-none c m e =
      let (r, ok) = dispatch-Returns c m.header.request_id m.payload (message_type m.header.kind) in
      cc (e, ok)

  read_uint32_be-Returns : (xs : List ℕ) → 4 ≤ length xs → Returns (read_uint32_be xs)
  unfolding read_uint32_be
  read_uint32_be-Returns (a ∷ b ∷ c ∷ d ∷ r) h = (_, refl)
  read_uint32_be-Returns _ h = absurd (omega (arith, h))

  readable-peek : {b : BufferReader} → IsValid b → readable_bytes b ≤ length (peek b)
  unfolding peek
  readable-peek {b} v =
      omega (arith, readable_bytes_lem v, length-drop b.reader_index b.buffer, v.ordered, v.within)

  retrieve-shrinks :
      {b : BufferReader} (n : ℕ) → IsValid b → readable_bytes (retrieve b n) ≡ readable_bytes b - n
  retrieve-shrinks {b} n v = omega (
    arith,
    readable_bytes-length v,
    readable_bytes-length (retrieve-IsValid n v),
    ap length (unread-retrieve n v),
    length-drop n (unread b),
  )

  on_read_loop-Returns :
      (fuel : ℕ) (c : Connection fs) (b : BufferReader)
      → IsValid b
      → readable_bytes b < fuel
      → Returns (on_read_loop fs fuel c b)
  unfolding on_read_loop
  on_read_loop-Returns zero c b v h = absurd (omega arith)
  on_read_loop-Returns (suc fuel) c b v h =
      if-Returns (ltb (readable_bytes b) header_size) (λ _. (_, refl))
        λ long. bind-Returns (read_uint32_be-Returns (drop 8 (peek b)) (head long v)) λ size.
          if-Returns (ltb max_payload_size size) (λ _. (_, refl))
            λ small.
              if-Returns (ltb (readable_bytes b) (header_size + size)) (λ _. (_, refl))
                λ whole.
                  bind-Returns
                    (returns _
                      (decode-ne-none (peek b) (header_size + size) empty_message (body whole v)))
                    λ (decoded, m).
                      if-Returns (not decoded) (λ _. (_, refl))
                        λ _.
                          if-Returns (not (m.header.version == protocol_version)) (λ _. (_, refl))
                            λ _.
                              bind-Returns (returns _ (handle_message-ne-none c m)) λ (handled, c').
                                elim-Returns handled
                                  (on_read_loop-Returns fuel c' (retrieve b (header_size + size))
                                    (retrieve-IsValid (header_size + size) v)
                                    (fewer size long whole v h))
                                  (_, refl)
    where
      head : ltb (readable_bytes b) header_size ≡ false → IsValid b → 4 ≤ length (drop 8 (peek b))
      head long v = ground (arith, long, readable-peek v, length-drop 8 (peek b))

      body : {n : ℕ} → ltb (readable_bytes b) n ≡ false → IsValid b → n ≤ length (peek b)
      body whole v = ground (arith, whole, readable-peek v)

      fewer :
          (n : ℕ)
          → ltb (readable_bytes b) header_size ≡ false
          → ltb (readable_bytes b) (header_size + n) ≡ false
          → IsValid b
          → readable_bytes b < suc fuel
          → readable_bytes (retrieve b (header_size + n)) < fuel
      fewer n long whole v h = ground (arith, long, whole, h, retrieve-shrinks (header_size + n) v)

  -- `OnRead` ends on every buffer, and reads nothing behind the bytes received.
  pub on_read-ne-none : (c : Connection fs) (b : BufferReader) → IsValid b → on_read fs c b ≢ none
  unfolding on_read
  on_read-ne-none c b v e =
      let (r, ok) = on_read_loop-Returns (suc (readable_bytes b)) c b v (omega arith) in cc (e, ok)
