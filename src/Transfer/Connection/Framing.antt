-- ===== src/Transfer/Connection/Framing.antt =====
-- `OnRead` of Transfer/TransferConnection.cpp takes a stream of frames apart.
use cloud_assitant.Prelude.{
  ℕ, zero, suc, ◌+◌, ◌^◌, ◌≤◌, ◌<◌, ◌≡◌, refl, sym, ap, ◌∙◌, List, [], ◌∷◌, ◌++◌, some, true, false,
  ltb, ◌==◌, length, drop, arith, length-append, append_assoc, All, drop-length-append, lt→ltb,
}
use cloud_assitant.Net.Bytes.{read_uint32_be}
use cloud_assitant.Net.BufferReader.{BufferReader, readable_bytes, peek, retrieve}
use cloud_assitant.Net.BufferReader.Stream.{
  IsValid, unread, peek-unread, retrieve-IsValid, unread-retrieve, readable_bytes-length,
}
use cloud_assitant.Transfer.Codec.{
  TransferMessage, header_size, empty_message, encode_header, decode,
}
use cloud_assitant.Transfer.Codec.RoundTrip.{Fits, encode_lem, decode-encode, length-frame}
use cloud_assitant.Transfer.Receiver.Files.{FileSystem}
use cloud_assitant.Transfer.Connection.{
  max_payload_size, protocol_version, Connection, handle_message, on_read_loop, on_read,
}

-- A message that a peer may send: its fields fit, and its payload size is set.
pub record IsSendable (m : TransferMessage) : Type 0 where
  pub fits : Fits m
  pub small : length m.payload ≤ max_payload_size
  pub version : m.header.version ≡ protocol_version
  pub sized : m.header.payload_size ≡ length m.payload

abbrev pub frame : TransferMessage → List ℕ
frame m = encode_header m.header (length m.payload) ++ m.payload

abbrev pub frames : List TransferMessage → List ℕ
frames [] = []
frames (m ∷ ms) = frame m ++ frames ms

size_at_eight :
    (m : TransferMessage) (more : List ℕ)
    → length m.payload < 2 ^ 32
    → read_uint32_be (drop 8 (frame m ++ more)) ≡ some (length m.payload)
unfolding encode_header read_uint32_be
size_at_eight m more h = ap some (omega arith)

module _ (fs : FileSystem) where
  -- One round on a stream that begins with a whole frame.
  on_read_loop-frame :
      (fuel : ℕ) (c c' : Connection fs) (b : BufferReader) (m : TransferMessage) (rest : List ℕ)
      → IsValid b
      → IsSendable m
      → unread b ≡ frame m ++ rest
      → handle_message fs c m ≡ some (true, c')
      → (on_read_loop fs (suc fuel) c b ≡ on_read_loop fs fuel c' (retrieve b (length (frame m))))
        × (unread (retrieve b (length (frame m))) ≡ rest)
  unfolding on_read_loop
  on_read_loop-frame fuel c c' b m rest v s u h = (step, after)
    where
      after : unread (retrieve b (length (frame m))) ≡ rest
      after = unread-retrieve (length (frame m)) v ∙ rw u (drop-length-append (frame m) rest)

      behind : List ℕ
      behind = drop (readable_bytes b) (peek b)

      seen : peek b ≡ frame m ++ (rest ++ behind)
      seen = peek-unread v ∙ ap (λ t. t ++ behind) u ∙ append_assoc (frame m) rest behind

      size : length (frame m) ≡ header_size + length m.payload
      size = length-frame m.header m.payload

      enough : header_size + length m.payload ≤ readable_bytes b
      enough =
          omega (arith, readable_bytes-length v, ap length u, length-append (frame m) rest, size)

      announced : read_uint32_be (drop 8 (peek b)) ≡ some (length m.payload)
      announced = rw seen (size_at_eight m (rest ++ behind) (omega (arith, s.small)))

      whole : m ≡ record m { header = record m.header { payload_size = length m.payload } }
      whole = λ i. record m { header = record m.header { payload_size = s.sized i } }

      decoded :
          decode (some (peek b)) (header_size + length m.payload) empty_message ≡ some (true, m)
      decoded =
          rw (seen, ← size)
            (decode-encode m empty_message (rest ++ behind) s.fits (encode_lem m s.fits.size)
              ∙ ap (λ t. some (true, t)) (sym whole))

      same : (m.header.version == protocol_version) ≡ true
      same = ground (arith, s.version)

      test : (n k : ℕ) → k ≤ n → ltb n k ≡ false
      test n k le = ground arith

      step :
          on_read_loop fs (suc fuel) c b ≡ on_read_loop fs fuel c' (retrieve b (length (frame m)))
      step = rw (test (readable_bytes b) header_size (omega (arith, enough))) (
          rw announced (
            rw (test max_payload_size (length m.payload) s.small) (
              rw (test (readable_bytes b) (header_size + length m.payload) enough)
                (rw decoded (rw same (rw h (rw size refl)))))))

  -- The messages handled one after the other, each with success.
  pub data HandlesAll (d : Connection fs) : Connection fs → List TransferMessage → Type 0 where
    done : HandlesAll d d []
    next :
        {c c' : Connection fs} {m : TransferMessage} {ms : List TransferMessage}
        → handle_message fs c m ≡ some (true, c')
        → HandlesAll d c' ms
        → HandlesAll d c (m ∷ ms)

  on_read_loop-frames :
      (fuel : ℕ) (d c : Connection fs) (b : BufferReader) (ms : List TransferMessage)
      (rest : List ℕ)
      → HandlesAll d c ms
      → IsValid b
      → All IsSendable ms
      → unread b ≡ frames ms ++ rest
      → length rest < header_size
      → readable_bytes b < fuel
      → (b' : BufferReader) × (on_read_loop fs fuel c b ≡ some (true, d, b'))
        × (unread b' ≡ rest)
        × IsValid b'
  on_read_loop-frames zero d c b ms rest h v s u short lt = absurd (omega arith)
  on_read_loop-frames (suc fuel) d c b _ rest done v s u short lt =
      (b, stops d (omega (arith, readable_bytes-length v, ap length u)), u, v)
    where
      stops :
          (c : Connection fs)
          → readable_bytes b < header_size
          → on_read_loop fs (suc fuel) c b ≡ some (true, c, b)
      stops c few = unfold on_read_loop in rw (lt→ltb _ _ few)
  on_read_loop-frames (suc fuel) d c b _ rest (next {c' = c'} {m = m} {ms = ms} h hs) v (s, ss) u
        short lt =
      let u' : unread b ≡ frame m ++ (frames ms ++ rest) =
        u ∙ append_assoc (frame m) (frames ms) rest in
      let (step, after) = on_read_loop-frame fuel c c' b m (frames ms ++ rest) v s u' h in
      let v' = retrieve-IsValid (length (frame m)) v in
      let (b', e, r, w) =
        on_read_loop-frames fuel d c' (retrieve b (length (frame m))) ms rest hs v' ss after short (
          omega (
            arith,
            readable_bytes-length v,
            readable_bytes-length v',
            ap length u',
            ap length after,
            length-append (frame m) (frames ms ++ rest),
            length-frame m.header m.payload,
            lt,
          )) in
      (b', step ∙ e, r, w)

  -- However the network cut the stream: when the unread bytes are whole frames of sendable messages
  -- and less than a header of the next, and every message is handled with success, `OnRead` handles
  -- exactly those messages in their order and leaves the beginning of the next frame unread.
  pub on_read-frames :
      (d c : Connection fs) (b : BufferReader) (ms : List TransferMessage) (rest : List ℕ)
      → HandlesAll d c ms
      → IsValid b
      → All IsSendable ms
      → unread b ≡ frames ms ++ rest
      → length rest < header_size
      → (b' : BufferReader) × (on_read fs c b ≡ some (true, d, b'))
        × (unread b' ≡ rest)
        × IsValid b'
  unfolding on_read
  on_read-frames d c b ms rest h v s u short =
      on_read_loop-frames (suc (readable_bytes b)) d c b ms rest h v s u short (omega arith)
