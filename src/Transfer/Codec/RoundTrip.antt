-- ===== src/Transfer/Codec/RoundTrip.antt =====
-- `Encode` and `Decode` of Transfer/TransferCodec.cpp undo each other.
use cloud_assitant.Prelude.{
  ℕ, ◌+◌, ◌-◌, ◌%◌, ◌^◌, ◌≤◌, ◌<◌, List, ◌∷◌, ◌++◌, none, some, true, leb, length, ◌≡◌, ◌≢◌, refl,
  read_bytes-append, read_bytes-take, read_bytes_self, arith, append_assoc,
}
use cloud_assitant.Transfer.Codec.{
  MessageHeader, TransferMessage, header_size, encode_header, encode, decode,
}

-- The header's fields fit their types, and the frame fits 32 bits.
pub record Fits (m : TransferMessage) : Type 0 where
  pub version : m.header.version < 2 ^ 8
  pub kind : m.header.kind < 2 ^ 8
  pub flags : m.header.flags < 2 ^ 16
  pub request_id : m.header.request_id < 2 ^ 32
  pub size : header_size + length m.payload < 2 ^ 32

pub encode_lem :
    (m : TransferMessage)
    → header_size + length m.payload < 2 ^ 32
    → encode m ≡ some (encode_header m.header (length m.payload) ++ m.payload)
unfolding encode
encode_lem m h =
    let small : length m.payload % 2 ^ 32 ≡ length m.payload = omega arith in
    rw small (rw (fits_32 (header_size + length m.payload) h) (rw (read_bytes_self m.payload) refl))
  where
    fits_32 : (n : ℕ) → n < 2 ^ 32 → leb n (n % 2 ^ 32) ≡ true
    fits_32 n lt = ground arith

decode-frame :
    (h : MessageHeader) (body rest : List ℕ) (size : ℕ) (old : TransferMessage)
    → h.version < 2 ^ 8
    → h.kind < 2 ^ 8
    → h.flags < 2 ^ 16
    → h.request_id < 2 ^ 32
    → header_size + length body < 2 ^ 32
    → size ≡ header_size + length body
    → decode (some (encode_header h (length body) ++ (body ++ rest))) size old
      ≡ some (true, record { header = record h { payload_size = length body }; payload = body })
unfolding decode encode_header
decode-frame h body rest size old hv hk hf hr hn hs = ground (arith, read_bytes-append body rest)

pub length-frame :
    (h : MessageHeader) (body : List ℕ)
    → length (encode_header h (length body) ++ body) ≡ header_size + length body
unfolding encode_header
length-frame h body = omega arith

-- `Decode` reads what `Encode` wrote, whatever follows it in the memory and whatever the message
-- held before; the payload size in the header is set to the length of the payload.
pub decode-encode :
    (m old : TransferMessage) (rest : List ℕ) {out : List ℕ}
    → Fits m
    → encode m ≡ some out
    → decode (some (out ++ rest)) (length out) old
      ≡ some (true, record m { header = record m.header { payload_size = length m.payload } })
decode-encode m old rest {out} f e =
    let out_eq : encode_header m.header (length m.payload) ++ m.payload ≡ out =
      cc (encode_lem m f.size) in
    rw (← out_eq) (
      rw append_assoc (
        decode-frame m.header m.payload rest _ old f.version f.kind f.flags f.request_id f.size
          (length-frame m.header m.payload)))

-- `Decode` never reads outside a memory of at least `size` bytes.
pub decode-ne-none :
    (bytes : List ℕ) (size : ℕ) (old : TransferMessage)
    → size ≤ length bytes
    → decode (some bytes) size old ≢ none
unfolding decode
decode-ne-none (a ∷ b ∷ c ∷ d ∷ e ∷ f ∷ g ∷ h ∷ i ∷ j ∷ k ∷ l ∷ t) size old le p =
    ground (arith, read_bytes-take (size - header_size) t, le, p)
decode-ne-none _ size old le p = ground (arith, le, p)
