-- ===== src/Rtmp/Handshake/Exchange.antt =====
-- A client and a server of RtmpServer/RtmpHandshake.cpp that talk to each other.
use cloud_assitant.Prelude.{
  ℕ, zero, suc, ◌+◌, ◌≤◌, ◌≡◌, refl, ap, ◌∙◌, List, [], ◌∷◌, ◌++◌, some, false, ltb, length, drop,
  read_bytes-append, replicate, arith, append_assoc, length-append, length-replicate,
  drop-length-append,
}
use cloud_assitant.Net.Bytes.{read_uint8}
use cloud_assitant.Net.BufferReader.{BufferReader, count, readable_bytes, peek, retrieve}
use cloud_assitant.Net.BufferReader.Stream.{
  IsValid, unread, peek-unread, readable_bytes-length, unread-retrieve,
}
use cloud_assitant.Rtmp.Handshake.{
  handshake_c0c1, handshake_s0s1s2, handshake_c2, handshake_complete, Random, random_bytes,
  build_c0c1, parse,
}

length-random_bytes : (n i : ℕ) (rd : Random) → length (random_bytes n i rd) ≡ n
unfolding random_bytes
length-random_bytes zero i rd = refl
length-random_bytes (suc n) i rd = ap suc (length-random_bytes n (suc i) rd)

-- What follows the version byte of the bytes that either side sends first.
abbrev pub c1_of : Random → List ℕ
c1_of rd = replicate 8 0 ++ random_bytes 1528 0 rd

length-c1_of : (rd : Random) → length (c1_of rd) ≡ 1536
length-c1_of rd = omega (
  arith,
  length-append (replicate 8 0) (random_bytes 1528 0 rd),
  length-random_bytes 1528 0 rd,
  length-replicate {A = ℕ} 8 0,
)

test_lt : (n k : ℕ) → k ≤ n → ltb n k ≡ false
test_lt n k h = ground arith

module _ {b : BufferReader} (xs more : List ℕ) (v : IsValid b) (u : unread b ≡ xs ++ more) where
  seen : peek b ≡ xs ++ (more ++ drop (readable_bytes b) (peek b))
  seen =
      peek-unread v
      ∙ ap (λ t. t ++ drop (readable_bytes b) (peek b)) u
      ∙ append_assoc xs more (drop (readable_bytes b) (peek b))

  room : length xs ≤ readable_bytes b
  room = omega (arith, readable_bytes-length v, ap length u, length-append xs more)

  left : (n : ℕ) → length xs ≡ n → unread (retrieve b n) ≡ more
  left n e = unread-retrieve n v ∙ rw (← e) (rw u (drop-length-append xs more))

-- The server's answer to what the client sends first.
parse-c0c1 :
    (b : BufferReader) (rd : Random) (c1 more : List ℕ)
    → IsValid b
    → length c1 ≡ 1536
    → unread b ≡ (3 ∷ c1) ++ more
    → parse handshake_c0c1 b rd
      ≡ some (count (1 + 1536 + 1536), handshake_c2, retrieve b 1537, build_c0c1 rd ++ c1)
unfolding parse read_uint8
parse-c0c1 b rd c1 more v size u =
    rw (test_lt (readable_bytes b) (1 + 1536) (omega (arith, room (3 ∷ c1) more v u, size))) (
      rw (seen (3 ∷ c1) more v u)
        (rw (← size) (rw (read_bytes-append c1 (more ++ drop (readable_bytes b) (peek b))) refl)))

-- The client's answer to the server's.
parse-s0s1s2 :
    (b : BufferReader) (rd : Random) (s1 s2 more : List ℕ)
    → IsValid b
    → length s1 ≡ 1536
    → length s2 ≡ 1536
    → unread b ≡ ((3 ∷ s1) ++ s2) ++ more
    → parse handshake_s0s1s2 b rd
      ≡ some (count 1536, handshake_complete, retrieve b (1 + 1536 + 1536), s1)
unfolding parse read_uint8
parse-s0s1s2 b rd s1 s2 more v size size2 u =
    rw
      (test_lt (readable_bytes b) (1 + 1536 + 1536)
        (omega (arith, room ((3 ∷ s1) ++ s2) more v u, length-append (3 ∷ s1) s2, size, size2)))
      (rw (seen (3 ∷ s1) (s2 ++ more) v (u ∙ append_assoc (3 ∷ s1) s2 more)) (
        rw (← size)
          (rw (read_bytes-append s1 ((s2 ++ more) ++ drop (readable_bytes b) (peek b))) refl)))

parse-c2 :
    (b : BufferReader) (rd : Random) (c2 more : List ℕ)
    → IsValid b
    → length c2 ≡ 1536
    → unread b ≡ c2 ++ more
    → parse handshake_c2 b rd ≡ some (count 0, handshake_complete, retrieve b 1536, [])
unfolding parse
parse-c2 b rd c2 more v size u =
    rw (test_lt (readable_bytes b) 1536 (omega (arith, room c2 more v u, size))) refl

-- Three calls complete the handshake on both sides, whatever the random bytes are and whatever
-- follows in the buffers. A server whose buffer begins with what `BuildC0C1` made answers 3073
-- bytes, which end with the client's own 1536; a client whose buffer begins with that answer
-- completes and sends back the 1536 bytes behind the server's version byte; a server whose buffer
-- begins with those completes. Each call takes from its buffer just what it has answered.
pub exchange :
    (client server other : Random) (b : BufferReader) (more : List ℕ)
    → IsValid b
    → unread b ≡ build_c0c1 client ++ more
    → let answer = build_c0c1 server ++ c1_of client in
      (parse handshake_c0c1 b server ≡ some (count 3073, handshake_c2, retrieve b 1537, answer))
      × (unread (retrieve b 1537) ≡ more)
      × ((e : BufferReader) (behind : List ℕ)
          → IsValid e
          → unread e ≡ answer ++ behind
          → (parse handshake_s0s1s2 e other
              ≡ some (count 1536, handshake_complete, retrieve e 3073, c1_of server))
            × (unread (retrieve e 3073) ≡ behind))
      × ((d : BufferReader) (behind : List ℕ)
          → IsValid d
          → unread d ≡ c1_of server ++ behind
          → (parse handshake_c2 d other ≡ some (count 0, handshake_complete, retrieve d 1536, []))
            × (unread (retrieve d 1536) ≡ behind))
unfolding build_c0c1
exchange client server other b more v u = (
  unfold build_c0c1 in parse-c0c1 b server (c1_of client) more v (length-c1_of client) u,
  left (3 ∷ c1_of client) more v u 1537 (ap suc (length-c1_of client)),
  (λ e behind w t. (
    parse-s0s1s2 e other (c1_of server) (c1_of client) behind w (length-c1_of server)
        (length-c1_of client) t,
    left ((3 ∷ c1_of server) ++ c1_of client) behind w t 3073 (both server client),
  )),
  (λ d behind w t. (
    parse-c2 d other (c1_of server) behind w (length-c1_of server) t,
    left (c1_of server) behind w t 1536 (length-c1_of server),
  )),
)
  where
    both : (r s : Random) → length ((3 ∷ c1_of r) ++ c1_of s) ≡ 3073
    both r s = omega (arith, length-append (3 ∷ c1_of r) (c1_of s), length-c1_of r, length-c1_of s)
