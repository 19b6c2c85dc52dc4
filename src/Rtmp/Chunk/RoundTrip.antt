-- ===== src/Rtmp/Chunk/RoundTrip.antt =====
-- What `CreateChunk` of RtmpServer/RtmpChunk.cpp writes, `Parse` reads back.
use cloud_assitant.Prelude.{
  ℕ, suc, ◌+◌, ◌%◌, ◌^◌, ◌≤◌, ◌<◌, ◌≡◌, refl, sym, ap, ◌∙◌, List, [], ◌++◌, none, some, false, ltb,
  ◌==◌, length, drop, arith, append_assoc, drop-length-append, length-append,
}
use native.Mathlib.Nat.{zero-mod}
use cloud_assitant.Net.BufferReader.{BufferReader, readable_bytes, peek, retrieve}
use cloud_assitant.Net.BufferReader.Stream.{
  IsValid, unread, peek-unread, readable_bytes-length, retrieve-IsValid, unread-retrieve,
}
use cloud_assitant.Rtmp.Message.{RtmpMessage}
use cloud_assitant.Rtmp.Chunk.{parse_header, RtmpChunk, message_at, message_at-put_message}
use cloud_assitant.Rtmp.Chunk.Parse.{extended, advance_clock}
use cloud_assitant.Rtmp.Chunk.Create.{
  create_basic_header, create_message_header, create_loop, payload_of, capacity, create_chunk,
}
use cloud_assitant.Rtmp.Chunk.Headers.{IsSized, Fits, length-create_message_header}
use cloud_assitant.Rtmp.Chunk.Steps.{started, in_body, parse-first}
use cloud_assitant.Rtmp.Chunk.Chunked.{chunked, no_extension, create_loop-chunked}
use cloud_assitant.Rtmp.Chunk.Bodies.{silent, completed, Ends, all_bodies}

-- All that is written for a message of the payload `p`.
abbrev pub written : ℕ → ℕ → RtmpMessage → List ℕ → List ℕ
written size csid m p =
    create_basic_header 0 csid
    ++ (create_message_header 0 m ++ chunked (suc m.lenght) size csid m.lenght p)

create_chunk_lem :
    (size csid : ℕ) (m : RtmpMessage) (buf_size : ℕ) (p : List ℕ)
    → 0 < size
    → 0 < m.lenght
    → m.clock < extended
    → m.playload ≡ some p
    → length p ≡ m.lenght
    → capacity size m ≤ buf_size
    → create_chunk size csid m buf_size
      ≡ some (some (written size csid m p, record m { lenght = 0 }))
unfolding create_chunk
create_chunk_lem size csid m buf_size p hs hl hc own whole room =
    rw (some_size size hs)
      (rw (enough buf_size (capacity size m) room) (rw loop (rw (no_extension m hc) refl)))
  where
    some_size : (n : ℕ) → 0 < n → (n == 0) ≡ false
    some_size n h = ground arith

    enough : (n k : ℕ) → k ≤ n → ltb n k ≡ false
    enough n k h = ground arith

    loop :
        create_loop (suc m.lenght) size csid m m.lenght (payload_of m)
        ≡ some (chunked (suc m.lenght) size csid m.lenght p)
    loop =
        ap
          (λ q. create_loop (suc m.lenght) size csid m m.lenght (elim q [ none ↦ [] | some t ↦ t ]))
          own
        ∙ create_loop-chunked (suc m.lenght) size csid m m.lenght p hc hs hl (omega arith)
            (omega (arith, whole))

completed_lem :
    (m : RtmpMessage) (p : List ℕ)
    → m.timestamp < extended
    → completed m p
      ≡ record m { playload = some p; index = m.lenght; clock = (m.clock + m.timestamp) % 2 ^ 64 }
unfolding advance_clock
completed_lem m p h = ground arith

-- Parsing leads to the message `m` with payload `p`, and leaves `rest` unread.
abbrev pub Receives : RtmpChunk → BufferReader → RtmpMessage → List ℕ → List ℕ → Type 0
Receives c b m p rest =
    (out : RtmpMessage) × Ends c b out rest
    × (out.playload ≡ some p)
    × (out.lenght ≡ m.lenght)
    × (out.type_id ≡ m.type_id)
    × (out.stream_id ≡ m.stream_id)
    × (out.clock ≡ m.clock)

module _ (c : RtmpChunk) (csid buf_size : ℕ) (m : RtmpMessage) (p : List ℕ)
    (hk : 0 < c.in_chunk_size) (lo : 2 ≤ csid) (hi : csid < 256) (f : Fits m) (hl : 0 < m.lenght)
    (own : m.playload ≡ some p) (whole : length p ≡ m.lenght) (st : c.state ≡ parse_header)
    (sized : IsSized (message_at csid c.messages))
    (past : (message_at csid c.messages).timestamp < extended) where
  -- For every message whose fields fit the header, with a time stamp below 0xffffff and a payload
  -- that is not empty, every chunk stream from 2 to 255 and every chunk size but 0, with room for
  -- the payload `CreateChunk` succeeds. A parser with the same chunk size that stands at a header,
  -- whose previous message of the stream has no extended time stamp and memory of its own length,
  -- and that reads a buffer whose unread bytes begin with those written, hands over exactly one
  -- message after finitely many calls, each of which uses bytes: it has the payload, the length,
  -- the type, the stream id and the time stamp that were written. What follows is left unread, and
  -- the parser stands at a header again.
  pub parse-create :
      capacity c.in_chunk_size m ≤ buf_size
      → (bytes : List ℕ) × (create_chunk c.in_chunk_size csid m buf_size
          ≡ some (some (bytes, record m { lenght = 0 })))
        × ((b : BufferReader) (rest : List ℕ)
            → IsValid b
            → unread b ≡ bytes ++ rest
            → Receives c b m p rest)
  parse-create room = (
    written c.in_chunk_size csid m p,
    create_chunk_lem c.in_chunk_size csid m buf_size p hk hl f.clock own whole room,
    λ b rest v u. received b rest v u,
  )
    where
      body : List ℕ
      body = chunked (suc m.lenght) c.in_chunk_size csid m.lenght p

      header : List ℕ
      header = create_message_header 0 m

      basic : List ℕ
      basic = create_basic_header 0 csid

      received :
          (b : BufferReader) (rest : List ℕ)
          → IsValid b
          → unread b ≡ (basic ++ (header ++ body)) ++ rest
          → Receives c b m p rest
      received b rest v u =
          let (q, first, size) =
            parse-first c b csid lo hi m ((body ++ rest) ++ drop (readable_bytes b) (peek b)) f st
              sized past seen (omega (arith, count)) in
          let (c', b', parses, r, w, s) =
            all_bodies (suc m.lenght) (after q) csid (begun q) p q behind rest
              (record {
                state = refl;
                stream = refl;
                here = message_at-put_message csid (begun q) c.messages;
                own = refl;
                named = refl;
                past = f.clock;
                started = hl;
                lenght = f.lenght;
                whole = whole;
                room = size;
                so_far = refl;
                aligned = zero-mod c.in_chunk_size;
              })
              hk lo hi (retrieve-IsValid start v) (omega arith)
              (left
                ∙ ap (λ n. chunked (suc m.lenght) c.in_chunk_size csid n p ++ rest)
                    (omega arith)) in
          let same = completed_lem (begun q) p f.clock in
          (
            completed (begun q) p,
            (c', b', silent start (omega arith) first parses, r, w, s),
            ap (λ t. t.playload) same,
            ap (λ t. t.lenght) same,
            ap (λ t. t.type_id) same,
            ap (λ t. t.stream_id) same,
            ap (λ t. t.clock) same ∙ omega (arith, f.clock),
          )
        where
          start : ℕ
          start = length basic + 11

          begun : List ℕ → RtmpMessage
          begun q = started (message_at csid c.messages) m q csid

          after : List ℕ → RtmpChunk
          after q = in_body c csid (begun q)

          behind : BufferReader
          behind = retrieve b start

          joined : unread b ≡ basic ++ (header ++ (body ++ rest))
          joined =
              u
              ∙ append_assoc basic (header ++ body) rest
              ∙ ap (◌++◌ basic) (append_assoc header body rest)

          seen : peek b ≡ basic ++ (header ++ ((body ++ rest) ++ drop (readable_bytes b) (peek b)))
          seen =
              peek-unread v
              ∙ ap (λ t. t ++ drop (readable_bytes b) (peek b)) joined
              ∙ append_assoc basic (header ++ (body ++ rest)) (drop (readable_bytes b) (peek b))
              ∙ ap (◌++◌ basic)
                  (append_assoc header (body ++ rest) (drop (readable_bytes b) (peek b)))

          count : start + length (body ++ rest) ≡ readable_bytes b
          count = omega (
            arith,
            readable_bytes-length v,
            ap length joined,
            length-create_message_header m,
            length-append basic (header ++ (body ++ rest)),
            length-append header (body ++ rest),
          )

          left : unread behind ≡ body ++ rest
          left =
              unread-retrieve start v
              ∙ ap (drop start) (joined ∙ sym (append_assoc basic header (body ++ rest)))
              ∙ ap (λ n. drop n ((basic ++ header) ++ (body ++ rest)))
                  (omega (arith, length-append basic header, length-create_message_header m))
              ∙ drop-length-append (basic ++ header) (body ++ rest)
