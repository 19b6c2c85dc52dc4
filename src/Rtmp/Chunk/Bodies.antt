-- ===== src/Rtmp/Chunk/Bodies.antt =====
-- `Parse` of RtmpServer/RtmpChunk.cpp on the bodies of a message.
use cloud_assitant.Prelude.{
  ℕ, zero, suc, ◌+◌, ◌-◌, ◌%◌, ◌^◌, ◌≤◌, ◌<◌, ◌≡◌, refl, sym, ap, ap₂, ◌∙◌, inl, inr, List, [], ◌∷◌,
  ◌++◌, none, some, true, ltb, length, take, drop, arith, append-nil, append_assoc,
  drop-length-append, length-append, length-take, length-drop, Bool-cases, ltb→lt, take-append-drop,
  take-add, take_all, drop_all, take-length-append, drop-drop,
}
use native.Mathlib.Nat.{add-mod_right}
use cloud_assitant.Net.BufferReader.{BufferReader, readable_bytes, peek, retrieve}
use cloud_assitant.Net.BufferReader.Stream.{
  IsValid, unread, peek-unread, readable_bytes-length, retrieve-IsValid, unread-retrieve,
}
use cloud_assitant.Rtmp.Message.{RtmpMessage}
use cloud_assitant.Rtmp.Chunk.{
  parse_header, parse_body, RtmpChunk, message_at, message_at-put_message,
}
use cloud_assitant.Rtmp.Chunk.Parse.{used, extended, chunk_done, advance_clock, parse}
use cloud_assitant.Rtmp.Chunk.Create.{create_basic_header}
use cloud_assitant.Rtmp.Chunk.Steps.{
  in_body, in_header, filled, chunk_of, parse-next, parse-middle, parse-last,
}
use cloud_assitant.Rtmp.Chunk.Chunked.{chunked, chunked-long}

-- Calls of `Parse` that each use some bytes, with the messages that they hand over.
pub data Parses (c' : RtmpChunk) (b' : BufferReader)
    : RtmpChunk → BufferReader → List RtmpMessage → Type 0 where
  done : Parses c' b' c' b' []
  silent :
      {c d : RtmpChunk} {b e : BufferReader} {ms : List RtmpMessage} (n : ℕ)
      → 0 < n
      → parse c b ≡ some (used n, d, e, none)
      → Parses c' b' d e ms
      → Parses c' b' c b ms
  message :
      {c d : RtmpChunk} {b e : BufferReader} {ms : List RtmpMessage} {m : RtmpMessage} (n : ℕ)
      → 0 < n
      → parse c b ≡ some (used n, d, e, some m)
      → Parses c' b' d e ms
      → Parses c' b' c b (m ∷ ms)

-- The message that comes out of the message `m` of a stream once the payload `p` is complete.
abbrev pub completed : RtmpMessage → List ℕ → RtmpMessage
completed m p = advance_clock (record m { playload = some p; index = m.lenght })

-- What the parser has at the start of a body: the message `m` of its stream, with the payload's
-- memory `q` filled from `p` up to the index, which is a multiple of the chunk size.
pub record AtBody (c : RtmpChunk) (csid : ℕ) (m : RtmpMessage) (p q : List ℕ) : Type 0 where
  pub state : c.state ≡ parse_body
  pub stream : c.chunk_stream_id ≡ some csid
  pub here : message_at csid c.messages ≡ m
  pub own : m.playload ≡ some q
  pub named : m.csid ≡ csid
  pub past : m.timestamp < extended
  pub started : m.index < m.lenght
  pub lenght : m.lenght < 2 ^ 24
  pub whole : length p ≡ m.lenght
  pub room : length q ≡ m.lenght
  pub so_far : take m.index q ≡ take m.index p
  pub aligned : m.index % c.in_chunk_size ≡ 0

-- Where a body ends well.
abbrev pub Ends : RtmpChunk → BufferReader → RtmpMessage → List ℕ → Type 0
Ends c b m rest =
    (c' : RtmpChunk) × (b' : BufferReader) × Parses c' b' c b (m ∷ [])
    × (unread b' ≡ rest)
    × IsValid b'
    × (c'.state ≡ parse_header)

-- Whatever can be parsed from the second state can be parsed from the first.
abbrev Leads : RtmpChunk → BufferReader → RtmpChunk → BufferReader → Type 0
Leads c b d e =
    (c' : RtmpChunk) (b' : BufferReader) (ms : List RtmpMessage)
    → Parses c' b' d e ms
    → Parses c' b' c b ms

take_glue :
    (n k : ℕ) (p q back : List ℕ)
    → take n q ≡ take n p
    → n + k ≤ length p
    → take (n + k) (take n q ++ (take k (drop n p) ++ back)) ≡ take (n + k) p
take_glue n k p q back same h = rw same (
    rw (← append_assoc) (
      rw (← take-add) (
        ap (λ t. take t (take (n + k) p ++ back)) (omega (arith, length-take (n + k) p))
        ∙ take-length-append (take (n + k) p) back)))

module _ (c : RtmpChunk) (csid : ℕ) (m : RtmpMessage) (p q : List ℕ) (a : AtBody c csid m p q) where
  abbrev left : List ℕ
  left = drop m.index p

  length-left : length left ≡ m.lenght - m.index
  length-left = omega (arith, length-drop m.index p, a.whole)

  seen_first :
      {b : BufferReader} (bytes more : List ℕ)
      → IsValid b
      → unread b ≡ bytes ++ more
      → (peek b ≡ bytes ++ (more ++ drop (readable_bytes b) (peek b)))
        × (length bytes + length more ≡ readable_bytes b)
  seen_first {b} bytes more v u = (
    peek-unread v
        ∙ ap (λ t. t ++ drop (readable_bytes b) (peek b)) u
        ∙ append_assoc bytes more (drop (readable_bytes b) (peek b)),
    omega (arith, readable_bytes-length v, ap length u, length-append bytes more),
  )

  last_filled : filled m q left ≡ record m { playload = some p; index = m.lenght }
  last_filled = λ i. record m { playload = some (bytes i); index = count i }
    where
      bytes : take m.index q ++ (left ++ drop (m.index + length left) q) ≡ p
      bytes =
          rw (drop_all (m.index + length left) q (omega (arith, length-left, a.room, a.started)))
            (rw append-nil (rw a.so_far (take-append-drop m.index p)))

      count : m.index + length left ≡ m.lenght
      count = omega (arith, length-left, a.started)

  last_body :
      (b : BufferReader) (rest : List ℕ)
      → IsValid b
      → m.lenght - m.index ≤ c.in_chunk_size
      → unread b ≡ left ++ rest
      → Ends c b (completed m p) rest
  last_body b rest v small u =
      let (seen, room) = seen_first left rest v u in
      let (c', e, st) =
        parse-last c b csid m q left (rest ++ drop (readable_bytes b) (peek b)) a.here a.own a.room
          a.started a.lenght size seen (omega (arith, room)) over a.state a.stream
          (omega (arith, length-left, a.started)) (omega (arith, length-left, a.started)) in
      (
        c',
        retrieve b (length left),
        message (length left) (omega (arith, length-left, a.started))
            (e
              ∙ ap
                  (λ t.
                    some (used (length left), c', retrieve b (length left), some (advance_clock t)))
                  last_filled)
            done,
        unread-retrieve (length left) v ∙ rw u (drop-length-append left rest),
        retrieve-IsValid (length left) v,
        st,
      )
    where
      size : length left ≡ chunk_of c.in_chunk_size m
      size = ground (arith, length-left)

      over : chunk_done (m.index + length left) m.lenght c.in_chunk_size ≡ some true
      over = unfold chunk_done in ground (arith, length-left, a.started)

  abbrev piece : List ℕ
  piece = take c.in_chunk_size left

  -- A body that is not the last, and the header of the next.
  middle_body :
      (b : BufferReader) (more : List ℕ)
      → 0 < c.in_chunk_size
      → 2 ≤ csid
      → csid < 256
      → IsValid b
      → c.in_chunk_size < m.lenght - m.index
      → 0 < length more
      → unread b ≡ piece ++ (create_basic_header 3 csid ++ more)
      → (d : RtmpChunk) × (e : BufferReader) × Leads c b d e
        × (unread e ≡ more)
        × IsValid e
        × (q' : List ℕ) × AtBody d csid (filled m q piece) p q'
        × (d.in_chunk_size ≡ c.in_chunk_size)
  middle_body b more hk lo hi v big some_more u =
      let (seen, room) = seen_first piece (create_basic_header 3 csid ++ more) v u in
      let first =
        parse-middle c b csid m q piece
          ((create_basic_header 3 csid ++ more) ++ drop (readable_bytes b) (peek b)) a.here a.own
          a.room a.started a.lenght size seen (omega (arith, room)) over a.state a.stream
          (omega (arith, length-piece, hk)) (omega (arith, length-piece, big)) in
      let u1 : unread b1 ≡ create_basic_header 3 csid ++ more =
        unread-retrieve (length piece) v
        ∙ rw u (drop-length-append piece (create_basic_header 3 csid ++ more)) in
      let v1 : IsValid b1 = retrieve-IsValid (length piece) v in
      let (seen1, room1) = seen_first (create_basic_header 3 csid) more v1 u1 in
      let second =
        parse-next c1 b1 csid lo hi (more ++ drop (readable_bytes b1) (peek b1)) refl
          (ap (λ t. t.csid) here1 ∙ a.named)
          (λ z. absurd (omega (arith, length-piece, hk, sym (ap (λ t. t.index) here1) ∙ z)))
          (rw here1 a.past) seen1 (omega (arith, room1, some_more)) in
      (
        in_body c1 csid (message_at csid c1.messages),
        retrieve b1 (length (create_basic_header 3 csid)),
        (λ c' b' ms rest.
            silent (length piece) (omega (arith, length-piece, hk)) first
              (silent (length (create_basic_header 3 csid)) basic_pos second rest)),
        unread-retrieve (length (create_basic_header 3 csid)) v1
            ∙ rw u1 (drop-length-append (create_basic_header 3 csid) more),
        retrieve-IsValid (length (create_basic_header 3 csid)) v1,
        q',
        record {
          state = refl;
          stream = refl;
          here = message_at-put_message csid (message_at csid c1.messages) c1.messages ∙ here1;
          own = refl;
          named = a.named;
          past = a.past;
          started = omega (arith, length-piece, big);
          lenght = a.lenght;
          whole = a.whole;
          room = filled_room;
          so_far = filled_so_far;
          aligned = aligned';
        },
        refl,
      )
    where
      length-piece : length piece ≡ c.in_chunk_size
      length-piece = omega (arith, length-take c.in_chunk_size left, length-left, big)

      size : length piece ≡ chunk_of c.in_chunk_size m
      size = ground (arith, length-piece, big)

      aligned' : (m.index + length piece) % c.in_chunk_size ≡ 0
      aligned' = rw length-piece (add-mod_right m.index c.in_chunk_size ∙ a.aligned)

      over : chunk_done (m.index + length piece) m.lenght c.in_chunk_size ≡ some true
      over = unfold chunk_done in ground (arith, aligned', length-piece, big, hk)

      q' : List ℕ
      q' = take m.index q ++ (piece ++ drop (m.index + length piece) q)

      filled_so_far : take (m.index + length piece) q' ≡ take (m.index + length piece) p
      filled_so_far = rw length-piece (
          take_glue m.index c.in_chunk_size p q (drop (m.index + c.in_chunk_size) q) a.so_far
            (omega (arith, a.whole, big)))

      filled_room : length q' ≡ m.lenght
      filled_room = omega (
        arith,
        length-append (take m.index q) (piece ++ drop (m.index + length piece) q),
        length-append piece (drop (m.index + length piece) q),
        length-take m.index q,
        length-drop (m.index + length piece) q,
        length-piece,
        a.room,
        big,
      )

      c1 : RtmpChunk
      c1 = in_header c csid (filled m q piece)

      b1 : BufferReader
      b1 = retrieve b (length piece)

      here1 : message_at csid c1.messages ≡ filled m q piece
      here1 = message_at-put_message csid (filled m q piece) c.messages

      basic_pos : 0 < length (create_basic_header 3 csid)
      basic_pos = unfold create_basic_header in ground arith

pub all_bodies :
    (fuel : ℕ) (c : RtmpChunk) (csid : ℕ) (m : RtmpMessage) (p q : List ℕ) (b : BufferReader)
    (rest : List ℕ)
    → AtBody c csid m p q
    → 0 < c.in_chunk_size
    → 2 ≤ csid
    → csid < 256
    → IsValid b
    → m.lenght - m.index < fuel
    → unread b ≡ chunked fuel c.in_chunk_size csid (m.lenght - m.index) (drop m.index p) ++ rest
    → Ends c b (completed m p) rest
all_bodies zero c csid m p q b rest a hk lo hi v enough u = absurd (omega arith)
all_bodies (suc fuel) c csid m p q b rest a hk lo hi v enough u =
    elim (Bool-cases (ltb c.in_chunk_size (m.lenght - m.index))) [
      | inl more ↦
          let big = ltb→lt c.in_chunk_size (m.lenght - m.index) more in
          let (d, e, leads, ue, ve, q', a', same) =
            middle_body c csid m p q a b (behind ++ rest) hk lo hi v big (goes_on big)
              (regroup (rw more at u)) in
          let (c', b', parses, r, w, st) =
            all_bodies fuel d csid (filled m q (piece c csid m p q a)) p q' e rest a' (rw same hk)
              lo hi ve (fewer big) (ue ∙ ap (λ t. t ++ rest) (shifted d.in_chunk_size same big)) in
          (c', b', leads c' b' _ parses, r, w, st)
      | inr all ↦ last_body c csid m p q a b rest v (ground arith) (
          rw all at u
          ∙ ap (λ t. t ++ rest)
              (take_all (m.lenght - m.index) (drop m.index p)
                (omega (arith, length-left c csid m p q a))))
    ]
  where
    size : ℕ
    size = c.in_chunk_size

    behind : List ℕ
    behind = chunked fuel size csid (m.lenght - m.index - size) (drop size (drop m.index p))

    goes_on : size < m.lenght - m.index → 0 < length (behind ++ rest)
    goes_on big = omega (
      arith,
      length-append behind rest,
      chunked-long fuel size csid (m.lenght - m.index - size) (drop size (drop m.index p)) hk
          (omega (arith, enough, hk))
          (omega (arith, length-drop size (drop m.index p), length-left c csid m p q a)),
    )

    regroup :
        unread b ≡ (take size (drop m.index p) ++ (create_basic_header 3 csid ++ behind)) ++ rest
        → unread b ≡ take size (drop m.index p) ++ (create_basic_header 3 csid ++ (behind ++ rest))
    regroup w =
        w
        ∙ append_assoc (take size (drop m.index p)) (create_basic_header 3 csid ++ behind) rest
        ∙ ap (◌++◌ (take size (drop m.index p)))
            (append_assoc (create_basic_header 3 csid) behind rest)

    length-piece : size < m.lenght - m.index → length (piece c csid m p q a) ≡ size
    length-piece big =
        omega (arith, length-take size (drop m.index p), length-left c csid m p q a, big)

    fewer : size < m.lenght - m.index → m.lenght - (m.index + length (piece c csid m p q a)) < fuel
    fewer big = omega (arith, length-piece big, enough, hk)

    shifted :
        (k : ℕ)
        → k ≡ size
        → size < m.lenght - m.index
        → behind
          ≡ chunked fuel k csid
              (m.lenght - (m.index + length (piece c csid m p q a)))
              (drop (m.index + length (piece c csid m p q a)) p)
    shifted k same big =
        rw (same, length-piece big)
          (ap₂ (chunked fuel size csid) (omega arith) (drop-drop size m.index p))
