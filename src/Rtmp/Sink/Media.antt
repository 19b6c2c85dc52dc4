-- ===== src/Rtmp/Sink/Media.antt =====
-- `SendMediaData` of RtmpServer/RtmpConnection.cpp: what a player is sent, and when.
use cloud_assitant.Prelude.{
  ℕ, ◌^◌, ◌≤◌, ◌<◌, ◌≡◌, refl, ap, ◌∙◌, List, [], ◌∷◌, ◌++◌, some, Bool, true, false, ltb, ◌==◌,
  ◌||◌, if◌then◌else◌, length, arith,
}
use cloud_assitant.Rtmp.Message.{RtmpMessage, no_message}
use cloud_assitant.Rtmp.Chunk.Create.{create_chunk}
use cloud_assitant.Rtmp.World.{
  Header, RtmpConnection, World, pure, with_connection, with_connection-same, with_connection-again,
  bind-run, then-run, else-run, this-run, lift-run,
}
use cloud_assitant.Rtmp.Sink.{
  rtmp_avc_sequence_header, rtmp_aac_sequence_header, chunk_capacity, send_rtmp_chunks,
  send_media_message, send_playing, waits, send_media_data, media_stream, keep_header, is_header,
  is_key_frame,
}
use cloud_assitant.Rtmp.Sink.Bounds.{Agrees, send_rtmp_chunks-fits}

-- Media that may be sent: not empty, all there, and shorter than 2 ^ 24 bytes.
abbrev pub Playable : Header → Type 0
Playable h =
    (p : List ℕ) × (h.bytes ≡ some p) × (h.size ≤ length p) × (h.size < 2 ^ 24) × (0 < h.size)

-- The message for media.
abbrev pub media_message : RtmpConnection → ℕ → ℕ → Header → RtmpMessage
media_message c type_id timestamp h = record no_message {
  type_id = type_id;
  clock = timestamp;
  stream_id = c.stream_id;
  playload = h.bytes;
  lenght = h.size;
}

-- The connection before the test for a key frame.
abbrev pub playing : ℕ → Header → RtmpConnection → RtmpConnection
playing kind h c = keep_header kind h (record c { is_playing = true })

-- The chunks of the message for media are `bytes`.
abbrev pub Chunks : RtmpConnection → ℕ → ℕ → Header → List ℕ → Type 0
Chunks c kind timestamp h bytes =
    (type_id csid : ℕ) × (media_stream kind ≡ some (type_id, csid))
    × (create_chunk c.rtmp_chunk.out_chunk_size csid (media_message c type_id timestamp h)
          (chunk_capacity c (media_message c type_id timestamp h))
        ≡ some (some (bytes, record (media_message c type_id timestamp h) { lenght = 0 })))

-- A message sent.
abbrev pub with_sent : World → ℕ → List ℕ → World
with_sent w i bytes = record w { sent = w.sent ++ ((i, bytes) ∷ []) }

-- The kinds of media.
abbrev pub IsMedia : ℕ → Type 0
IsMedia kind = (type_id csid : ℕ) × (media_stream kind ≡ some (type_id, csid)) × (csid < 64)

module _ (w : World) (i : ℕ) (c : RtmpConnection) (kind timestamp : ℕ) (h : Header) where
  send_media_message-sends :
      w.connections i ≡ some c
      → c.is_closed ≡ false
      → Agrees c
      → IsMedia kind
      → Playable h
      → (bytes : List ℕ) × Chunks c kind timestamp h bytes
        × (send_media_message i kind timestamp h w ≡ some (true, with_sent w i bytes))
  unfolding send_media_message
  send_media_message-sends alive opened agrees (type_id, csid, e, low)
        (p, pe, pl, small, some_size) =
      let (bytes, made, _, sent) =
        send_rtmp_chunks-fits w i csid c (media_message c type_id timestamp h) alive opened agrees
          low (p, pe, pl, small) in
      (
        bytes,
        (type_id, csid, e, made),
        this-run _ w i alive (
            rw e (
              bind-run (send_rtmp_chunks i csid (media_message c type_id timestamp h))
                (λ _. pure true) {w = w} sent refl)),
      )

module _ (w : World) (i : ℕ) (c : RtmpConnection) (kind timestamp : ℕ) (h : Header)
    (alive : w.connections i ≡ some c) (opened : c.is_closed ≡ false) (some_size : 0 < h.size) where
  pub to_playing :
      send_media_data i kind timestamp h w ≡ send_playing i kind timestamp h (playing kind h c) w
  unfolding send_media_data
  to_playing =
      this-run _ w i alive
        (else-run _ _ w opened (else-run _ _ w (not_empty h.size some_size) refl))
    where
      not_empty : (n : ℕ) → 0 < n → (n == 0) ≡ false
      not_empty n k = ground arith

  keeps_header : is_header kind ≡ false → playing kind h c ≡ record c { is_playing = true }
  unfolding keep_header
  keeps_header plain =
      neither (kind == rtmp_avc_sequence_header) (kind == rtmp_aac_sequence_header) plain
    where
      neither :
          (a b : Bool)
          → (a || b) ≡ false
          → (if a
              then record c { is_playing = true; avc_sequence_header = h }
              else (if b
                  then record c { is_playing = true; aac_sequence_header = h }
                  else record c { is_playing = true }))
            ≡ record c { is_playing = true }
      neither true b e = cc
      neither false true e = cc
      neither false false e = refl

-- A player that waits for a key frame.
pub waits_shut :
    (c : RtmpConnection) (kind : ℕ)
    → c.has_key_frame ≡ false
    → 0 < c.avc_sequence_header.size
    → is_header kind ≡ false
    → waits c kind ≡ true
waits_shut c kind no_key header plain =
    rw no_key (rw plain (rw (some_size c.avc_sequence_header.size header) refl))
  where
    some_size : (n : ℕ) → 0 < n → ltb 0 n ≡ true
    some_size n h = ground arith

module _ (w : World) (i : ℕ) (c : RtmpConnection) (kind timestamp : ℕ) (h : Header)
    (opened : c.is_closed ≡ false) (agrees : Agrees c) (media : IsMedia kind)
    (playable : Playable h) where
  pub send_playing-sends :
      waits c kind ≡ false
      → (bytes : List ℕ) × Chunks c kind timestamp h bytes
        × (send_playing i kind timestamp h c w
            ≡ some (true, with_sent (with_connection w i c) i bytes))
  unfolding send_playing
  send_playing-sends gate =
      let (bytes, made, e) =
        send_media_message-sends (with_connection w i c) i c kind timestamp h
          (with_connection-same w i c) opened agrees media playable in
      (bytes, made, else-run _ _ (with_connection w i c) gate e)

  send_playing-skips :
      waits c kind ≡ true
      → is_key_frame h.bytes ≡ some false
      → send_playing i kind timestamp h c w ≡ some (true, with_connection w i c)
  unfolding send_playing
  send_playing-skips gate key =
      then-run _ _ (with_connection w i c) gate
        (lift-run _ (with_connection w i c) (is_key_frame h.bytes) key refl)

  send_playing-opens :
      waits c kind ≡ true
      → is_key_frame h.bytes ≡ some true
      → (bytes : List ℕ) × Chunks c kind timestamp h bytes
        × (send_playing i kind timestamp h c w
            ≡ some
                (true, with_sent (with_connection w i (record c { has_key_frame = true })) i bytes))
  unfolding send_playing
  send_playing-opens gate key =
      let keyed = record c { has_key_frame = true } in
      let w' = with_connection (with_connection w i c) i keyed in
      let (bytes, made, e) =
        send_media_message-sends w' i keyed kind timestamp h
          (with_connection-same (with_connection w i c) i keyed) opened agrees media playable in
      (
        bytes,
        made,
        then-run _ _ (with_connection w i c) gate (
            lift-run _ (with_connection w i c) (is_key_frame h.bytes) key
              (e ∙ ap (λ v. some (true, with_sent v i bytes)) (with_connection-again w i c keyed))),
      )

-- What a player that waits gets: the frame, if it is a key frame.
abbrev pub FrameSent : Bool → World → World → ℕ → RtmpConnection → ℕ → ℕ → Header → Type 0
FrameSent true w w' i c kind timestamp h =
    (bytes : List ℕ) × Chunks c kind timestamp h bytes × (w'.sent ≡ w.sent ++ ((i, bytes) ∷ []))
FrameSent false w w' i c kind timestamp h = w'.sent ≡ w.sent

-- `SendMediaData` to an open connection with a video header and without a key frame so far, whose
-- chunk stream has the connection's chunk size, for audio or video that is no sequence header, is
-- there, not empty and shorter than 2 ^ 24 bytes: a key frame goes out as the chunks of one message
-- and ends the waiting; anything else is not sent, and the connection goes on waiting.
pub send_media_data-waits :
    (w : World) (i : ℕ) (c : RtmpConnection) (kind timestamp : ℕ) (h : Header) (key : Bool)
    → w.connections i ≡ some c
    → c.is_closed ≡ false
    → Agrees c
    → c.has_key_frame ≡ false
    → 0 < c.avc_sequence_header.size
    → IsMedia kind
    → is_header kind ≡ false
    → Playable h
    → is_key_frame h.bytes ≡ some key
    → (w' : World) × (send_media_data i kind timestamp h w ≡ some (true, w'))
      × (w'.connections i ≡ some (record c { is_playing = true; has_key_frame = key }))
      × FrameSent key w w' i c kind timestamp h
send_media_data-waits w i c kind timestamp h key alive opened agrees no_key header media plain
      playable e =
    let (_, _, _, _, some_size) = playable in
    by_key key e (
      to_playing w i c kind timestamp h alive opened some_size
      ∙ ap (λ d. send_playing i kind timestamp h d w)
          (keeps_header w i c kind timestamp h alive opened some_size plain))
  where
    playing_now : RtmpConnection
    playing_now = record c { is_playing = true }

    gate : waits playing_now kind ≡ true
    gate = waits_shut playing_now kind no_key header plain

    by_key :
        (key : Bool)
        → is_key_frame h.bytes ≡ some key
        → send_media_data i kind timestamp h w ≡ send_playing i kind timestamp h playing_now w
        → (w' : World) × (send_media_data i kind timestamp h w ≡ some (true, w'))
          × (w'.connections i ≡ some (record c { is_playing = true; has_key_frame = key }))
          × FrameSent key w w' i c kind timestamp h
    by_key true ke start =
        let (bytes, made, sent) =
          send_playing-opens w i playing_now kind timestamp h opened agrees media playable gate
            ke in
        (
          _,
          start ∙ sent,
          with_connection-same w i (record playing_now { has_key_frame = true }),
          (bytes, made, refl),
        )
    by_key false ke start = (
      _,
      start
          ∙ send_playing-skips w i playing_now kind timestamp h opened agrees media playable gate
              ke,
      with_connection-same w i playing_now
          ∙ ap (λ b. some (record c { is_playing = true; has_key_frame = b })) no_key,
      refl,
    )
