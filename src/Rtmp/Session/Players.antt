-- ===== src/Rtmp/Session/Players.antt =====
-- `SendMediaData` of RtmpServer/RtmpSession.cpp: what a player gets that has had nothing so far.
use cloud_assitant.Prelude.{
  ℕ, ◌≡◌, refl, ◌∙◌, List, [], ◌∷◌, ◌++◌, some, Bool, true, false, not, ◌&&◌, ltb, ap, arith,
}
use cloud_assitant.Rtmp.World.{
  Header, RtmpConnection, RtmpSession, World, with_connection-same, with_connection, bind-run,
  else-run,
}
use cloud_assitant.Rtmp.Sink.{
  rtmp_video, rtmp_audio, rtmp_avc_sequence_header, rtmp_aac_sequence_header, media_stream,
  keep_header, is_header, is_key_frame, waits,
}
use cloud_assitant.Rtmp.Sink
use cloud_assitant.Rtmp.Sink.Bounds.{Agrees}
use cloud_assitant.Rtmp.Sink.Media.{
  Playable, Chunks, IsMedia, FrameSent, with_sent, to_playing, send_playing-sends,
  send_media_data-waits,
}
use cloud_assitant.Rtmp.Session.{send_to_player}

avc-IsMedia : IsMedia rtmp_avc_sequence_header
unfolding media_stream
avc-IsMedia = (rtmp_video, 5, refl, omega arith)

aac-IsMedia : IsMedia rtmp_aac_sequence_header
unfolding media_stream
aac-IsMedia = (rtmp_audio, 4, refl, omega arith)

-- A sequence header does not wait.
aac_passes : (key header : Bool) → (not key && (header && false)) ≡ false
aac_passes true true = refl
aac_passes true false = refl
aac_passes false true = refl
aac_passes false false = refl

module _ (w : World) (i : ℕ) (c : RtmpConnection) (timestamp : ℕ) (h : Header)
    (alive : w.connections i ≡ some c) (opened : c.is_closed ≡ false) (agrees : Agrees c)
    (playable : Playable h) where
  abbrev with_aac : RtmpConnection
  with_aac = record c { is_playing = true; aac_sequence_header = h }

  abbrev with_avc : RtmpConnection
  with_avc = record c { is_playing = true; avc_sequence_header = h }

  sends_aac :
      (bytes : List ℕ) × Chunks c rtmp_aac_sequence_header timestamp h bytes
      × (Sink.send_media_data i rtmp_aac_sequence_header timestamp h w
          ≡ some (true, with_sent (with_connection w i with_aac) i bytes))
  unfolding keep_header
  sends_aac =
      let (_, _, _, _, some_size) = playable in
      let (bytes, made, e) =
        send_playing-sends w i with_aac rtmp_aac_sequence_header timestamp h opened agrees
          aac-IsMedia playable (aac_passes c.has_key_frame (ltb 0 c.avc_sequence_header.size)) in
      (
        bytes,
        made,
        to_playing w i c rtmp_aac_sequence_header timestamp h alive opened some_size ∙ e,
      )

  sends_avc :
      (bytes : List ℕ) × Chunks c rtmp_avc_sequence_header timestamp h bytes
      × (Sink.send_media_data i rtmp_avc_sequence_header timestamp h w
          ≡ some (true, with_sent (with_connection w i with_avc) i bytes))
  unfolding keep_header
  sends_avc =
      let (_, _, _, _, some_size) = playable in
      let (bytes, made, e) =
        send_playing-sends w i with_avc rtmp_avc_sequence_header timestamp h opened agrees
          avc-IsMedia playable (aac_passes c.has_key_frame (ltb 0 h.size)) in
      (
        bytes,
        made,
        to_playing w i c rtmp_avc_sequence_header timestamp h alive opened some_size ∙ e,
      )

-- A player that has been sent nothing, with an open connection whose chunk stream has the
-- connection's chunk size, of a session with both sequence headers: for audio or video that is no
-- sequence header it gets the audio header, then the video header, and then the frame, if it is a
-- key frame; without a key frame it goes on waiting for one. The headers and the frame are to be
-- there, not empty and shorter than 2 ^ 24 bytes.
pub send_to_player-fresh :
    (w : World) (i : ℕ) (c : RtmpConnection) (s : RtmpSession) (kind timestamp : ℕ) (h : Header)
    (key : Bool)
    → w.connections i ≡ some c
    → c.is_closed ≡ false
    → Agrees c
    → c.is_playing ≡ false
    → c.has_key_frame ≡ false
    → Playable s.aac_sequence_header
    → Playable s.avc_sequence_header
    → IsMedia kind
    → is_header kind ≡ false
    → Playable h
    → is_key_frame h.bytes ≡ some key
    → (audio video : List ℕ) × (w' : World) × (send_to_player s kind timestamp h i c w
        ≡ some (true, w'))
      × Chunks c rtmp_aac_sequence_header timestamp s.aac_sequence_header audio
      × Chunks c rtmp_avc_sequence_header timestamp s.avc_sequence_header video
      × FrameSent key (with_sent (with_sent w i audio) i video) w' i c kind timestamp h
unfolding send_to_player
send_to_player-fresh w i c s kind timestamp h key alive opened agrees idle no_key aac avc media
      plain playable e =
    let (audio, made_a, sent_a) =
      sends_aac w i c timestamp s.aac_sequence_header alive opened agrees aac in
    let c1 = record c { is_playing = true; aac_sequence_header = s.aac_sequence_header } in
    let w1 = with_sent (with_connection w i c1) i audio in
    let (video, made_v, sent_v) =
      sends_avc w1 i c1 timestamp s.avc_sequence_header (with_connection-same w i c1) opened agrees
        avc in
    let c2 = record c1 { avc_sequence_header = s.avc_sequence_header } in
    let w2 = with_sent (with_connection w1 i c2) i video in
    let (_, _, _, _, header) = avc in
    let (w', sent, _, frame) =
      send_media_data-waits w2 i c2 kind timestamp h key (with_connection-same w1 i c2) opened
        agrees no_key header media plain playable e in
    (
      audio,
      video,
      w',
      else-run _ _ w idle (
          bind-run (Sink.send_media_data i rtmp_aac_sequence_header timestamp s.aac_sequence_header)
            _ {w = w} sent_a
            (bind-run
              (Sink.send_media_data i rtmp_avc_sequence_header timestamp s.avc_sequence_header)
              (λ _. Sink.send_media_data i kind timestamp h) {w = w1} sent_v sent)),
      made_a,
      made_v,
      told key w' (with_sent (with_sent w i audio) i video) w2 c2 refl (λ _ x. x) frame,
    )
  where
    told :
        (key : Bool) (w' v1 v2 : World) (d : RtmpConnection)
        → v2.sent ≡ v1.sent
        → ((bytes : List ℕ) → Chunks d kind timestamp h bytes → Chunks c kind timestamp h bytes)
        → FrameSent key v2 w' i d kind timestamp h
        → FrameSent key v1 w' i c kind timestamp h
    told true w' v1 v2 d sent chunks (bytes, made, e) =
        (bytes, chunks bytes made, e ∙ ap (λ t. t ++ ((i, bytes) ∷ [])) sent)
    told false w' v1 v2 d sent chunks e = e ∙ sent
