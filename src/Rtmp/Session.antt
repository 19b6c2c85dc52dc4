-- ===== src/Rtmp/Session.antt =====
-- RtmpServer/RtmpSession.h and RtmpServer/RtmpSession.cpp. The lock is held during every operation.
pub mod Players
use cloud_assitant.Prelude.{
  ℕ, zero, suc, ◌+◌, List, [], ◌∷◌, ◌++◌, Option, none, some, Bool, true, false, ◌==◌, not,
  if◌then◌else◌, list_eq,
}
use cloud_assitant.Rtmp.World.{
  Name, ConnectionState, start_play, start_publish, Header, no_header, RtmpConnection, RtmpSession,
  new_session, Entry, World, Action, pure, fault, ◌>>=◌, ◌>>◌, lift, this, gets, modify,
}
use cloud_assitant.Rtmp.Sink
use cloud_assitant.Rtmp.Sink.{rtmp_aac_sequence_header, rtmp_avc_sequence_header}

-- The session with number `n`, as long as the server keeps it.
unfoldable pub find_session : ℕ → List Entry → Option RtmpSession
find_session n [] = none
find_session n (e ∷ es) = if e.number == n then some e.session else find_session n es

unfoldable pub set_session : ℕ → RtmpSession → List Entry → List Entry
set_session n s [] = []
set_session n s (e ∷ es) =
    if e.number == n then record e { session = s } ∷ es else e ∷ set_session n s es

abbrev pub session_at : ℕ → Action RtmpSession
session_at n w = lift (find_session n w.sessions) w

abbrev pub put_session : ℕ → RtmpSession → Action (Unit {0})
put_session n s = modify (λ w. record w { sessions = set_session n s w.sessions })

unfoldable pub set_avc_sequence_header : ℕ → Header → Action (Unit {0})
unfolding find_session set_session
set_avc_sequence_header n h = do
  s ← session_at n
  put_session n (record s { avc_sequence_header = h })

unfoldable pub set_aac_sequence_header : ℕ → Header → Action (Unit {0})
unfolding find_session set_session
set_aac_sequence_header n h = do
  s ← session_at n
  put_session n (record s { aac_sequence_header = h })

abbrev pub is_player : ConnectionState → Bool
is_player start_play = true
is_player _ = false

abbrev pub is_publisher : ConnectionState → Bool
is_publisher start_publish = true
is_publisher _ = false

-- `rtmp_sinks_[key] = sink`
unfoldable pub set_sink : ℕ → ℕ → List (ℕ × ℕ) → List (ℕ × ℕ)
set_sink key i [] = (key, i) ∷ []
set_sink key i ((k, j) ∷ m) = if k == key then (k, i) ∷ m else (k, j) ∷ set_sink key i m

unfoldable pub erase_sink : ℕ → List (ℕ × ℕ) → List (ℕ × ℕ)
erase_sink key [] = []
erase_sink key ((k, j) ∷ m) = if k == key then m else (k, j) ∷ erase_sink key m

-- What `AddSink` makes of the session for the sink `i`, whose connection is `c`.
unfoldable pub with_sink : ℕ → RtmpConnection → RtmpSession → RtmpSession
unfolding set_sink
with_sink i c s =
    let s' = record s { rtmp_sinks = set_sink c.socket i s.rtmp_sinks } in
    if is_publisher c.state
    then record s' {
      avc_sequence_header = no_header;
      aac_sequence_header = no_header;
      has_publisher = true;
      publisher = some i;
    }
    else s'

unfoldable pub add_sink : ℕ → ℕ → Action (Unit {0})
unfolding find_session set_session with_sink
add_sink n i = do c ← this i; s ← session_at n; put_session n (with_sink i c s)

-- What `RemoveSink` makes of the session; the weak pointer to the publisher stays.
unfoldable pub without_sink : RtmpConnection → RtmpSession → RtmpSession
unfolding erase_sink
without_sink c s =
    let s' = record s { rtmp_sinks = erase_sink c.socket s.rtmp_sinks } in
    if is_publisher c.state
    then record s' {
      avc_sequence_header = no_header;
      aac_sequence_header = no_header;
      has_publisher = false;
    }
    else s'

unfoldable pub remove_sink : ℕ → ℕ → Action (Unit {0})
unfolding find_session set_session without_sink
remove_sink n i = do c ← this i; s ← session_at n; put_session n (without_sink c s)

abbrev pub is_alive : World → ℕ → Bool
is_alive w i = elim (w.connections i) [ none ↦ false | some _ ↦ true ]

unfoldable pub get_clients : World → List (ℕ × ℕ) → ℕ
get_clients w [] = 0
get_clients w ((k, i) ∷ m) = let rest = get_clients w m in if is_alive w i then rest + 1 else rest

unfoldable pub get_publisher : World → RtmpSession → Option ℕ
get_publisher w s = elim s.publisher [
  | none ↦ none
  | some i ↦ if is_alive w i then some i else none
]

-- The loop of `SendMetaData`, which gives the sinks that stay: those whose connection is alive.
unfoldable pub meta_data_loop : List (ℕ × ℕ) → Action (List (ℕ × ℕ))
unfolding Sink.send_meta_data
meta_data_loop [] = pure []
meta_data_loop ((k, i) ∷ m) = do
  conn ← gets (λ w. w.connections i)
  elim conn [
    | none ↦ meta_data_loop m
    | some c ↦ do
      (if is_player c.state then Sink.send_meta_data i else pure true)
      rest ← meta_data_loop m
      pure ((k, i) ∷ rest)
  ]

unfoldable pub send_meta_data : ℕ → Action (Unit {0})
unfolding find_session set_session meta_data_loop
send_meta_data n = do
  s ← session_at n
  sinks ← meta_data_loop s.rtmp_sinks
  put_session n (record s { rtmp_sinks = sinks })

-- What one sink is sent: a player that has had nothing gets the sequence headers first.
unfoldable pub send_to_player : RtmpSession → ℕ → ℕ → Header → ℕ → RtmpConnection → Action Bool
unfolding Sink.send_media_data
send_to_player s kind timestamp h i c =
    if c.is_playing then Sink.send_media_data i kind timestamp h else (do
      Sink.send_media_data i rtmp_aac_sequence_header timestamp s.aac_sequence_header
      Sink.send_media_data i rtmp_avc_sequence_header timestamp s.avc_sequence_header
      Sink.send_media_data i kind timestamp h)

-- The loop of `SendMediaData`, which gives the sinks that stay.
unfoldable pub media_loop : RtmpSession → ℕ → ℕ → Header → List (ℕ × ℕ) → Action (List (ℕ × ℕ))
unfolding send_to_player
media_loop s kind timestamp h [] = pure []
media_loop s kind timestamp h ((k, i) ∷ m) = do
  conn ← gets (λ w. w.connections i)
  elim conn [
    | none ↦ media_loop s kind timestamp h m
    | some c ↦ do
      (if is_player c.state then send_to_player s kind timestamp h i c else pure true)
      rest ← media_loop s kind timestamp h m
      pure ((k, i) ∷ rest)
  ]

unfoldable pub send_media_data : ℕ → ℕ → ℕ → Header → Action (Unit {0})
unfolding find_session set_session media_loop
send_media_data n kind timestamp h = do
  s ← session_at n
  sinks ← media_loop s kind timestamp h s.rtmp_sinks
  put_session n (record s { rtmp_sinks = sinks })
