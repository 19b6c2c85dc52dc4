-- ===== src/Rtmp/Server.antt =====
-- RtmpServer/RtmpServer.h, RtmpServer/RtmpServer.cpp and the settings of RtmpServer/Rtmp.h.
use cloud_assitant.Prelude.{
  ℕ, ◌+◌, List, [], ◌∷◌, ◌++◌, Option, none, some, Bool, true, false, ltb, leb, ◌==◌, ◌&&◌,
  if◌then◌else◌, list_eq,
}
use cloud_assitant.Rtmp.World.{Name, new_session, Entry, World, Action, ◌>>=◌, gets, modify}
use cloud_assitant.Rtmp.Session.{find_session, get_clients, get_publisher, session_at}

-- What `Rtmp` keeps of the settings.
pub record Rtmp : Type 0 where
  pub app : Name
  pub stream_name : Name
  pub stream_path : Name
  pub peer_bandwidth : ℕ
  pub acknowledgement_size : ℕ
  pub max_chunk_size : ℕ

abbrev pub settings : Rtmp
settings = record {
  app = [];
  stream_name = [];
  stream_path = [];
  peer_bandwidth = 5000000;
  acknowledgement_size = 5000000;
  max_chunk_size = 128;
}

unfoldable pub set_chunk_size : Rtmp → ℕ → Rtmp
set_chunk_size r size =
    if ltb 0 size && leb size 60000 then record r { max_chunk_size = size } else r

unfoldable pub set_peer_bandwidth : Rtmp → ℕ → Rtmp
set_peer_bandwidth r size = record r { peer_bandwidth = size }

-- `rtmp_sessions_.find`: the number of the session under a path.
unfoldable pub number_of : Name → List Entry → Option ℕ
number_of path [] = none
number_of path (e ∷ es) = if list_eq e.path path then some e.number else number_of path es

abbrev pub has_session : World → Name → Bool
has_session w path = elim (number_of path w.sessions) [ none ↦ false | some _ ↦ true ]

-- A new session under the path.
unfoldable pub create_session : Name → World → World
create_session path w = record w {
  sessions = record { path = path; number = w.next_session; session = new_session } ∷ w.sessions;
  next_session = w.next_session + 1;
}

unfoldable pub add_session : Name → World → World
unfolding number_of create_session
add_session path w = elim (number_of path w.sessions) [ none ↦ create_session path w | some _ ↦ w ]

unfoldable pub remove_session : Name → List Entry → List Entry
remove_session path [] = []
remove_session path (e ∷ es) = if list_eq e.path path then es else e ∷ remove_session path es

-- `GetSession` creates a session that is missing.
unfoldable pub get_session : Name → Action ℕ
unfolding number_of create_session
get_session path w = elim (number_of path w.sessions) [
  | some n ↦ some (n, w)
  | none ↦ some (w.next_session, create_session path w)
]

unfoldable pub has_publisher : Name → Action Bool
unfolding get_session get_publisher find_session
has_publisher path = do
  n ← get_session path
  s ← session_at n
  gets (λ w. elim (get_publisher w s) [ none ↦ false | some _ ↦ true ])

unfoldable pub notify_event : Name → Name → Action (Unit {0})
notify_event kind path = modify (λ w. record w { events = w.events ++ ((kind, path) ∷ []) })

-- The task that runs every three seconds.
unfoldable pub expire_sessions : World → List Entry → List Entry
unfolding get_clients
expire_sessions w [] = []
expire_sessions w (e ∷ es) =
    let rest = expire_sessions w es in
    if get_clients w e.session.rtmp_sinks == 0 then rest else e ∷ rest
