-- ===== src/Rtmp/Connection/Taken.antt =====
-- What is left of a publisher of RtmpServer/RtmpConnection.cpp that has deleted its stream.
use cloud_assitant.Prelude.{
  ℕ, ◌≡◌, ◌≢◌, refl, sym, ap, ◌∙◌, inl, inr, List, [], ◌∷◌, ◌++◌, none, some, Bool, true, false,
  ◌==◌, list_eq, if◌then◌else◌, Bool-cases, text,
}
use cloud_assitant.Rtmp.Chunk.{clear_messages}
use cloud_assitant.Rtmp.World.{
  Name, RtmpConnection, RtmpSession, Entry, World, Action, pure, with_connection,
  with_connection-same, bind-run, this-run, else-run,
}
use cloud_assitant.Rtmp.Session.{
  find_session, set_session, is_publisher, session_at, without_sink, remove_sink, get_publisher,
}
use cloud_assitant.Rtmp.Server.{number_of, get_session, has_publisher, notify_event}
use cloud_assitant.Rtmp.Connection.{lock_session}
use cloud_assitant.Rtmp.Connection.Play.{leave_session, handle_delete_stream, fire_removal}

find_session-set_session :
    (n : ℕ) (s t : RtmpSession) (es : List Entry)
    → find_session n es ≡ some s
    → find_session n (set_session n t es) ≡ some t
unfolding find_session set_session
find_session-set_session n s t [] h = cc
find_session-set_session n s t (e ∷ es) h = elim (Bool-cases (e.number == n)) [
  | inl own ↦ rw own (rw own refl)
  | inr other ↦ rw other (
      rw other (
        find_session-set_session n s t es
          (ap (λ b. if b then some e.session else find_session n es) (sym other) ∙ h)))
]

number_of-set_session :
    (path : Name) (n : ℕ) (t : RtmpSession) (es : List Entry)
    → number_of path (set_session n t es) ≡ number_of path es
unfolding number_of set_session
number_of-set_session path n t [] = refl
number_of-set_session path n t (e ∷ es) = elim (Bool-cases (e.number == n)) [
  | inl own ↦ rw own refl
  | inr other ↦ rw other (
      ap (λ o. if list_eq e.path path then some e.number else o)
        (number_of-set_session path n t es))
]

publisher_stays :
    (c : RtmpConnection) (s : RtmpSession) → (without_sink c s).publisher ≡ s.publisher
unfolding without_sink
publisher_stays c s = elim (Bool-cases (is_publisher c.state)) [
  | inl e ↦ rw e refl
  | inr e ↦ rw e refl
]

get_session-there :
    (w : World) (n : ℕ) (path : Name)
    → number_of path w.sessions ≡ some n
    → get_session path w ≡ some (n, w)
unfolding get_session
get_session-there w n path number = rw (get_session, number) refl

session_at-there :
    (w : World) (n : ℕ) (s : RtmpSession)
    → find_session n w.sessions ≡ some s
    → session_at n w ≡ some (s, w)
session_at-there w n s found = rw found refl

publisher_alive :
    (w : World) (i : ℕ) (c : RtmpConnection) (s : RtmpSession)
    → s.publisher ≡ some i
    → w.connections i ≡ some c
    → get_publisher w s ≡ some i
unfolding get_publisher
publisher_alive w i c s publisher alive =
    rw (get_publisher, publisher)
      (rw (ap (λ o. elim o as (λ _. Bool) [ none ↦ false | some _ ↦ true ]) alive) refl)

-- The path of a session whose publisher is alive is taken.
has_publisher-alive :
    (w : World) (i n : ℕ) (path : Name) (c : RtmpConnection) (s : RtmpSession)
    → number_of path w.sessions ≡ some n
    → find_session n w.sessions ≡ some s
    → s.publisher ≡ some i
    → w.connections i ≡ some c
    → has_publisher path w ≡ some (true, w)
unfolding has_publisher
has_publisher-alive w i n path c s number found publisher alive =
    bind-run (get_session path) _ {w = w} (get_session-there w n path number) (
      bind-run (session_at n) _ {w = w} (session_at-there w n s found)
        (rw (publisher_alive w i c s publisher alive) refl))

removes :
    (w : World) (i n : ℕ) (c : RtmpConnection) (s : RtmpSession)
    → w.connections i ≡ some c
    → find_session n w.sessions ≡ some s
    → fire_removal ((n, i) ∷ []) w
      ≡ some
          (tt, record w { removals = []; sessions = set_session n (without_sink c s) w.sessions })
unfolding fire_removal remove_sink
removes w i n c s alive found =
    ap
      (λ o.
        (elim o as (λ _. Action (Unit {0})) [ none ↦ pure tt | some _ ↦ remove_sink n i ])
          (record w { removals = [] }))
      found
    ∙ (this-run _ (record w { removals = [] }) i alive
        (bind-run (session_at n) _ {w = record w { removals = [] }}
          (session_at-there (record w { removals = [] }) n s found) refl))

module _ (w : World) (i n : ℕ) (c : RtmpConnection) where
  locks :
      (s : RtmpSession)
      → w.connections i ≡ some c
      → c.session ≡ some n
      → find_session n w.sessions ≡ some s
      → lock_session i w ≡ some (some n, w)
  locks s alive session found = this-run _ w i alive (rw session (rw found refl))

  leaves :
      (events : List (Name × Name)) × (leave_session i c (some n) w
        ≡ some (tt, record w { removals = w.removals ++ ((n, i) ∷ []); events = events }))
  unfolding leave_session notify_event
  leaves = by_flags c.is_publishing c.is_playing
    where
      by_flags :
          (a b : Bool)
          → (events : List (Name × Name)) × ((if a
                  then notify_event (text "publish,stop") c.stream_path
                  else (if b then notify_event (text "play.stop") c.stream_path else pure tt))
                (record w { removals = w.removals ++ ((n, i) ∷ []) })
              ≡ some (tt, record w { removals = w.removals ++ ((n, i) ∷ []); events = events }))
      by_flags true b = (_, refl)
      by_flags false true = (_, refl)
      by_flags false false = (_, refl)

  -- The connection without its stream.
  idle : RtmpConnection
  idle = record c {
    is_playing = false;
    is_publishing = false;
    has_key_frame = false;
    rtmp_chunk = clear_messages c.rtmp_chunk;
  }

  deletes :
      (s : RtmpSession)
      → w.connections i ≡ some c
      → c.session ≡ some n
      → find_session n w.sessions ≡ some s
      → list_eq c.stream_path [] ≡ false
      → (events : List (Name × Name)) × (handle_delete_stream true i w
          ≡ some (
            true,
            with_connection
                (record w { removals = w.removals ++ ((n, i) ∷ []); events = events })
                i
                idle,
          ))
  unfolding handle_delete_stream idle
  deletes s alive session found path =
      let (events, e) = leaves in
      (
        events,
        this-run _ w i alive (
            else-run _ _ w path (
              bind-run (lock_session i) _ {w = w} (locks s alive session found)
                (bind-run (leave_session i c (some n)) _ {w = w} e refl))),
      )

-- A connection that is the publisher of the session of its path, and deletes its stream while no
-- other removal waits: `DeleteStream` succeeds and the timer takes it out of the session, but right
-- after that, before `RtmpServer` next drops its empty sessions, the path still counts as published.
pub delete_stream-taken :
    (w : World) (i n : ℕ) (c : RtmpConnection) (s : RtmpSession)
    → w.connections i ≡ some c
    → c.session ≡ some n
    → c.stream_path ≢ []
    → find_session n w.sessions ≡ some s
    → s.publisher ≡ some i
    → number_of c.stream_path w.sessions ≡ some n
    → w.removals ≡ []
    → (w' w'' : World) × (handle_delete_stream true i w ≡ some (true, w'))
      × (fire_removal w'.removals w' ≡ some (tt, w''))
      × (has_publisher c.stream_path w'' ≡ some (true, w''))
unfolding list_eq
delete_stream-taken w i n c s alive session path found publisher number empty =
    let (events, e) = deletes w i n c s alive session found (not_empty c.stream_path path) in
    let after =
      with_connection (record w { removals = w.removals ++ ((n, i) ∷ []); events = events }) i
        (idle w i n c) in
    let left = without_sink (idle w i n c) s in
    let last = record after { removals = []; sessions = set_session n left w.sessions } in
    (
      after,
      last,
      e,
      ap (λ r. fire_removal (r ++ ((n, i) ∷ [])) after) empty
          ∙ removes after i n (idle w i n c) s (with_connection-same w i (idle w i n c)) found,
      has_publisher-alive last i n c.stream_path (idle w i n c) left
          (number_of-set_session c.stream_path n left w.sessions ∙ number)
          (find_session-set_session n s left w.sessions found)
          (publisher_stays (idle w i n c) s ∙ publisher) (with_connection-same w i (idle w i n c)),
    )
  where
    not_empty : (xs : List ℕ) → xs ≢ [] → list_eq xs [] ≡ false
    not_empty [] h = absurd (h refl)
    not_empty (x ∷ xs) h = refl
