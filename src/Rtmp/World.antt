-- ===== src/Rtmp/World.antt =====
-- The state that the RTMP server's objects share: RtmpServer/RtmpConnection.h,
-- RtmpServer/RtmpSession.h and RtmpServer/RtmpServer.h. Connections and sessions are named by numbers
-- in place of pointers.
use cloud_assitant.Prelude.{
  ℕ, List, [], Option, none, some, Bool, true, false, ◌==◌, if◌then◌else◌, ◌≡◌, refl, ap, ◌∙◌,
  arith, Holds,
}
use cloud_assitant.Rtmp.Handshake
use cloud_assitant.Rtmp.Chunk.{RtmpChunk}
use cloud_assitant.Rtmp.Amf.{AmfObjects}
use cloud_assitant.Rtmp.Amf.Decoder.{AmfDecoder}
use cloud_assitant.Rtmp.Amf.Encoder.{AmfEncoder}

-- The bytes of a path, an application's name or a stream's.
abbrev pub Name : Type 0
Name = List ℕ

pub data ConnectionState : Type 0 where
  handshaking start_connect start_create_stream start_delete_stream start_play start_publish :
      ConnectionState

-- A sequence header: a pointer that may be null, and the size that goes with it.
pub record Header : Type 0 where
  pub bytes : Option (List ℕ)
  pub size : ℕ

abbrev pub no_header : Header
no_header = record { bytes = none; size = 0 }

-- `session` is the weak pointer to the session.
pub record RtmpConnection : Type 0 where
  pub socket : ℕ
  pub is_closed : Bool
  pub state : ConnectionState
  pub handshake : Handshake.State
  pub rtmp_chunk : RtmpChunk
  pub session : Option ℕ
  pub peer_width : ℕ
  pub acknowledgement_size : ℕ
  pub max_chunk_size : ℕ
  pub stream_id : ℕ
  pub meta_data : AmfObjects
  pub amf_decoder : AmfDecoder
  pub amf_encoder : AmfEncoder
  pub is_playing : Bool
  pub is_publishing : Bool
  pub app : Name
  pub stream_name : Name
  pub stream_path : Name
  pub has_key_frame : Bool
  pub avc_sequence_header : Header
  pub aac_sequence_header : Header

-- `publisher` and the values of `rtmp_sinks` are weak pointers to connections; the keys are sockets.
pub record RtmpSession : Type 0 where
  pub has_publisher : Bool
  pub publisher : Option ℕ
  pub rtmp_sinks : List (ℕ × ℕ)
  pub avc_sequence_header : Header
  pub aac_sequence_header : Header

abbrev pub new_session : RtmpSession
new_session = record {
  has_publisher = false;
  publisher = none;
  rtmp_sinks = [];
  avc_sequence_header = no_header;
  aac_sequence_header = no_header;
}

-- A session of the server's map under its path, with the number of the object.
pub record Entry : Type 0 where
  pub path : Name
  pub number : ℕ
  pub session : RtmpSession

-- A connection that is `none` has been destroyed. `stream_id` is the counter that all `RtmpChunk`
-- share. `sent` are the bytes handed to `TcpConnection::Send` and `events` the calls of the event
-- callbacks, oldest first; `removals` are the tasks of `HandleDeleteStream` whose timer has not fired.
pub record World : Type 0 where
  pub connections : ℕ → Option RtmpConnection
  pub sessions : List Entry
  pub next_session : ℕ
  pub stream_id : ℕ
  pub sent : List (ℕ × List ℕ)
  pub events : List (Name × Name)
  pub removals : List (ℕ × ℕ)

-- A method call on the shared state. `none` is undefined behaviour.
abbrev pub Action : Type 0 → Type 0
Action A = World → Option (A × World)

abbrev pub pure : {A : Type 0} → A → Action A
pure a w = some (a, w)

abbrev pub fault : {A : Type 0} → Action A
fault w = none

infixl 5 ◌>>=◌ ◌>>◌
abbrev pub ◌>>=◌ : {A B : Type 0} → Action A → (A → Action B) → Action B
◌>>=◌ m f w = elim (m w) [ none ↦ none | some (a, w') ↦ f a w' ]

abbrev pub ◌>>◌ : {A B : Type 0} → Action A → Action B → Action B
m >> k = m >>= λ _. k

-- The result of a call that may be undefined.
abbrev pub lift : {A : Type 0} → Option A → Action A
lift none w = none
lift (some a) w = some (a, w)

-- A pointer to a connection that is alive.
abbrev pub this : ℕ → Action RtmpConnection
this i w = lift (w.connections i) w

-- The state after `put`.
abbrev pub with_connection : World → ℕ → RtmpConnection → World
with_connection w i c = record w { connections = λ j. if j == i then some c else w.connections j }

abbrev pub put : ℕ → RtmpConnection → Action (Unit {0})
put i c w = some (tt, with_connection w i c)

abbrev pub gets : {A : Type 0} → (World → A) → Action A
gets f w = some (f w, w)

abbrev pub modify : (World → World) → Action (Unit {0})
modify f w = some (tt, f w)

-- A run of two calls is a run of the first and one of the second.
pub bind-run :
    {A B : Type 0} (m : Action A) (f : A → Action B) {w w' : World} {a : A} {r : Option (B × World)}
    → m w ≡ some (a, w')
    → f a w' ≡ r
    → (m >>= f) w ≡ r
bind-run m f e k = ap (λ o. elim o [ none ↦ none | some (a, w') ↦ f a w' ]) e ∙ k

pub this-run :
    {B : Type 0} (f : RtmpConnection → Action B) (w : World) (i : ℕ) {c : RtmpConnection}
    {r : Option (B × World)}
    → w.connections i ≡ some c
    → f c w ≡ r
    → (this i >>= f) w ≡ r
this-run f w i e k = bind-run (this i) f {w = w} (ap (λ o. lift o w) e) k

pub lift-run :
    {A B : Type 0} (f : A → Action B) (w : World) (o : Option A) {a : A} {r : Option (B × World)}
    → o ≡ some a
    → f a w ≡ r
    → (lift o >>= f) w ≡ r
lift-run f w o e k = bind-run (lift o) f {w = w} (ap (λ p. lift p w) e) k

-- What holds of every result of a call's continuation.
pub bind-Holds :
    {A B : Type 0} (P : B × World → Type 0) (m : Action A) (f : A → Action B) (w : World)
    → ((a : A) (w' : World) → Holds P (f a w'))
    → Holds P ((m >>= f) w)
bind-Holds {A = A} P m f w k = at (m w)
  where
    at : (o : Option (A × World)) → Holds P (elim o [ none ↦ none | some (a, w') ↦ f a w' ])
    at none = tt
    at (some (a, w')) = k a w'

pub lift-Holds :
    {A B : Type 0} (Q : A → Type 0) (P : B × World → Type 0) (o : Option A) (f : A → Action B)
    (w : World)
    → Holds Q o
    → ((a : A) → Q a → Holds P (f a w))
    → Holds P ((lift o >>= f) w)
lift-Holds Q P none f w q k = tt
lift-Holds Q P (some a) f w q k = k a q

pub if-run-Holds :
    {B : Type 0} (P : B × World → Type 0) (b : Bool) (f g : Action B) (w : World)
    → Holds P (f w)
    → Holds P (g w)
    → Holds P ((if b then f else g) w)
if-run-Holds P true f g w k l = k
if-run-Holds P false f g w k l = l

pub then-run :
    {B : Type 0} (f g : Action B) (w : World) {b : Bool} {r : Option (B × World)}
    → b ≡ true
    → f w ≡ r
    → (if b then f else g) w ≡ r
then-run f g w e k = ap (λ b. (if b then f else g) w) e ∙ k

pub else-run :
    {B : Type 0} (f g : Action B) (w : World) {b : Bool} {r : Option (B × World)}
    → b ≡ false
    → g w ≡ r
    → (if b then f else g) w ≡ r
else-run f g w e k = ap (λ b. (if b then f else g) w) e ∙ k

pub with_connection-same :
    (w : World) (i : ℕ) (c : RtmpConnection) → (with_connection w i c).connections i ≡ some c
with_connection-same w i c = rw (own i) refl
  where
    own : (n : ℕ) → (n == n) ≡ true
    own n = ground arith

pub with_connection-again :
    (w : World) (i : ℕ) (c d : RtmpConnection)
    → with_connection (with_connection w i c) i d ≡ with_connection w i d
with_connection-again w i c d =
    λ k. record w { connections = λ j. only (j == i) (w.connections j) k }
  where
    only :
        (b : Bool) (o : Option RtmpConnection)
        → (if b then some d else (if b then some c else o)) ≡ (if b then some d else o)
    only true o = refl
    only false o = refl
