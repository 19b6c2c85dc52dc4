-- ===== src/Sig/Connection.antt =====
-- SigServer/SigConnection.h and SigServer/SigConnection.cpp. All connections of the server and the
-- directory are one state, and each operation says whose it is. `none` is undefined behaviour.
pub mod Settles
pub mod Registered
pub mod Streams
pub mod Closing
use cloud_assitant.Prelude.{
  ℕ, zero, suc, ◌+◌, List, [], ◌∷◌, ◌++◌, Option, none, some, Bool, true, false, not, ltb, ◌==◌,
  ◌&&◌, if◌then◌else◌, list_eq, length, drop, get_elem?, ◌>>=◌, read_bytes,
}
use cloud_assitant.Net.Bytes.{read_uint16_le}
use cloud_assitant.Net.BufferReader.{BufferReader, readable_bytes, peek, retrieve}
use cloud_assitant.Sig.Define.{
  Cmd, join, obtain_stream, create_stream, play_stream, delete_stream, mouse, mouse_move, key,
  wheel, command, ResultCode, successful, error, RoleState, idle, role_none, close, puller, pusher,
  head_size, c_string, PlayStream, play_stream_body, set_stream_address, Packet, join_reply,
  obtain_stream_reply, create_stream_packet, play_stream_packet, delete_stream_packet, forwarded,
}
use cloud_assitant.Sig.Manager.{Code, Directory, query_conn, add_conn}

pub record SigConnection : Type 0 where
  pub state : RoleState
  pub code : Code
  pub stream_address : List ℕ
  pub conn : Option ℕ
  pub objects : List Code

abbrev pub new_connection : SigConnection
new_connection = record {
  state = role_none;
  code = [];
  stream_address = [];
  conn = none;
  objects = [];
}

-- `sent` are the packets handed to `Send`, with the connection that sends them, oldest first.
pub record World : Type 0 where
  pub connections : ℕ → SigConnection
  pub directory : Directory
  pub sent : List (ℕ × Packet)

abbrev pub put : ℕ → SigConnection → World → World
put i c w = record w { connections = λ j. if j == i then c else w.connections j }

abbrev pub send : ℕ → Packet → World → World
send i p w = record w { sent = w.sent ++ ((i, p) ∷ []) }

abbrev pub has_code : Code → List Code → Bool
has_code code [] = false
has_code code (c ∷ cs) = if list_eq c code then true else has_code code cs

unfoldable pub add_custom : SigConnection → Code → SigConnection
add_custom c code =
    if has_code code c.objects then c else record c { objects = c.objects ++ (code ∷ []) }

abbrev pub without : Code → List Code → List Code
without code [] = []
without code (c ∷ cs) = if list_eq c code then without code cs else c ∷ without code cs

abbrev pub is_empty : List Code → Bool
is_empty [] = true
is_empty (_ ∷ _) = false

unfoldable pub remove_custom : SigConnection → Code → SigConnection
remove_custom c code =
    if is_empty c.objects
    then c
    else (let objects' = without code c.objects in
        record c { state = if is_empty objects' then idle else c.state; objects = objects' })

-- One round of the loop of `Clear`.
unfoldable pub clear_step : World → ℕ → Code → World
unfolding query_conn remove_custom
clear_step w i it = elim (query_conn it w.directory) [
  | none ↦ w
  | some j ↦
      let c = remove_custom (w.connections j) (w.connections i).code in
      send j (delete_stream_packet (length c.objects)) (put j c w)
]

-- The loop over `objects_`, `n` rounds from index `k` on; the vector may shrink meanwhile.
unfoldable pub clear_loop : ℕ → ℕ → World → ℕ → Option World
unfolding clear_step
clear_loop zero k w i = some w
clear_loop (suc n) k w i = elim (get_elem? (w.connections i).objects k) [
  | none ↦ none
  | some it ↦ clear_loop n (suc k) (clear_step w i it) i
]

unfoldable pub clear : World → ℕ → Option World
clear w i =
    let w' = put i (record (w.connections i) { state = close; conn = none }) w in
    clear_loop (length (w.connections i).objects) 0 w' i

-- `HandleJoin` of a connection that has not joined.
unfoldable pub join_as : World → ℕ → Code → World
unfolding add_conn
join_as w i code = elim (query_conn code w.directory) [
  | some _ ↦ send i (join_reply error) w
  | none ↦
      send i (join_reply successful)
        (record (put i (record (w.connections i) { code = code; state = idle }) w) {
          directory = add_conn code i w.directory;
        })
]

unfoldable pub handle_join : World → ℕ → List ℕ → Option World
unfolding join_as
handle_join w i data' = elim (w.connections i).state [
  | role_none ↦ c_string (drop head_size data') >>= λ code. some (join_as w i code)
  | _ ↦ some (send i (join_reply error) w)
]

abbrev pub refuse_stream : World → ℕ → World
refuse_stream w i = send i (obtain_stream_reply error) w

-- The controller `i` takes the role of a puller and both sides note each other.
abbrev pub link : World → ℕ → ℕ → Code → Option ℕ → World
link w i j code conn' =
    let w' =
      put i (add_custom (record (w.connections i) { state = puller; conn = conn' }) code) w in
    put j (add_custom (w'.connections j) (w.connections i).code) w'

-- The `switch` of `DoObtainStream`: the target `j` is another connection, and `i` is idle.
unfoldable pub obtain_from : World → ℕ → ℕ → Code → RoleState → World
unfolding add_custom set_stream_address
obtain_from w i j code idle =
    send i (obtain_stream_reply successful) (send j create_stream_packet (link w i j code (some j)))
obtain_from w i j code role_none = refuse_stream w i
obtain_from w i j code close = refuse_stream w i
obtain_from w i j code puller = refuse_stream w i
obtain_from w i j code pusher =
    let address = (w.connections j).stream_address in
    if list_eq address []
    then refuse_stream w i
    else (let body = record play_stream_body { result = successful } in
        send i (play_stream_packet (set_stream_address body address))
          (link w i j code (w.connections i).conn))

abbrev pub is_idle : RoleState → Bool
is_idle idle = true
is_idle _ = false

unfoldable pub do_obtain_stream : World → ℕ → Code → World
unfolding query_conn obtain_from
do_obtain_stream w i code = elim (query_conn code w.directory) [
  | none ↦ refuse_stream w i
  | some j ↦
      if j == i
      then refuse_stream w i
      else (if is_idle (w.connections i).state
          then obtain_from w i j code (w.connections j).state
          else refuse_stream w i)
]

unfoldable pub handle_obtain_stream : World → ℕ → List ℕ → Option World
handle_obtain_stream w i data' =
    c_string (drop head_size data') >>= λ code. some (do_obtain_stream w i code)

-- The `switch` of `DoCreateStream`, with the packet that its rounds share.
unfoldable pub create_for : World → ℕ → ℕ → PlayStream → RoleState → World × PlayStream
unfolding remove_custom set_stream_address
create_for w i j body puller =
    let c = w.connections i in
    let body' = set_stream_address (record body { result = successful }) c.stream_address in
    (send j (play_stream_packet body') (put i (record c { state = pusher }) w), body')
create_for w i j body _ =
    let body' = record body { result = error } in
    (
      send j (play_stream_packet body')
          (put i (remove_custom (w.connections i) (w.connections j).code) w),
      body',
    )

-- One round of the loop of `DoCreateStream`.
unfoldable pub create_step : World → ℕ → Code → PlayStream → World × PlayStream
unfolding query_conn create_for
create_step w i it body = elim (query_conn it w.directory) [
  | none ↦ (put i (remove_custom (w.connections i) it) w, body)
  | some j ↦
      if list_eq (w.connections i).stream_address []
      then (let body' = record body { result = error } in
          (
            send j (play_stream_packet body') (put j (record (w.connections j) { state = idle }) w),
            body',
          ))
      else create_for w i j body (w.connections j).state
]

-- The loop of `DoCreateStream`, `n` rounds from index `k` on; the vector may shrink meanwhile.
unfoldable pub create_loop : ℕ → ℕ → World → ℕ → PlayStream → Option World
unfolding create_step
create_loop zero k w i body = some w
create_loop (suc n) k w i body = elim (get_elem? (w.connections i).objects k) [
  | none ↦ none
  | some it ↦ let r = create_step w i it body in create_loop n (suc k) r.0 i r.1
]

unfoldable pub do_create_stream : World → ℕ → List ℕ → Option World
unfolding create_loop
do_create_stream w i address =
    let w' = put i (record (w.connections i) { stream_address = address }) w in
    create_loop (length (w.connections i).objects) 0 w' i play_stream_body

-- The address stands behind the head and the 32-bit result.
unfoldable pub handle_create_stream : World → ℕ → List ℕ → Option World
handle_create_stream w i data' =
    c_string (drop (head_size + 4) data') >>= λ address. do_create_stream w i address

abbrev pub is_busy : RoleState → Bool
is_busy puller = true
is_busy pusher = true
is_busy _ = false

unfoldable pub handle_delete_stream : World → ℕ → Option World
handle_delete_stream w i = if is_busy (w.connections i).state then clear w i else some w

abbrev pub is_puller : RoleState → Bool
is_puller puller = true
is_puller _ = false

-- `len` bytes of the packet go to the connection that is controlled.
unfoldable pub handle_other_message : World → ℕ → ℕ → List ℕ → Option World
handle_other_message w i len data' = elim (w.connections i).conn [
  | none ↦ some w
  | some j ↦
      if is_puller (w.connections i).state
      then (read_bytes len data' >>= λ bytes. some (send j (forwarded bytes) w))
      else some w
]

unfoldable pub dispatch : World → ℕ → ℕ → List ℕ → Option Cmd → Option World
dispatch w i len data' none = some w
dispatch w i len data' (some join) = handle_join w i data'
dispatch w i len data' (some obtain_stream) = handle_obtain_stream w i data'
dispatch w i len data' (some create_stream) = handle_create_stream w i data'
dispatch w i len data' (some delete_stream) = handle_delete_stream w i
dispatch w i len data' (some play_stream) = some w
dispatch w i len data' (some _) = handle_other_message w i len data'

unfoldable pub handle_message : World → ℕ → BufferReader → Option (World × BufferReader)
handle_message w i buffer =
    if ltb (readable_bytes buffer) head_size
    then some (w, buffer)
    else (read_uint16_le (peek buffer) >>= λ len.
        if ltb (readable_bytes buffer) len then some (w, buffer) else (do
          cmd ← read_uint16_le (drop 2 (peek buffer))
          w' ← dispatch w i len (peek buffer) (command cmd)
          some (w', retrieve buffer len)))

-- `OnRead` in at most `fuel` rounds; the source has no bound.
unfoldable pub on_read : ℕ → World → ℕ → BufferReader → Option (World × BufferReader)
on_read zero w i buffer = none
on_read (suc fuel) w i buffer =
    if readable_bytes buffer == 0
    then some (w, buffer)
    else (handle_message w i buffer >>= λ (w', b'). on_read fuel w' i b')
