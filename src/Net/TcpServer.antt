-- ===== src/Net/TcpServer.antt =====
-- Net/TcpServer.h and Net/TcpServer.cpp: the connections of a server, with their lifetimes. A
-- connection is a number in place of a pointer, and `none` is undefined behaviour or an exception.
pub mod Live
pub mod Lifetimes
pub mod Stop
pub mod Race
use cloud_assitant.Prelude.{
  ℕ, ◌+◌, ◌*◌, List, [], ◌∷◌, ◌++◌, Option, none, some, Bool, true, false, not, ltb, ◌==◌, ◌&&◌,
  ◌||◌, if◌then◌else◌, get_elem?, set, ◌>>=◌,
}
use cloud_assitant.Net.Channel.{Channel}
use cloud_assitant.Net.EventLoop.{EventLoop, TaskScheduler, get_task_schduler}
use cloud_assitant.Net.TcpConnection.{TcpConnection}
use cloud_assitant.Net.TcpConnection
use cloud_assitant.Net.TcpSocket.{Sockets, set_non_block, set_send_buf_size, set_keep_alive}
use cloud_assitant.Net.Acceptor.{Acceptor, ListenResult, listening}
use cloud_assitant.Net.Acceptor

-- A connection, the position of its scheduler, and whether SetDisConnectCallback has been called.
pub record Object : Type 0 where
  pub connection : TcpConnection
  pub scheduler : ℕ
  pub removes : Bool

-- `next` is the number of the next connection, and `freed_locked` names those that were destroyed
-- while one of their methods held their mutex.
pub record TcpServer (os : Sockets) : Type 0 where
  pub acceptor : Acceptor os
  pub port : ℕ
  pub ip : List ℕ
  pub is_stared : Bool
  pub connects : List (ℕ × ℕ)
  pub objects : ℕ → Option Object
  pub next : ℕ
  pub freed_locked : List ℕ

-- `emplace`, which leaves a key that is there alone.
unfoldable pub emplace : ℕ → ℕ → List (ℕ × ℕ) → List (ℕ × ℕ)
emplace fd id [] = (fd, id) ∷ []
emplace fd id ((k, j) ∷ cs) = if k == fd then (k, j) ∷ cs else (k, j) ∷ emplace fd id cs

-- A key stands once at most.
unfoldable pub erase : ℕ → List (ℕ × ℕ) → List (ℕ × ℕ)
erase fd [] = []
erase fd ((k, j) ∷ cs) = if k == fd then erase fd cs else (k, j) ∷ erase fd cs

-- Whether the map has an entry under the key.
unfoldable pub has_key : ℕ → List (ℕ × ℕ) → Bool
has_key fd [] = false
has_key fd ((k, j) ∷ cs) = k == fd || has_key fd cs

-- Whether the map holds the connection `id`.
unfoldable pub holds : ℕ → List (ℕ × ℕ) → Bool
holds id [] = false
holds id ((k, j) ∷ cs) = j == id || holds id cs

abbrev pub with_object : ℕ → Option Object → (ℕ → Option Object) → ℕ → Option Object
with_object id o objects = λ j. if j == id then o else objects j

module _ (os : Sockets) where
  -- The options of the socket that the constructor of a connection sets.
  abbrev pub set_options : os.State → ℕ → os.State
  unfolding set_non_block set_send_buf_size set_keep_alive
  set_options s fd =
      set_keep_alive os (set_send_buf_size os (set_non_block os s fd) fd (100 * 1024)) fd

  -- `OnConnect`: the new connection.
  unfoldable pub on_connect : ℕ → TcpServer os → Option (ℕ × TcpServer os)
  unfolding get_task_schduler TcpConnection.init
  on_connect fd w = do
    (k, loop) ← get_task_schduler w.acceptor.loop
    s ← get_elem? loop.task_schdulers k
    let c = TcpConnection.init fd s.channels in
        some (
          w.next,
          record w {
            acceptor = record w.acceptor {
              loop = record loop {
                task_schdulers = set loop.task_schdulers k (record s { channels = c.scheduler });
              };
              system = set_options w.acceptor.system fd;
            };
            objects =
                with_object w.next
                  (some (record { connection = c; scheduler = k; removes = false })) w.objects;
            next = w.next + 1;
          },
        )

  -- `AddConnection`
  unfoldable pub add_connection : ℕ → ℕ → TcpServer os → TcpServer os
  unfolding emplace
  add_connection fd id w = record w { connects = emplace fd id w.connects }

  -- `RemoveConnection`
  unfoldable pub remove_connection : ℕ → TcpServer os → TcpServer os
  unfolding erase
  remove_connection fd w = record w { connects = erase fd w.connects }

  -- `SetDisConnectCallback`
  unfoldable pub set_callback : ℕ → TcpServer os → TcpServer os
  set_callback id w = elim (w.objects id) [
    | none ↦ w
    | some o ↦ record w { objects = with_object id (some (record o { removes = true })) w.objects }
  ]

  -- The destructor of a connection.
  unfoldable pub destroy : ℕ → Object → TcpServer os → TcpServer os
  destroy id o w =
      let fd = o.connection.channel.sockfd in
      record w {
        objects = with_object id none w.objects;
        acceptor =
            if ltb 0 fd
            then record w.acceptor { system = os.close w.acceptor.system fd }
            else w.acceptor;
      }

  -- The end of a reference to the connection `id`, which is destroyed unless the map holds it.
  unfoldable pub release : ℕ → TcpServer os → TcpServer os
  unfolding holds destroy
  release id w =
      if holds id w.connects
      then w
      else (elim (w.objects id) [ none ↦ w | some o ↦ destroy id o w ])

  -- The callback for new connections.
  unfoldable pub new_connection : ℕ → TcpServer os → Option (TcpServer os)
  unfolding on_connect add_connection set_callback release
  new_connection fd w = do
    (id, w') ← on_connect fd w
    some (release id (set_callback id (add_connection fd id w')))

  -- `OnAccept`
  unfoldable pub on_accept : TcpServer os → Option (TcpServer os)
  unfolding Acceptor.on_accept new_connection
  on_accept w =
      let (fd, acceptor) = Acceptor.on_accept os w.acceptor in
      let w' = record w { acceptor = acceptor } in
      elim fd [ none ↦ some w' | some n ↦ new_connection n w' ]

  -- `Close` of an open connection: the callback removes it from the map.
  unfoldable pub close_connection : ℕ → Object → TcpServer os → TcpServer os
  unfolding TcpConnection.close remove_connection
  close_connection id o w =
      let w' = record w {
        objects =
            with_object id (some (record o { connection = TcpConnection.close o.connection }))
              w.objects;
      } in
      if o.removes then remove_connection o.connection.channel.sockfd w' else w'

  -- A connection that has closed itself is destroyed, unless the map holds it, before the method
  -- that closed it gives its mutex back.
  unfoldable pub release_locked : ℕ → TcpServer os → TcpServer os
  unfolding holds release
  release_locked id w =
      if holds id w.connects
      then w
      else release id (record w { freed_locked = id ∷ w.freed_locked })

  -- `HandleClose` and the other methods that call `Close`, of a connection that exists.
  unfoldable pub handle_close : ℕ → TcpServer os → TcpServer os
  unfolding close_connection release_locked
  handle_close id w = elim (w.objects id) [
    | none ↦ w
    | some o ↦ if o.connection.is_closed then w else release_locked id (close_connection id o w)
  ]

  -- `DisConnect`, by a caller that holds a reference to the connection.
  unfoldable pub disconnect : ℕ → Object → TcpServer os → TcpServer os
  unfolding close_connection
  disconnect id o w = if o.connection.is_closed then w else close_connection id o w

  -- The loop of `Stop`, from the iterator's entry on. To advance an iterator whose entry is no longer
  -- in the map is undefined behaviour.
  unfoldable pub stop_loop : List (ℕ × ℕ) → TcpServer os → Option (TcpServer os)
  unfolding disconnect has_key
  stop_loop [] w = some w
  stop_loop ((fd, id) ∷ cs) w = elim (w.objects id) [
    | none ↦ none
    | some o ↦
        let w' = disconnect id o w in
        let rest = stop_loop cs w' in if has_key fd w'.connects then rest else none
  ]

  -- `Stop`
  unfoldable pub stop : TcpServer os → Option (TcpServer os)
  unfolding stop_loop Acceptor.close
  stop w =
      if w.is_stared
      then (stop_loop w.connects w >>= λ w'.
          some (record w' { acceptor = Acceptor.close os w'.acceptor; is_stared = false }))
      else some w

  -- `Start`
  unfoldable pub start : List ℕ → ℕ → TcpServer os → Option (Bool × TcpServer os)
  unfolding stop Acceptor.listen
  start ip port w = do
    w' ← stop w
    if w'.is_stared
        then some (true, w')
        else (let (ret, acceptor) = Acceptor.listen os w'.acceptor ip port in
            let w'' = record w' { acceptor = acceptor } in
            some (elim ret [
              | listening ↦ (true, record w'' { port = port; ip = ip; is_stared = true })
              | _ ↦ (false, w'')
            ]))
