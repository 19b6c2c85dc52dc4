-- ===== src/Net/Acceptor.antt =====
-- Net/Acceptor.h and Net/Acceptor.cpp.
pub mod Descriptors
use cloud_assitant.Prelude.{ℕ, List, Option, none, some, Bool, true, false, ltb, if◌then◌else◌}
use cloud_assitant.Net.Channel.{Channel, enable_reading}
use cloud_assitant.Net.EventLoop.{EventLoop, update_channel, remove_channel}
use cloud_assitant.Net.TcpSocket.{Sockets, set_non_block, set_reuse_addr, set_reuse_port}
use cloud_assitant.Net.TcpSocket

-- What `Listen` answers: 0, -1 and -2.
pub data ListenResult : Type 0 where
  listening bind_error listen_error : ListenResult

-- An acceptor with the event loop and the system. A channel for the descriptor -1 is `none`.
pub record Acceptor (os : Sockets) : Type 0 where
  pub loop : EventLoop
  pub channel : Option Channel
  pub sockfd : Option ℕ
  pub system : os.State

-- `GetSocket() > 0`
abbrev pub is_positive : Option ℕ → Bool
is_positive none = false
is_positive (some fd) = ltb 0 fd

module _ (os : Sockets) where
  -- The acceptor after an operation of its socket.
  abbrev pub with_socket : Acceptor os → TcpSocket.TcpSocket os → Acceptor os
  with_socket a (sockfd, system) = record a { sockfd = sockfd; system = system }

  -- `Close`
  unfoldable pub close : Acceptor os → Acceptor os
  unfolding remove_channel TcpSocket.close
  close a =
      if is_positive a.sockfd
      then with_socket
          (elim a.channel [ none ↦ a | some c ↦ record a { loop = remove_channel a.loop c } ])
          (TcpSocket.close os (a.sockfd, a.system))
      else a

  -- The start of `Listen`: a socket that is open is closed, and a new one gets a channel.
  unfoldable pub reopen : Acceptor os → Acceptor os
  unfolding TcpSocket.close TcpSocket.create
  reopen a =
      let s =
        if is_positive a.sockfd
        then TcpSocket.close os (a.sockfd, a.system)
        else (a.sockfd, a.system) in
      let (fd, system) = TcpSocket.create os s in
      record a {
        channel = elim fd [ none ↦ none | some n ↦ some (record { sockfd = n; events = 0 }) ];
        sockfd = fd;
        system = system;
      }

  -- The options of the new socket; the calls fail without an effect on the descriptor -1.
  unfoldable pub set_options : Acceptor os → Acceptor os
  unfolding set_non_block set_reuse_addr set_reuse_port
  set_options a = elim a.sockfd [
    | none ↦ a
    | some fd ↦ record a {
      system = set_reuse_port os (set_reuse_addr os (set_non_block os a.system fd) fd) fd;
    }
  ]

  -- The end of `Listen`: connections are watched for.
  unfoldable pub watch : Acceptor os → Acceptor os
  unfolding enable_reading update_channel
  watch a = elim a.channel [
    | none ↦ a
    | some c ↦
        let c' = enable_reading c in record a { channel = some c'; loop = update_channel a.loop c' }
  ]

  -- `Listen`
  unfoldable pub listen : Acceptor os → List ℕ → ℕ → ListenResult × Acceptor os
  unfolding reopen set_options watch TcpSocket.bind TcpSocket.listen
  listen a ip port =
      let a₁ = set_options (reopen a) in
      let (bound, s₁) = TcpSocket.bind os (a₁.sockfd, a₁.system) ip port in
      let a₂ = with_socket a₁ s₁ in
      if bound
      then (let (ready, s₂) = TcpSocket.listen os (a₂.sockfd, a₂.system) 1024 in
          let a₃ = with_socket a₂ s₂ in if ready then (listening, watch a₃) else (listen_error, a₃))
      else (bind_error, a₂)

  -- `OnAccept`: the descriptor for which the callback runs.
  unfoldable pub on_accept : Acceptor os → Option ℕ × Acceptor os
  unfolding TcpSocket.accept
  on_accept a =
      let (fd, s) = TcpSocket.accept os (a.sockfd, a.system) in
      (if is_positive fd then fd else none, with_socket a s)
