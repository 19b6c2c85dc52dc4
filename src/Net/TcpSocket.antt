-- ===== src/Net/TcpSocket.antt =====
-- Net/TcpSocket.h and Net/TcpSocket.cpp. The system calls are a parameter.
use cloud_assitant.Prelude.{ℕ, List, Option, none, some, Bool, false}
use cloud_assitant.Net.Channel.{set_bit, clear_bit}

pub data SocketOption : Type 0 where
  so_reuseaddr so_reuseport so_keepalive so_sndbuf so_rcvbuf : SocketOption

-- A descriptor that a call answers is `none` for -1, and a `Bool` says whether the call succeeded.
pub record Sockets : Type 1 where
  pub State : Type 0
  pub socket : State → Option ℕ × State
  pub bind : State → ℕ → List ℕ → ℕ → Bool × State
  pub listen : State → ℕ → ℕ → Bool × State
  pub accept : State → Option ℕ → Option ℕ × State
  pub close : State → ℕ → State
  pub shutdown : State → ℕ → State
  pub get_flags : State → ℕ → ℕ
  pub set_flags : State → ℕ → ℕ → State
  pub set_option : State → ℕ → SocketOption → ℕ → State

abbrev pub o_nonblock : ℕ
o_nonblock = 2048

module _ (os : Sockets) where
  unfoldable pub set_non_block : os.State → ℕ → os.State
  set_non_block s fd = os.set_flags s fd (set_bit (os.get_flags s fd) o_nonblock)

  unfoldable pub set_block : os.State → ℕ → os.State
  set_block s fd = os.set_flags s fd (clear_bit (os.get_flags s fd) o_nonblock)

  unfoldable pub set_reuse_addr : os.State → ℕ → os.State
  set_reuse_addr s fd = os.set_option s fd so_reuseaddr 1

  unfoldable pub set_reuse_port : os.State → ℕ → os.State
  set_reuse_port s fd = os.set_option s fd so_reuseport 1

  unfoldable pub set_keep_alive : os.State → ℕ → os.State
  set_keep_alive s fd = os.set_option s fd so_keepalive 1

  unfoldable pub set_send_buf_size : os.State → ℕ → ℕ → os.State
  set_send_buf_size s fd size = os.set_option s fd so_sndbuf size

  unfoldable pub set_recv_buf_size : os.State → ℕ → ℕ → os.State
  set_recv_buf_size s fd size = os.set_option s fd so_rcvbuf size

  -- What a `TcpSocket` works on: its `sockfd_`, which is `none` for -1, and the system.
  abbrev pub TcpSocket : Type 0
  TcpSocket = Option ℕ × os.State

  -- `Create`
  unfoldable pub create : TcpSocket → TcpSocket
  create (sockfd, s) = os.socket s

  -- `Bind`
  unfoldable pub bind : TcpSocket → List ℕ → ℕ → Bool × TcpSocket
  bind (none, s) ip port = (false, (none, s))
  bind (some fd, s) ip port = let (ok, s') = os.bind s fd ip port in (ok, (some fd, s'))

  -- `Listen`
  unfoldable pub listen : TcpSocket → ℕ → Bool × TcpSocket
  listen (none, s) backlog = (false, (none, s))
  listen (some fd, s) backlog = let (ok, s') = os.listen s fd backlog in (ok, (some fd, s'))

  -- `Accept`
  unfoldable pub accept : TcpSocket → Option ℕ × TcpSocket
  accept (sockfd, s) = let (fd, s') = os.accept s sockfd in (fd, (sockfd, s'))

  -- `Close`
  unfoldable pub close : TcpSocket → TcpSocket
  close (none, s) = (none, s)
  close (some fd, s) = (none, os.close s fd)

  -- `ShutdownWrite`, which forgets the descriptor without closing it.
  unfoldable pub shutdown_write : TcpSocket → TcpSocket
  shutdown_write (none, s) = (none, s)
  shutdown_write (some fd, s) = (none, os.shutdown s fd)
