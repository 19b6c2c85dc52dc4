-- ===== src/Login/Client.antt =====
-- LoginServer/TcpClient.h, LoginServer/TcpClient.cpp and the constructor of LoginServer: the reports
-- to the load balancer. The C library and the system are parameters. An outer `none` is undefined
-- behaviour, or a loop that ran out of its rounds.
pub mod Usage
pub mod Wire
use cloud_assitant.Prelude.{
  ℕ, zero, suc, ◌+◌, ◌-◌, ◌*◌, ◌/◌, ◌%◌, ◌^◌, List, [], ◌∷◌, ◌++◌, Option, none, some, Bool, true,
  false, ltb, leb, ◌==◌, if◌then◌else◌, length, drop, take, replicate, text, string_copy, strstr,
  ◌>>=◌, ◌||◌, ◌&&◌,
}
use cloud_assitant.Net.Bytes.{write_uint16_le, to_byte}

-- The lines of /proc/meminfo (`none` if it cannot be opened), `sysinfo`, what `sscanf` makes of a
-- line with the format "%*s%d%*s", and whether `socket` and `connect` succeed.
pub record Machine : Type 0 where
  pub meminfo : Option (List (List ℕ))
  pub totalram : ℕ
  pub scan : List ℕ → ℕ
  pub socket : Option ℕ
  pub connect : Option ℕ → List ℕ → ℕ → Bool

-- `file` has the lines that are still to be read; `mem` and `ip` are of `Monitor_info_`.
pub record TcpClient : Type 0 where
  pub file : Option (List (List ℕ))
  pub is_connect : Bool
  pub sockfd : Option ℕ
  pub totalram : ℕ
  pub mem : ℕ
  pub ip : List ℕ
  pub port : ℕ

unfoldable pub init : TcpClient
init = record {
  file = none;
  is_connect = false;
  sockfd = none;
  totalram = 0;
  mem = 0;
  ip = replicate 16 0;
  port = 0;
}

-- `Monitor_body::SetIp`
unfoldable pub set_ip : List ℕ → List ℕ → List ℕ
unfolding string_copy
set_ip ip str = string_copy ip str

-- `Create`
unfoldable pub create : Machine → TcpClient → TcpClient
unfolding set_ip
create m c = elim m.meminfo [
  | none ↦ record c { file = none }
  | some lines ↦ record c {
    file = some lines;
    totalram = m.totalram;
    sockfd = m.socket;
    ip = set_ip c.ip (text "10.211.55.7");
    port = 9867;
  }
]

-- `Connect`
unfoldable pub connect : Machine → List ℕ → ℕ → TcpClient → Bool × TcpClient
connect m ip port c =
    if m.connect c.sockfd ip port then (true, record c { is_connect = true }) else (false, c)

-- `Close`; `fclose` of no file is undefined.
unfoldable pub close : TcpClient → Option TcpClient
close c = c.file >>= λ lines. some (record c { is_connect = false })

unfoldable pub is_available : List ℕ → Bool
unfolding strstr
is_available line = strstr line (text "MemAvailable")

-- The loop over the lines, from `index` on: the available memory, 0 if no line tells it, and the
-- lines that are left.
unfoldable pub find_available : (List ℕ → ℕ) → ℕ → List (List ℕ) → ℕ × List (List ℕ)
unfolding is_available
find_available scan index [] = (0, [])
find_available scan index (line ∷ lines) =
    let rest = find_available scan (index + 1) lines in
    if leb (index + 1) 2 then rest else (if is_available line then (scan line, lines) else rest)

-- `(t - avimem) * 100 / t` in `int`, and its conversion to `uint8_t`. An overflow, a division by 0 and
-- the conversion of -1 and less are undefined.
unfoldable pub percent : ℕ → ℕ → Option ℕ
percent t avimem =
    if t == 0
    then none
    else (if leb avimem t
        then (if leb (2 ^ 31) ((t - avimem) * 100) then none else some ((t - avimem) * 100 / t))
        else (if ltb (2 ^ 31) ((avimem - t) * 100)
            then none
            else (if (avimem - t) * 100 / t == 0 then some 0 else none)))

-- The bytes of `Monitor_info_`.
unfoldable pub packet : TcpClient → List ℕ
unfolding write_uint16_le
packet c =
    write_uint16_le 23 ++ (write_uint16_le 0 ++ (to_byte c.mem ∷ (c.ip ++ write_uint16_le c.port)))

-- `get_mem_usage` up to `Send`: the client and the bytes to send. `t` is an `int`.
unfoldable pub get_mem_usage : Machine → TcpClient → Option (List ℕ × TcpClient)
unfolding find_available percent packet
get_mem_usage m c = do
  lines ← c.file
  let (avimem, rest) = find_available m.scan 0 lines in
      let t = c.totalram / 1024 in
      if leb (2 ^ 31) t
      then none
      else (percent t avimem >>= λ mem.
          let c' = record c { file = some rest; mem = mem } in some (packet c', c'))

-- `getMonitorInfo`
unfoldable pub get_monitor_info : Machine → TcpClient → Option (List ℕ × TcpClient)
unfolding get_mem_usage
get_monitor_info m c = get_mem_usage m c

-- The loop of `Send` on what is left of the data, with what the socket took. `socket n` is what the
-- n-th call of `send` answers to the bytes that it is offered, `none` for a failure.
unfoldable pub send_loop : (ℕ → List ℕ → Option ℕ) → ℕ → ℕ → List ℕ → Option (List ℕ)
send_loop socket zero round data' = none
send_loop socket (suc fuel) round [] = some []
send_loop socket (suc fuel) round (x ∷ xs) = elim (socket round (x ∷ xs)) [
  | none ↦ some []
  | some n ↦
      send_loop socket fuel (suc round) (drop n (x ∷ xs)) >>= λ wire. some (take n (x ∷ xs) ++ wire)
]

-- `Send`, with a number of rounds.
unfoldable pub send : (ℕ → List ℕ → Option ℕ) → ℕ → List ℕ → Option (List ℕ)
unfolding send_loop
send socket fuel data' = send_loop socket fuel 0 data'

-- The constructor of LoginServer: whether a timer is set, the first report, and the client.
unfoldable pub start : Machine → Option (Bool × List ℕ × TcpClient)
unfolding init create connect get_monitor_info
start m =
    let (connected, c) = connect m (text "10.211.55.7") 8523 (create m init) in
    if connected
    then (get_monitor_info m c >>= λ (bytes, c'). some (true, bytes, c'))
    else some (false, [], c)
