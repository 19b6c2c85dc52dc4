-- ===== src/Load.antt =====
-- LoadBanlanceServer/LoadDefine.h and the `Monitor_body` of LoginServer/Define.h. Packets that arrive
-- are bytes, read from the memory at the packet on; those that are sent are values.
pub mod Server
pub mod Connection
pub mod Sort
pub mod Reports
pub mod Least
pub mod Overwritten
pub mod Lost
pub mod Clock
pub mod Heartbeat
mod Tests
use cloud_assitant.Prelude.{
  ℕ, List, Option, none, some, ◌==◌, if◌then◌else◌, drop, replicate, read_bytes,
}
use cloud_assitant.Net.Bytes.{read_uint8, read_uint16_le}
use cloud_assitant.Login.{Cmd, minotor, login, read_uint64_le}

-- The cases of the `switch` on the number; `none` is its `default`.
unfoldable pub command : ℕ → Option Cmd
command cmd = if cmd == 2 then some login else (if cmd == 0 then some minotor else none)

-- `LoginInfo`
unfoldable pub login_timestamp : List ℕ → Option ℕ
unfolding read_uint64_le
login_timestamp p = read_uint64_le (drop 4 p)

-- `Monitor_body`
unfoldable pub monitor_mem : List ℕ → Option ℕ
unfolding read_uint8
monitor_mem p = read_uint8 (drop 4 p)

unfoldable pub monitor_ip : List ℕ → Option (List ℕ)
monitor_ip p = read_bytes 16 (drop 5 p)

unfoldable pub monitor_port : List ℕ → Option ℕ
unfolding read_uint16_le
monitor_port p = read_uint16_le (drop 21 p)

-- `LoginReply`
pub record LoginReply : Type 0 where
  pub cmd : Cmd
  pub port : ℕ
  pub ip : List ℕ

-- Its constructor; the port is -1.
unfoldable pub login_reply : LoginReply
login_reply = record { cmd = login; port = 65535; ip = replicate 16 0 }
