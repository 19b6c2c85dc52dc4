-- ===== src/Login.antt =====
-- LoginServer/Define.h: the commands, the results and what is read of the packets that arrive, which
-- are bytes. The packets that are sent are values.
pub mod Orm
pub mod Connection
pub mod Lost
pub mod Client
pub mod Packets
mod Tests
unfoldable pub use cloud_assitant.Prelude.{c_string}
use cloud_assitant.Prelude.{
  ℕ, ◌+◌, ◌*◌, ◌^◌, List, [], ◌∷◌, Option, none, some, ◌==◌, if◌then◌else◌, drop, take, ◌>>=◌,
}
use cloud_assitant.Net.Bytes.{read_uint32_le}

pub data Cmd : Type 0 where
  minotor error login register destroy : Cmd

-- The cases of the `switch` on the number; `none` is its `default`.
unfoldable pub command : ℕ → Option Cmd
command cmd =
    if cmd == 2
    then some login
    else (if cmd == 3 then some register else (if cmd == 4 then some destroy else none))

pub data ResultCode : Type 0 where
  s_ok server_error request_timeout already_redistered : ResultCode
  user_disappear already_login verficate_failed : ResultCode

abbrev pub head_size : ℕ
head_size = 4

unfoldable pub read_uint64_le : List ℕ → Option ℕ
unfolding read_uint32_le
read_uint64_le p = do
  low ← read_uint32_le p
  high ← read_uint32_le (drop 4 p)
  some (low + high * 2 ^ 32)

-- `UserRegister_body`
unfoldable pub register_code : List ℕ → Option (List ℕ)
unfolding c_string
register_code p = c_string (drop 4 p)

unfoldable pub register_name : List ℕ → Option (List ℕ)
unfolding c_string
register_name p = c_string (drop 24 p)

unfoldable pub register_password : List ℕ → Option (List ℕ)
unfolding c_string
register_password p = c_string (drop 44 p)

unfoldable pub register_count : List ℕ → Option (List ℕ)
unfolding c_string
register_count p = c_string (drop 64 p)

unfoldable pub register_timestamp : List ℕ → Option ℕ
unfolding read_uint64_le
register_timestamp p = read_uint64_le (drop 76 p)

-- `UserLogin`
unfoldable pub login_code : List ℕ → Option (List ℕ)
unfolding c_string
login_code p = c_string (drop 4 p)

unfoldable pub login_timestamp : List ℕ → Option ℕ
unfolding read_uint64_le
login_timestamp p = read_uint64_le (drop 69 p)

-- `UserDestroy`
unfoldable pub destroy_code : List ℕ → Option (List ℕ)
unfolding c_string
destroy_code p = c_string (drop 4 p)

-- `RegisterResult` and `LoginResult`, with the address and the port that `SetIp` and the handler set.
pub data Reply : Type 0 where
  register_result : ResultCode → Reply
  login_result : ResultCode → Option (List ℕ × ℕ) → Reply
