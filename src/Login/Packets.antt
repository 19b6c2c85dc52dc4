-- ===== src/Login/Packets.antt =====
-- The packets of LoginServer/Define.h as those that send them build them: their fields and the bytes.
-- The constructors leave the arrays as they are in memory, so a packet starts with any bytes.
pub mod Register
pub mod Signin
pub mod Read
use cloud_assitant.Prelude.{
  ℕ, ◌-◌, ◌*◌, ◌/◌, ◌%◌, ◌^◌, List, [], ◌∷◌, ◌++◌, Option, none, some, length, take, replicate,
  string_copy,
}
use cloud_assitant.Net.Bytes.{write_uint16_le, write_uint32_le}
use cloud_assitant.Login.{
  ResultCode, s_ok, server_error, request_timeout, already_redistered, user_disappear,
  already_login, verficate_failed, Reply, register_result, login_result,
}

unfoldable pub write_uint64_le : ℕ → List ℕ
unfolding write_uint32_le
write_uint64_le v = write_uint32_le (v % 2 ^ 32) ++ write_uint32_le (v / 2 ^ 32)

-- `UserDestroy`, whose only field is its code.
unfoldable pub set_destroy_code : List ℕ → List ℕ → List ℕ
unfolding string_copy
set_destroy_code str code = string_copy code str

unfoldable pub user_destroy_bytes : List ℕ → List ℕ
unfolding write_uint16_le
user_destroy_bytes code = write_uint16_le 24 ++ (write_uint16_le 4 ++ code)

unfoldable pub result_number : ResultCode → ℕ
result_number s_ok = 0
result_number server_error = 1
result_number request_timeout = 2
result_number already_redistered = 3
result_number user_disappear = 4
result_number already_login = 5
result_number verficate_failed = 6

-- `LoginResult::SetIp`: `strncpy` of 15 bytes at most, filled up with zeros, and a zero.
unfoldable pub set_ip : List ℕ → List ℕ
set_ip str = take 15 str ++ (replicate (15 - length (take 15 str)) 0 ++ (0 ∷ []))

-- The bytes of a reply. The port and the address of a login that failed are what the memory has.
unfoldable pub reply_bytes : ℕ → List ℕ → Reply → List ℕ
unfolding write_uint16_le write_uint32_le result_number set_ip
reply_bytes old_port old_ip (register_result r) =
    write_uint16_le 8 ++ (write_uint16_le 3 ++ write_uint32_le (result_number r))
reply_bytes old_port old_ip (login_result r none) =
    write_uint16_le 26
    ++ (write_uint16_le 2
        ++ (write_uint32_le (result_number r) ++ (write_uint16_le old_port ++ old_ip)))
reply_bytes old_port old_ip (login_result r (some (ip, port))) =
    write_uint16_le 26
    ++ (write_uint16_le 2
        ++ (write_uint32_le (result_number r) ++ (write_uint16_le port ++ set_ip ip)))
