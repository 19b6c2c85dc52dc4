-- ===== src/Login/Packets/Signin.antt =====
-- `UserLogin` of LoginServer/Define.h.
use cloud_assitant.Prelude.{ℕ, List, ◌++◌, string_copy}
use cloud_assitant.Net.Bytes.{write_uint16_le}
use cloud_assitant.Login.Packets.{write_uint64_le}

-- `UserLogin`
pub record UserLogin : Type 0 where
  pub code : List ℕ
  pub count : List ℕ
  pub password : List ℕ
  pub timestamp : ℕ

unfoldable pub set_code : List ℕ → UserLogin → UserLogin
unfolding string_copy
set_code str r = record r { code = string_copy r.code str }

unfoldable pub set_count : List ℕ → UserLogin → UserLogin
unfolding string_copy
set_count str r = record r { count = string_copy r.count str }

unfoldable pub set_password : List ℕ → UserLogin → UserLogin
unfolding string_copy
set_password str r = record r { password = string_copy r.password str }

unfoldable pub bytes : UserLogin → List ℕ
unfolding write_uint16_le write_uint64_le
bytes r =
    write_uint16_le 77
    ++ (write_uint16_le 2 ++ (r.code ++ (r.count ++ (r.password ++ write_uint64_le r.timestamp))))
