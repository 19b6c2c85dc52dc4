-- ===== src/Login/Packets/Register.antt =====
-- `UserRegister_body` of LoginServer/Define.h.
use cloud_assitant.Prelude.{ℕ, List, ◌++◌, string_copy}
use cloud_assitant.Net.Bytes.{write_uint16_le}
use cloud_assitant.Login.Packets.{write_uint64_le}

-- `UserRegister_body`
pub record UserRegister : Type 0 where
  pub code : List ℕ
  pub name : List ℕ
  pub password : List ℕ
  pub count : List ℕ
  pub timestamp : ℕ

unfoldable pub set_code : List ℕ → UserRegister → UserRegister
unfolding string_copy
set_code str r = record r { code = string_copy r.code str }

unfoldable pub set_name : List ℕ → UserRegister → UserRegister
unfolding string_copy
set_name str r = record r { name = string_copy r.name str }

unfoldable pub set_count : List ℕ → UserRegister → UserRegister
unfolding string_copy
set_count str r = record r { count = string_copy r.count str }

unfoldable pub set_password : List ℕ → UserRegister → UserRegister
unfolding string_copy
set_password str r = record r { password = string_copy r.password str }

unfoldable pub bytes : UserRegister → List ℕ
unfolding write_uint16_le write_uint64_le
bytes r =
    write_uint16_le 84
    ++ (write_uint16_le 3
        ++ (r.code ++ (r.name ++ (r.password ++ (r.count ++ write_uint64_le r.timestamp)))))
