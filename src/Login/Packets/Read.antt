-- ===== src/Login/Packets/Read.antt =====
-- The server reads what a client of LoginServer/Define.h has set.
use cloud_assitant.Prelude.{
  ℕ, ◌^◌, ◌<◌, ◌≡◌, ap, ◌∙◌, List, ◌++◌, some, length, drop, Fits, c_string, c_string-copy,
  length-string_copy, drop-behind, string_copy, arith,
}
use cloud_assitant.Net.Bytes.{read_uint32_le, write_uint16_le, write_uint32_le}
use cloud_assitant.Login.{
  register_code, register_name, register_password, register_count, register_timestamp,
  read_uint64_le,
}
use cloud_assitant.Login.Packets.{write_uint64_le}
use cloud_assitant.Login.Packets.Register.{
  UserRegister, set_code, set_name, set_count, set_password, bytes,
}

read_uint64_le-write : (v : ℕ) → v < 2 ^ 64 → read_uint64_le (write_uint64_le v) ≡ some v
unfolding read_uint64_le write_uint64_le read_uint32_le write_uint32_le
read_uint64_le-write v h = ap some (omega (arith, h))

-- The arrays of a registration, by their sizes.
pub record IsRegister (r : UserRegister) : Type 0 where
  pub code : length r.code ≡ 20
  pub name : length r.name ≡ 20
  pub password : length r.password ≡ 20
  pub count : length r.count ≡ 12
  pub timestamp : r.timestamp < 2 ^ 64

-- A registration with these texts.
abbrev pub filled : UserRegister → List ℕ → List ℕ → List ℕ → List ℕ → UserRegister
filled r code name count password =
    set_password password (set_count count (set_name name (set_code code r)))

-- The server reads a registration as it was built, when no text has a zero or fills its array, and
-- the array has a zero where the text ends.
pub register-read :
    (r : UserRegister) (code name count password : List ℕ)
    → IsRegister r
    → Fits r.code code
    → Fits r.name name
    → Fits r.count count
    → Fits r.password password
    → (register_code (bytes (filled r code name count password)) ≡ some code)
      × (register_name (bytes (filled r code name count password)) ≡ some name)
      × (register_count (bytes (filled r code name count password)) ≡ some count)
      × (register_password (bytes (filled r code name count password)) ≡ some password)
      × (register_timestamp (bytes (filled r code name count password)) ≡ some r.timestamp)
unfolding register_code register_name register_count register_password register_timestamp bytes
    set_code set_name set_count set_password write_uint16_le
register-read r code name count password s fc fn fo fp = (
  c_string-copy r.code code _ fc,
  ap c_string after_code ∙ c_string-copy r.name name _ fn,
  ap c_string after_password ∙ c_string-copy r.count count _ fo,
  ap c_string after_name ∙ c_string-copy r.password password _ fp,
  ap read_uint64_le after_count ∙ read_uint64_le-write r.timestamp s.timestamp,
)
  where
    time : List ℕ
    time = write_uint64_le r.timestamp

    counts : List ℕ
    counts = string_copy r.count count ++ time

    passwords : List ℕ
    passwords = string_copy r.password password ++ counts

    names : List ℕ
    names = string_copy r.name name ++ passwords

    codes : List ℕ
    codes = string_copy r.code code ++ names

    after_code : drop 20 codes ≡ names
    after_code = drop-behind 20 0 _ names (length-string_copy r.code code ∙ s.code)

    after_name : drop 40 codes ≡ passwords
    after_name =
        drop-behind 20 20 _ names (length-string_copy r.code code ∙ s.code)
        ∙ drop-behind 20 0 _ passwords (length-string_copy r.name name ∙ s.name)

    after_password : drop 60 codes ≡ counts
    after_password =
        drop-behind 20 40 _ names (length-string_copy r.code code ∙ s.code)
        ∙ (drop-behind 20 20 _ passwords (length-string_copy r.name name ∙ s.name)
            ∙ drop-behind 20 0 _ counts (length-string_copy r.password password ∙ s.password))

    after_count : drop 72 codes ≡ time
    after_count =
        drop-behind 20 52 _ names (length-string_copy r.code code ∙ s.code)
        ∙ (drop-behind 20 32 _ passwords (length-string_copy r.name name ∙ s.name)
            ∙ (drop-behind 20 12 _ counts (length-string_copy r.password password ∙ s.password)
                ∙ drop-behind 12 0 _ time (length-string_copy r.count count ∙ s.count)))
