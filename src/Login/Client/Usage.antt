-- ===== src/Login/Client/Usage.antt =====
-- What the client of LoginServer/TcpClient.cpp reports.
use cloud_assitant.Prelude.{
  ℕ, ◌+◌, ◌-◌, ◌*◌, ◌/◌, ◌^◌, ◌<◌, ◌≤◌, ◌≡◌, refl, ap, subst, List, [], ◌∷◌, some, Bool, true,
  false, leb, ◌==◌, if◌then◌else◌, All, arith,
}
use native.Mathlib.Nat.{
  div-le_of_le-mul, div-mul-le_self, lt-mul-div-succ, mul_comm, sub-zero, mul-div_right,
}
use cloud_assitant.Login.Client.{
  Machine, TcpClient, find_available, is_available, percent, packet, get_mem_usage,
}

-- The share of used memory is between 0 and 100 and rounded down.
pub percent_lem :
    (t avimem : ℕ)
    → 0 < t
    → avimem ≤ t
    → t * 100 < 2 ^ 31
    → (p : ℕ) × (percent t avimem ≡ some p)
      × (p ≤ 100)
      × (p * t ≤ (t - avimem) * 100)
      × ((t - avimem) * 100 < (p + 1) * t)
unfolding percent
percent_lem t avimem h l b = (
  used / t,
  rw (some_memory, less, small) refl,
  div-le_of_le-mul t (omega (arith, l)),
  div-mul-le_self used t,
  subst (λ x. used < x) (mul_comm t (used / t + 1)) (lt-mul-div-succ used h),
)
  where
    used : ℕ
    used = (t - avimem) * 100

    some_memory : (t == 0) ≡ false
    some_memory = ground (arith, h)

    less : leb avimem t ≡ true
    less = ground (arith, l)

    small : leb (2 ^ 31) used ≡ false
    small = ground (arith, b)

percent-all : (t : ℕ) → 0 < t → t * 100 < 2 ^ 31 → percent t 0 ≡ some 100
unfolding percent
percent-all t h b = rw (sub-zero, some_memory, none_left, small) (ap some (mul-div_right 100 h))
  where
    some_memory : (t == 0) ≡ false
    some_memory = ground (arith, h)

    none_left : leb 0 t ≡ true
    none_left = ground arith

    small : leb (2 ^ 31) (t * 100) ≡ false
    small = ground (arith, b)

-- When no line that is left tells the available memory, all lines are read.
find_available-none :
    (scan : List ℕ → ℕ) (index : ℕ) (lines : List (List ℕ))
    → All (λ line. is_available line ≡ false) lines
    → find_available scan index lines ≡ (0, [])
unfolding find_available
find_available-none scan index [] a = refl
find_available-none scan index (line ∷ lines) (a, bs) =
    rw (find_available-none scan (index + 1) lines bs) (go (leb (index + 1) 2))
  where
    go :
        (b : Bool)
        → ◌≡◌ {A = ℕ × List (List ℕ)}
            (if b then (0, []) else (if is_available line then (scan line, lines) else (0, [])))
            (0, [])
    go true = refl
    go false = rw a refl

-- Once the line with the available memory has been read, every report says that 100 percent are used,
-- since the file is not read from its start again, when the memory is not 0 and less than 2 ^ 31 / 100
-- KiB.
pub get_mem_usage-full :
    (m : Machine) (c : TcpClient) (lines : List (List ℕ))
    → c.file ≡ some lines
    → All (λ line. is_available line ≡ false) lines
    → 0 < c.totalram / 1024
    → c.totalram / 1024 * 100 < 2 ^ 31
    → (c' : TcpClient) × (get_mem_usage m c ≡ some (packet c', c'))
      × (c'.mem ≡ 100)
      × (c'.file ≡ some [])
unfolding get_mem_usage
get_mem_usage-full m c lines f a h b = (
  record c { file = some []; mem = 100 },
  rw (f, find_available-none m.scan 0 lines a, small, percent-all (c.totalram / 1024) h b) refl,
  refl,
  refl,
)
  where
    small : leb (2 ^ 31) (c.totalram / 1024) ≡ false
    small = ground (arith, b)
