-- ===== src/Rtmp/Url.antt =====
-- `ParseRtmpUrl` of RtmpServer/Rtmp.h, with what `sscanf` does for its formats. An outer `none` is a
-- write past one of the arrays, since the formats have no widths. Texts have no zero byte.
pub mod Parsed
use cloud_assitant.Prelude.{
  ℕ, zero, suc, ◌+◌, ◌-◌, ◌*◌, ◌%◌, ◌^◌, List, [], ◌∷◌, ◌++◌, Option, none, some, Bool, true, false,
  not, leb, ◌==◌, ◌&&◌, ◌||◌, if◌then◌else◌, length, drop, text, strstr, ◌>>=◌,
}

-- The longest start whose bytes pass the test, and the rest.
unfoldable pub span : (ℕ → Bool) → List ℕ → List ℕ × List ℕ
span p [] = ([], [])
span p (x ∷ xs) = let (ys, zs) = span p xs in if p x then (x ∷ ys, zs) else ([], x ∷ xs)

unfoldable pub is_space : ℕ → Bool
is_space c = c == 32 || (leb 9 c && leb c 13)

unfoldable pub is_digit : ℕ → Bool
is_digit c = leb 48 c && leb c 57

abbrev pub is_not : ℕ → ℕ → Bool
is_not stop c = not (c == stop)

-- What a conversion leaves: an inner `none` is a text that does not match.
abbrev pub Scanned : Type 0 → Type 0
Scanned A = Option (A × List ℕ)

-- The bytes that were matched, stored with a zero into an array of `size` bytes.
unfoldable pub stored : ℕ → List ℕ × List ℕ → Option (Scanned (List ℕ))
stored size ([], rest) = some none
stored size (x ∷ xs, rest) = if leb size (length (x ∷ xs)) then none else some (some (x ∷ xs, rest))

-- "%[^c]"
unfoldable pub scan_until : ℕ → ℕ → List ℕ → Option (Scanned (List ℕ))
unfolding span stored
scan_until c size xs = stored size (span (is_not c) xs)

-- "%s"
unfoldable pub scan_string : ℕ → List ℕ → Option (Scanned (List ℕ))
unfolding span stored is_space
scan_string size xs = stored size (span (λ c. not (is_space c)) (span is_space xs).1)

-- A character of the format.
unfoldable pub scan_literal : ℕ → List ℕ → Option (List ℕ)
scan_literal c [] = none
scan_literal c (x ∷ xs) = if x == c then some xs else none

-- The number that digits stand for.
unfoldable pub decimal : ℕ → List ℕ → ℕ
decimal n [] = n
decimal n (d ∷ ds) = decimal (n * 10 + (d - 48)) ds

-- `strtoul`, cut to a `uint16_t`.
unfoldable pub to_ushort : Bool → List ℕ → ℕ
unfolding decimal
to_ushort negative ds =
    let v = decimal 0 ds in
    (if leb (2 ^ 64) v then 2 ^ 64 - 1 else (if negative then (2 ^ 64 - v) % 2 ^ 64 else v))
    % 2 ^ 16

-- A sign, and the rest.
unfoldable pub sign : List ℕ → Bool × List ℕ
sign [] = (false, [])
sign (x ∷ xs) = if x == 45 then (true, xs) else (if x == 43 then (false, xs) else (false, x ∷ xs))

-- The number of some digits that were matched.
unfoldable pub number : Bool → List ℕ × List ℕ → Scanned ℕ
unfolding to_ushort
number negative ([], rest) = none
number negative (d ∷ ds, rest) = some (to_ushort negative (d ∷ ds), rest)

-- A sign and digits.
unfoldable pub signed : Bool × List ℕ → Scanned ℕ
unfolding span is_digit number
signed (negative, xs) = number negative (span is_digit xs)

-- "%hu"
unfoldable pub scan_ushort : List ℕ → Scanned ℕ
unfolding span is_space sign signed
scan_ushort xs = signed (sign (span is_space xs).1)

-- ":%hu/"
unfoldable pub scan_port : List ℕ → Scanned ℕ
unfolding scan_literal scan_ushort
scan_port xs = do
  xs₁ ← scan_literal 58 xs
  (port, xs₂) ← scan_ushort xs₁
  xs₃ ← scan_literal 47 xs₂
  some (port, xs₃)

-- `sscanf` with "%[^:]:%hu/%s", from its end: what follows the path, the port and the address.
unfoldable pub after_path : List ℕ → ℕ → Scanned (List ℕ) → Option (Option (List ℕ × ℕ × List ℕ))
after_path ip port none = some none
after_path ip port (some (path, rest)) = some (some (ip, port, path))

unfoldable pub after_port : List ℕ → Scanned ℕ → Option (Option (List ℕ × ℕ × List ℕ))
unfolding scan_string after_path
after_port ip none = some none
after_port ip (some (port, xs)) = scan_string 500 xs >>= λ path. after_path ip port path

unfoldable pub after_host : Scanned (List ℕ) → Option (Option (List ℕ × ℕ × List ℕ))
unfolding scan_port after_port
after_host none = some none
after_host (some (ip, xs)) = after_port ip (scan_port xs)

-- The fields if all three match.
unfoldable pub scan_with_port : List ℕ → Option (Option (List ℕ × ℕ × List ℕ))
unfolding scan_until after_host
scan_with_port xs = scan_until 58 100 xs >>= λ host. after_host host

-- `sscanf` with "%[^/]/%s", into arrays of these sizes.
unfoldable pub scan_pair : ℕ → ℕ → List ℕ → Option (Option (List ℕ × List ℕ))
unfolding scan_until scan_literal scan_string
scan_pair size size' xs = scan_until 47 size xs >>= λ host. elim host [
  | none ↦ some none
  | some (a, xs₁) ↦ elim (scan_literal 47 xs₁) [
    | none ↦ some none
    | some xs₂ ↦ scan_string size' xs₂ >>= λ path. elim path [
      | none ↦ some none
      | some (b, rest) ↦ some (some (a, b))
    ]
  ]
]

-- The fields that ParseRtmpUrl sets.
pub record Url : Type 0 where
  pub port : ℕ
  pub ip : List ℕ
  pub app : List ℕ
  pub stream_name : List ℕ
  pub stream_path : List ℕ

-- The end of ParseRtmpUrl; true stands for 0 and false for -1.
unfoldable pub set_fields : Url → List ℕ → ℕ → List ℕ → Option (Bool × Url)
unfolding scan_literal scan_pair
set_fields u ip port path =
    let u' = record u { port = port; ip = ip; stream_path = u.stream_path ++ (47 ∷ path) } in
    elim (scan_literal 47 u'.stream_path) [
      | none ↦ some (false, u')
      | some xs ↦ scan_pair 100 400 xs >>= λ names. elim names [
        | none ↦ some (false, u')
        | some (app, name) ↦ some (true, record u' { app = app; stream_name = name })
      ]
    ]

-- `ParseRtmpUrl`
unfoldable pub parse_rtmp_url : List ℕ → Url → Option (Bool × Url)
unfolding strstr scan_with_port scan_pair set_fields
parse_rtmp_url url u =
    if strstr url (text "rtmp://")
    then (scan_with_port (drop 7 url) >>= λ full. elim full [
      | some (ip, port, path) ↦ set_fields u ip port path
      | none ↦ scan_pair 100 500 (drop 7 url) >>= λ short. elim short [
        | none ↦ some (false, u)
        | some (ip, path) ↦ set_fields u ip 1935 path
      ]
    ])
    else some (false, u)
