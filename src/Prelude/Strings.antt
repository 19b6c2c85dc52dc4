-- ===== src/Prelude/Strings.antt =====
-- C strings in memory, and `std::string::copy` into an array.
use Prim.Native.Nat.{ℕ, ◌+◌}
use mathlib.Core.Path.{◌≡◌, refl, ap, subst}
use mathlib.Core.Bool.{Bool, true, false, ◌&&◌, ◌||◌}
use mathlib.Core.List.{List, [], ◌∷◌, ◌++◌}
use mathlib.Core.Option.{Option, none, some}
use native.Mathlib.Nat.{zero-add, suc-add}
use native.Mathlib.Omega.{arith}
use cloud_assitant.Prelude.Tests.{◌==◌, ==_iff, if◌then◌else◌}
use cloud_assitant.Prelude.Lists.{
  length, take, drop, get_elem?, length-append, length-drop, length-take,
}
use cloud_assitant.Prelude.Bytes.{◌>>=◌, All}

-- `std::string(p)` on what follows in memory: the bytes before the first zero. `none` is a read
-- outside the memory.
unfoldable pub c_string : List ℕ → Option (List ℕ)
c_string [] = none
c_string (c ∷ cs) =
    let rest = c_string cs in if c == 0 then some [] else (rest >>= λ t. some (c ∷ t))

-- `str.copy(array.data(), array.size(), 0)`, which writes no zero at the end.
unfoldable pub string_copy : List ℕ → List ℕ → List ℕ
string_copy array str = take (length array) str ++ drop (length (take (length array) str)) array

-- A text without a zero that is shorter than the array, which has a zero where the text ends.
pub record Fits (array str : List ℕ) : Type 0 where
  pub nonzero : All (λ b. (b == 0) ≡ false) str
  pub ends : get_elem? array (length str) ≡ some 0

pub c_string-copy :
    (array str rest : List ℕ) → Fits array str → c_string (string_copy array str ++ rest) ≡ some str
unfolding c_string string_copy
c_string-copy [] str rest f = let e = f.ends in cc
c_string-copy (x ∷ array) [] rest f =
    rw ((==_iff x 0).1 (ap (λ o. elim o [ none ↦ x | some y ↦ y ]) f.ends)) refl
c_string-copy (x ∷ array) (s ∷ str) rest f =
    rw (f.nonzero.0, c_string-copy array str rest (record { nonzero = f.nonzero.1; ends = f.ends }))
      refl

pub length-string_copy : (array str : List ℕ) → length (string_copy array str) ≡ length array
unfolding string_copy
length-string_copy array str = omega (
  arith,
  length-append (take (length array) str) (drop (length (take (length array) str)) array),
  length-take (length array) str,
  length-drop (length (take (length array) str)) array,
)

-- What stands behind an array of `n` bytes.
pub drop-behind : (n k : ℕ) (xs ys : List ℕ) → length xs ≡ n → drop (n + k) (xs ++ ys) ≡ drop k ys
drop-behind n k xs ys e = subst (λ m. drop (m + k) (xs ++ ys) ≡ drop k ys) e (behind xs)
  where
    behind : (xs : List ℕ) → drop (length xs + k) (xs ++ ys) ≡ drop k ys
    behind [] = rw zero-add refl
    behind (x ∷ xs) = rw suc-add (behind xs)

-- A text at the start of another one, and whether `strstr` finds it.
unfoldable pub starts : List ℕ → List ℕ → Bool
starts [] ys = true
starts (x ∷ xs) [] = false
starts (x ∷ xs) (y ∷ ys) = x == y && starts xs ys

unfoldable pub strstr : List ℕ → List ℕ → Bool
unfolding starts
strstr [] xs = starts xs []
strstr (y ∷ ys) xs = starts xs (y ∷ ys) || strstr ys xs
