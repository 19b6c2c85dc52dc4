-- ===== src/Prelude/Bytes.antt =====
-- Memory as a list of bytes from a pointer on, and reads that may leave it.
use Prim.Native.String.{String, [] as nil, ◌∷◌ as ◌∷ₛ◌}
use Prim.Native.Char.{code}
use Prim.Native.Nat.{ℕ, zero, suc, ◌≤◌, ◌<◌}
use mathlib.Core.Path.{◌≡◌, refl}
use mathlib.Core.List.{List, [], ◌∷◌, ◌++◌}
use mathlib.Core.Option.{Option, none, some}
use native.Mathlib.Omega.{arith}
use mathlib.Core.Logic.{◌↔◌}
use mathlib.Core.Bool.{Bool, true, false, ◌&&◌}
use cloud_assitant.Prelude.Lists.{length, take}
use cloud_assitant.Prelude.Tests.{◌==◌}

-- `none` is an access outside the memory that the pointer may reach.
infixl 5 ◌>>=◌
abbrev pub ◌>>=◌ {ℓ κ} : {A : Type ℓ} {B : Type κ} → Option A → (A → Option B) → Option B
none >>= f = none
some a >>= f = f a

abbrev pub IsByte : ℕ → Type 0
IsByte b = b < 256

module _ {ℓ κ} {A : Type ℓ} where
  abbrev pub All : (A → Type κ) → List A → Type κ
  All P [] = Unit {κ}
  All P (x ∷ xs) = P x × All P xs

-- `n` bytes from the pointer on.
unfoldable pub read_bytes : ℕ → List ℕ → Option (List ℕ)
read_bytes zero xs = some []
read_bytes (suc n) [] = none
read_bytes (suc n) (x ∷ xs) = read_bytes n xs >>= λ r. some (x ∷ r)

pub read_bytes-append : (xs ys : List ℕ) → read_bytes (length xs) (xs ++ ys) ≡ some xs
unfolding read_bytes
read_bytes-append [] ys = refl
read_bytes-append (x ∷ xs) ys = rw (read_bytes-append xs ys)

pub read_bytes-take : (n : ℕ) (xs : List ℕ) → n ≤ length xs → read_bytes n xs ≡ some (take n xs)
unfolding read_bytes
read_bytes-take zero xs h = refl
read_bytes-take (suc n) [] h = absurd (omega arith)
read_bytes-take (suc n) (x ∷ xs) h = rw (read_bytes-take n xs (omega arith))

pub read_bytes-none : (n : ℕ) (xs : List ℕ) → length xs < n → read_bytes n xs ≡ none
unfolding read_bytes
read_bytes-none zero xs h = absurd (omega arith)
read_bytes-none (suc n) [] h = refl
read_bytes-none (suc n) (x ∷ xs) h = rw (read_bytes-none n xs (omega arith))

pub read_bytes_self : (xs : List ℕ) → read_bytes (length xs) xs ≡ some xs
unfolding read_bytes
read_bytes_self [] = refl
read_bytes_self (x ∷ xs) = rw (read_bytes_self xs)

-- `==` of two strings.
unfoldable pub list_eq : List ℕ → List ℕ → Bool
list_eq [] [] = true
list_eq [] (y ∷ ys) = false
list_eq (x ∷ xs) [] = false
list_eq (x ∷ xs) (y ∷ ys) = x == y && list_eq xs ys

pub list_eq_iff : (xs ys : List ℕ) → (list_eq xs ys ≡ true) ↔ (xs ≡ ys)
unfolding list_eq
list_eq_iff [] [] = ground arith
list_eq_iff [] (y ∷ ys) = (λ e. cc, λ e. cc)
list_eq_iff (x ∷ xs) [] = (λ e. cc, λ e. cc)
list_eq_iff (x ∷ xs) (y ∷ ys) = ground (arith, list_eq_iff xs ys)

-- The bytes of a text of ASCII characters.
abbrev pub text : String → List ℕ
text nil = []
text (c ∷ₛ s) = code c ∷ text s
