-- ===== src/Prelude/Results.antt =====
-- What a result satisfies, if there is one.
use mathlib.Core.Bool.{Bool, true, false}
use mathlib.Core.Option.{Option, none, some}
use mathlib.Core.Path.{◌≡◌, refl}
use cloud_assitant.Prelude.Bytes.{◌>>=◌}
use cloud_assitant.Prelude.Tests.{if◌then◌else◌}

abbrev pub Holds : {A : Type 0} → (A → Type 0) → Option A → Type 0
Holds P none = Unit
Holds P (some x) = P x

pub bind-Holds :
    {A B : Type 0} (P : B → Type 0) (o : Option A) (f : A → Option B)
    → ((x : A) → Holds P (f x))
    → Holds P (o >>= f)
bind-Holds P none f h = tt
bind-Holds P (some x) f h = h x

pub then_bind-Holds :
    {A B : Type 0} (Q : A → Type 0) (P : B → Type 0) (o : Option A) (f : A → Option B)
    → Holds Q o
    → ((x : A) → Q x → Holds P (f x))
    → Holds P (o >>= f)
then_bind-Holds Q P none f q h = tt
then_bind-Holds Q P (some x) f q h = h x q

pub if-Holds :
    {A : Type 0} (P : A → Type 0) (b : Bool) (x y : Option A)
    → (b ≡ true → Holds P x)
    → (b ≡ false → Holds P y)
    → Holds P (if b then x else y)
if-Holds P true x y f g = f refl
if-Holds P false x y f g = g refl
