-- ===== src/Load/Tests/Sorting.antt =====
-- An insertion sort, which does what the model asks of `std::sort`.
use cloud_assitant.Prelude.{
  ◌≤◌, ◌≡◌, sym, subst, List, [], ◌∷◌, false, leb, Bool-cases, inl, inr, if◌then◌else◌, arith,
  leb→le,
}
use mathlib.Core.Logic.Or
use native.Mathlib.Bridge.{le_prop}
use mathlib.Core.List.{Perm, Pairwise, Pairwise-singleton, Mem, eq-or-mem_of_mem-cons}
use mathlib.Core.List.Perm
use cloud_assitant.Load.Server.{Candidate}
use cloud_assitant.Load.Sort.{IsSort}

abbrev Ascending : List Candidate → Type 0
Ascending xs = Pairwise (λ a b. a.0 ≤ b.0) xs

abbrev place : Candidate → List Candidate → List Candidate
place x [] = x ∷ []
place x (y ∷ ys) = if leb x.0 y.0 then x ∷ y ∷ ys else y ∷ place x ys

abbrev pub insertion_sort : List Candidate → List Candidate
insertion_sort [] = []
insertion_sort (x ∷ xs) = place x (insertion_sort xs)

place-perm : (x : Candidate) (xs : List Candidate) → Perm (place x xs) (x ∷ xs)
place-perm x [] = Perm.rfl
place-perm x (y ∷ ys) = elim (Bool-cases (leb x.0 y.0)) [
  | inl e ↦ rw e Perm.rfl
  | inr e ↦ rw e (Perm.trans (Perm.cons y (place-perm x ys)) (Perm.swap x y ys))
]

below_place :
    (y x : Candidate) (ys : List Candidate)
    → y.0 ≤ x.0
    → ((d : Candidate) → Mem d ys → y.0 ≤ d.0)
    → (d : Candidate) → Mem d (place x ys)
    → y.0 ≤ d.0
below_place y x ys h below d m =
    Or.elim le_prop (eq-or-mem_of_mem-cons ((Perm.mem_iff (place-perm x ys)).0 m))
      (λ e. subst (λ z. y.0 ≤ z.0) (sym e) h) (below d)

below_first :
    (x y : Candidate) (ys : List Candidate)
    → x.0 ≤ y.0
    → ((d : Candidate) → Mem d ys → y.0 ≤ d.0)
    → (d : Candidate) → Mem d (y ∷ ys)
    → x.0 ≤ d.0
below_first x y ys h below d m =
    Or.elim le_prop (eq-or-mem_of_mem-cons m) (λ e. subst (λ z. x.0 ≤ z.0) (sym e) h)
      λ k. (let s = below d k in omega (arith, s))

place-Ascending : (x : Candidate) (xs : List Candidate) → Ascending xs → Ascending (place x xs)
place-Ascending x [] a = Pairwise-singleton _ x
place-Ascending x (y ∷ ys) (Pairwise.cons below s) = elim (Bool-cases (leb x.0 y.0)) [
  | inl e ↦
      rw e (Pairwise.cons (below_first x y ys (leb→le x.0 y.0 e) below) (Pairwise.cons below s))
  | inr e ↦ rw e (Pairwise.cons (below_place y x ys (greater e) below) (place-Ascending x ys s))
]
  where
    greater : leb x.0 y.0 ≡ false → y.0 ≤ x.0
    greater e = ground arith

insertion_sort-perm : (xs : List Candidate) → Perm (insertion_sort xs) xs
insertion_sort-perm [] = Perm.rfl
insertion_sort-perm (x ∷ xs) =
    Perm.trans (place-perm x (insertion_sort xs)) (Perm.cons x (insertion_sort-perm xs))

insertion_sort-Ascending : (xs : List Candidate) → Ascending (insertion_sort xs)
insertion_sort-Ascending [] = Pairwise.nil
insertion_sort-Ascending (x ∷ xs) =
    place-Ascending x (insertion_sort xs) (insertion_sort-Ascending xs)

pub insertion_sort-IsSort : IsSort insertion_sort
insertion_sort-IsSort = record { permutes = insertion_sort-perm; sorts = insertion_sort-Ascending }
