-- ===== src/Load/Sort.antt =====
-- What `std::sort` promises of the vector in GetMonitorInfo, and where its first element stands.
use cloud_assitant.Prelude.{◌≡◌, refl, sym, subst, ◌≤◌, List, [], ◌∷◌, ◌≢◌, arith}
use mathlib.Core.Logic.Or
use native.Mathlib.Bridge.{le_prop}
use mathlib.Core.List.{Perm, Pairwise, Mem, mem-cons_self, eq-or-mem_of_mem-cons}
use mathlib.Core.List.Perm
use cloud_assitant.Load.Server.{Candidate}

-- Nothing is said of pairs with the same key.
pub record IsSort (sort : List Candidate → List Candidate) : Type 0 where
  pub permutes : (vec : List Candidate) → Perm (sort vec) vec
  pub sorts : (vec : List Candidate) → Pairwise (λ a b. a.0 ≤ b.0) (sort vec)

abbrev pub Least : Candidate → List Candidate → Type 0
Least c vec = (d : Candidate) → Mem d vec → c.0 ≤ d.0

head-Least :
    (c : Candidate) (rest vec : List Candidate)
    → Pairwise (λ a b. a.0 ≤ b.0) (c ∷ rest)
    → Perm (c ∷ rest) vec
    → Mem c vec × Least c vec
head-Least c rest vec (Pairwise.cons below _) p = (
  (Perm.mem_iff p).0 mem-cons_self,
  λ d m.
      Or.elim le_prop (eq-or-mem_of_mem-cons ((Perm.mem_iff p).1 m))
        (λ e. subst (λ x. c.0 ≤ x.0) (sym e) (omega arith)) (below d),
)

-- The first element of a vector that is not empty is one of the vector and has the least key.
pub sort-Least :
    (sort : List Candidate → List Candidate)
    → IsSort sort
    → (vec : List Candidate) → vec ≢ []
    → (c : Candidate) × (rest : List Candidate) × (sort vec ≡ c ∷ rest) × Mem c vec × Least c vec
sort-Least sort s vec h = pick (sort vec) refl (s.permutes vec) (s.sorts vec)
  where
    pick :
        (xs : List Candidate)
        → sort vec ≡ xs
        → Perm xs vec
        → Pairwise (λ a b. a.0 ≤ b.0) xs
        → (c : Candidate) × (rest : List Candidate) × (sort vec ≡ c ∷ rest)
          × Mem c vec
          × Least c vec
    pick [] e p o = absurd (h (sym (Perm.nil-eq p)))
    pick (c ∷ rest) e p o =
        (c, rest, e, (head-Least c rest vec o p).0, (head-Least c rest vec o p).1)
