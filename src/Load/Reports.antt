-- ===== src/Load/Reports.antt =====
-- What the server knows of the login servers: the reports that its pointers lead to, and the vector
-- that GetMonitorInfo sorts.
use cloud_assitant.Prelude.{
  ℕ, ◌≡◌, refl, sym, ap, subst, ap₂, ◌∙◌, List, [], ◌∷◌, Option, none, some, All, ◌>>=◌, ◌≢◌,
}
use mathlib.Core.Logic.Or
use mathlib.Core.HLevel.{⊥_prop}
use native.Mathlib.Nat.{ℕ_set}
use mathlib.Core.List.{
  Mem, not-mem-nil, mem-cons_self, mem-cons_of_mem, Mem-prop, eq-or-mem_of_mem-cons,
}
use cloud_assitant.Load.{monitor_mem, monitor_ip, monitor_port}
use cloud_assitant.Load.Server.{Connection, Pointer, Candidate, deref, candidates}

-- What a server reported.
pub record Report : Type 0 where
  pub mem : ℕ
  pub ip : List ℕ
  pub port : ℕ

abbrev pub report_of : ℕ → List ℕ → ℕ → Report
report_of mem ip port = record { mem = mem; ip = ip; port = port }

unfoldable pub read_report : List ℕ → Option Report
unfolding monitor_mem monitor_ip monitor_port
read_report p = do
  mem ← monitor_mem p
  ip ← monitor_ip p
  port ← monitor_port p
  some (report_of mem ip port)

-- The report that a pointer leads to.
unfoldable pub report : (ℕ → Option Connection) → Pointer → Option Report
unfolding deref read_report
report connections info = deref connections info >>= λ p. read_report p

-- The pointers that lead to a whole report.
abbrev pub Leads : (ℕ → Option Connection) → ℕ × Pointer → Type 0
Leads connections m = (r : Report) × (report connections m.1 ≡ some r)

abbrev pub key : (ℕ → Option Connection) → Pointer → Option ℕ
unfolding deref monitor_mem
key connections info = deref connections info >>= λ p. monitor_mem p

read-mem : (p : List ℕ) (r : Report) → read_report p ≡ some r → monitor_mem p ≡ some r.mem
unfolding read_report
read-mem p r e = go (monitor_mem p) (monitor_ip p) (monitor_port p) e
  where
    go :
        (m : Option ℕ) (i : Option (List ℕ)) (q : Option ℕ)
        → (m >>= λ mem. i >>= λ ip. q >>= λ port. some (report_of mem ip port)) ≡ some r
        → m ≡ some r.mem
    go none i q e = cc
    go (some m) none q e = cc
    go (some m) (some i) none e = cc
    go (some m) (some i) (some q) e = ap (λ o. elim o [ none ↦ none | some x ↦ some x.mem ]) e

key-report :
    (cs : ℕ → Option Connection) (info : Pointer) (r : Report)
    → report cs info ≡ some r
    → key cs info ≡ some r.mem
unfolding report
key-report cs info r e = go (deref cs info) e
  where
    go :
        (o : Option (List ℕ))
        → (o >>= λ p. read_report p) ≡ some r
        → (o >>= λ p. monitor_mem p) ≡ some r.mem
    go none e = cc
    go (some p) e = read-mem p r e

candidates-cons :
    (cs : ℕ → Option Connection) (fd : ℕ) (info : Pointer) (ms : List (ℕ × Pointer)) (k : ℕ)
    → key cs info ≡ some k
    → candidates cs ((fd, info) ∷ ms) ≡ (candidates cs ms >>= λ vec. some ((k, fd, info) ∷ vec))
unfolding candidates
candidates-cons cs fd info ms k e = go (deref cs info) e
  where
    inner :
        (m : Option ℕ)
        → m ≡ some k
        → (m >>= λ mem. candidates cs ms >>= λ vec. some ((mem, fd, info) ∷ vec))
          ≡ (candidates cs ms >>= λ vec. some ((k, fd, info) ∷ vec))
    inner m e = rw e refl

    go :
        (o : Option (List ℕ))
        → (o >>= λ p. monitor_mem p) ≡ some k
        → (o >>= λ body.
            monitor_mem body >>= λ mem. candidates cs ms >>= λ vec. some ((mem, fd, info) ∷ vec))
          ≡ (candidates cs ms >>= λ vec. some ((k, fd, info) ∷ vec))
    go none e = cc
    go (some p) e = inner (monitor_mem p) e

-- The vector has each pair of the map with the load that was reported, and nothing else.
pub record IsVector (cs : ℕ → Option Connection) (ms : List (ℕ × Pointer)) (vec : List Candidate)
    : Type 0 where
  pub made : candidates cs ms ≡ some vec
  pub sound : (c : Candidate) → Mem c vec → Mem (c.1, c.2) ms
  pub keys : (c : Candidate) (r : Report) → Mem c vec → report cs c.2 ≡ some r → c.0 ≡ r.mem
  pub full :
      (fd : ℕ) (info : Pointer) (r : Report)
      → Mem (fd, info) ms
      → report cs info ≡ some r
      → Mem (r.mem, fd, info) vec

same_report :
    (cs : ℕ → Option Connection) {info info' : Pointer} (r r' : Report)
    → info' ≡ info
    → report cs info ≡ some r
    → report cs info' ≡ some r'
    → r.mem ≡ r'.mem
same_report cs r r' q e e' =
    ap (λ o. elim o [ none ↦ 0 | some x ↦ x.mem ]) (sym e ∙ (ap (report cs) (sym q) ∙ e'))

pub candidates_lem :
    (cs : ℕ → Option Connection) (ms : List (ℕ × Pointer))
    → All (Leads cs) ms
    → (vec : List Candidate) × IsVector cs ms vec
unfolding candidates
candidates_lem cs [] l = (
  [],
  record {
    made = refl;
    sound = λ c m. absurd (not-mem-nil m);
    keys = λ c r m e. absurd (not-mem-nil m);
    full = λ fd info r m e. absurd (not-mem-nil m);
  },
)
candidates_lem cs ((fd, info) ∷ ms) (l, ls) =
    let (vec, v) = candidates_lem cs ms ls in
    let (r, e) = l in
    (
      (r.mem, fd, info) ∷ vec,
      record {
        made = candidates-cons cs fd info ms r.mem (key-report cs info r e) ∙ rw (v.made) refl;
        sound = λ c m.
            Or.elim Mem-prop (eq-or-mem_of_mem-cons m)
              (λ q. subst (λ x. Mem (x.1, x.2) ((fd, info) ∷ ms)) (sym q) mem-cons_self)
              (λ n. mem-cons_of_mem _ (v.sound c n));
        keys = λ c r' m e'.
            Or.elim (ℕ_set _ _) (eq-or-mem_of_mem-cons m)
              (λ q. ap (λ x. x.0) q ∙ same_report cs r r' (ap (λ x. x.2) q) e e')
              (λ n. v.keys c r' n e');
        full = λ fd' info' r' m e'.
            Or.elim Mem-prop (eq-or-mem_of_mem-cons m)
              (λ q.
                subst (λ x. Mem x ((r.mem, fd, info) ∷ vec))
                  (ap₂ (λ k x. (k, x.0, x.1)) (same_report cs r r' (ap (λ x. x.1) q) e e') (sym q))
                  mem-cons_self)
              (λ n. mem-cons_of_mem _ (v.full fd' info' r' n e'));
      },
    )

pub Leads-ne-none :
    (cs : ℕ → Option Connection) (ms : List (ℕ × Pointer))
    → All (Leads cs) ms
    → (m : ℕ × Pointer) → Mem m ms
    → report cs m.1 ≢ none
Leads-ne-none cs [] l m k e = not-mem-nil k
Leads-ne-none cs (n ∷ ms) (l, ls) m k e =
    Or.elim ⊥_prop (eq-or-mem_of_mem-cons k)
      (λ q. (let bad = sym l.1 ∙ (ap (λ x. report cs x.1) (sym q) ∙ e) in cc))
      λ k'. Leads-ne-none cs ms ls m k' e

pub vector-ne-nil :
    (cs : ℕ → Option Connection) (ms : List (ℕ × Pointer)) (vec : List Candidate)
    → All (Leads cs) ms
    → ms ≢ []
    → IsVector cs ms vec
    → vec ≢ []
vector-ne-nil cs [] vec l h v e = h refl
vector-ne-nil cs ((fd, info) ∷ ms) vec (l, ls) h v e =
    not-mem-nil (subst (Mem _) e (v.full fd info l.0 mem-cons_self l.1))
