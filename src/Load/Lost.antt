-- ===== src/Load/Lost.antt =====
-- A login server that disconnects leaves its pointer behind.
use cloud_assitant.Prelude.{
  ℕ, zero, suc, ◌≡◌, refl, ap, List, [], ◌∷◌, Option, none, some, true, false, get_elem?, ◌==◌,
  arith, if◌then◌else◌, ◌>>=◌,
}
use cloud_assitant.Load.{login_timestamp, monitor_mem}
use cloud_assitant.Load.Server.{
  World, Connection, Pointer, Candidate, deref, candidates, get_monitor_info,
}
use cloud_assitant.Load.Connection.{is_time_out, hnadle_login, disconnect}

bind-none : {A B : Type 0} (o : Option A) → (◌>>=◌ {B = B} o λ x. none) ≡ none
bind-none none = refl
bind-none (some x) = refl

bind_bind-none :
    {A B C : Type 0} (o : Option A) (f : A → Option B)
    → (◌>>=◌ {B = C} o λ x. ◌>>=◌ {B = C} (f x) λ y. none) ≡ none
bind_bind-none none f = refl
bind_bind-none (some x) f = bind-none (f x)

owner_gone :
    (cs : ℕ → Option Connection) (info info' : Pointer)
    → info' ≡ info
    → cs info.owner ≡ none
    → deref cs info' ≡ none
unfolding deref
owner_gone cs info info' q n = rw (q, n) refl

candidates-none :
    (cs : ℕ → Option Connection) (ms : List (ℕ × Pointer)) (k fd : ℕ) (info : Pointer)
    → get_elem? ms k ≡ some (fd, info)
    → cs info.owner ≡ none
    → candidates cs ms ≡ none
unfolding candidates deref
candidates-none cs [] k fd info e n = cc
candidates-none cs ((fd', info') ∷ ms) zero fd info e n =
    rw (owner_gone cs info info' (ap (λ o. elim o [ none ↦ info | some m ↦ m.1 ]) e) n) refl
candidates-none cs ((fd', info') ∷ ms) (suc k) fd info e n =
    rw (candidates-none cs ms k fd info e n) (bind_bind-none (deref cs info') monitor_mem)

-- Once a login server that has reported has disconnected, a login in time is undefined behaviour.
pub hnadle_login-lost :
    (sort : List Candidate → List Candidate) (now time i k fd : ℕ) (p : List ℕ) (w : World)
    (info : Pointer)
    → login_timestamp p ≡ some time
    → is_time_out now time ≡ some false
    → w.alive ≡ true
    → get_elem? w.monitor_infos k ≡ some (fd, info)
    → hnadle_login sort now i p (disconnect info.owner w) ≡ none
unfolding hnadle_login get_monitor_info disconnect
hnadle_login-lost sort now time i k fd p w info t late a e = rw (t, late, a, gone) refl
  where
    self : (if info.owner == info.owner then none else w.connections info.owner) ≡ none
    self = ground arith

    gone : candidates (disconnect info.owner w).connections w.monitor_infos ≡ none
    gone = candidates-none (disconnect info.owner w).connections w.monitor_infos k fd info e self
