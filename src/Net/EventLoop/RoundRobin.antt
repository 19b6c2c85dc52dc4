-- ===== src/Net/EventLoop/RoundRobin.antt =====
-- GetTaskSchduler of Net/EventLoop.cpp deals the schedulers out in turn.
use cloud_assitant.Prelude.{
  ℕ, zero, suc, ◌+◌, ◌%◌, ◌^◌, ◌<◌, ◌≡◌, refl, sym, ap, ap₂, ◌∙◌, List, [], ◌∷◌, some, true, false,
  ltb, leb, ◌==◌, if◌then◌else◌, length, arith, Bool-cases, inl, inr,
}
use native.Mathlib.Nat.{mod_self, mod-eq_of_lt, mod-mod, mod-add-mod, mod-lt, add-zero}
use cloud_assitant.Net.EventLoop.{EventLoop, get_task_schduler, calls}

-- The positions from `i` on, in turn.
abbrev pub in_turn : ℕ → ℕ → ℕ → List ℕ
in_turn n zero i = []
in_turn n (suc k) i = i % n ∷ in_turn n k (i + 1)

get_task_schduler-next :
    (l : EventLoop) (n : ℕ)
    → length l.task_schdulers ≡ n
    → 1 < n
    → n < 2 ^ 32
    → l.index < n
    → get_task_schduler l ≡ some (l.index, record l { index = (l.index + 1) % n })
unfolding get_task_schduler
get_task_schduler-next l n e h b v =
    rw (e, many, there, wrapped) (ap (λ i. some (l.index, record l { index = i })) next)
  where
    many : (n == 1) ≡ false
    many = ground arith

    there : ltb l.index n ≡ true
    there = ground (arith, v)

    wrapped : (l.index + 1) % 2 ^ 32 ≡ l.index + 1
    wrapped = omega (arith, v, b)

    next : (if leb n (l.index + 1) then 0 else l.index + 1) ≡ (l.index + 1) % n
    next = elim (Bool-cases (leb n (l.index + 1))) [
      | inl f ↦ rw f (rw (last f) (sym (mod_self n)))
      | inr f ↦ rw f (sym (mod-eq_of_lt (inner f)))
    ]
      where
        last : leb n (l.index + 1) ≡ true → l.index + 1 ≡ n
        last f = ground (arith, v)

        inner : leb n (l.index + 1) ≡ false → l.index + 1 < n
        inner f = ground arith

in_turn-mod : (n k i : ℕ) → in_turn n k (i % n) ≡ in_turn n k i
in_turn-mod n zero i = refl
in_turn-mod n (suc k) i = ap₂ ◌∷◌ (mod-mod i n) (
    sym (in_turn-mod n k (i % n + 1))
    ∙ (ap (in_turn n k) (mod-add-mod i n 1) ∙ in_turn-mod n k (i + 1)))

-- Successive calls answer with the schedulers in turn, from the current index on and from the first
-- again after the last, when there are two schedulers at least and fewer than 2 ^ 32.
pub calls-in_turn :
    (k n : ℕ) (l : EventLoop)
    → length l.task_schdulers ≡ n
    → 1 < n
    → n < 2 ^ 32
    → l.index < n
    → calls k l ≡ some (in_turn n k l.index, record l { index = (l.index + k) % n })
unfolding calls
calls-in_turn zero n l e h b v =
    ap (λ i. some ([], record l { index = i })) (sym (rw add-zero (mod-eq_of_lt v)))
calls-in_turn (suc k) n l e h b v = rw (get_task_schduler-next l n e h b v) (
    rw (calls-in_turn k n (record l { index = (l.index + 1) % n }) e h b (mod-lt _ (omega arith))) (
      ap₂ (λ is i. some (is, record l { index = i }))
        (ap₂ ◌∷◌ (sym (mod-eq_of_lt v)) (in_turn-mod n k (l.index + 1)))
        (mod-add-mod (l.index + 1) n k ∙ ap (λ i. i % n) (omega arith))))
