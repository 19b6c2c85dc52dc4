-- ===== src/Net/Timer/Events.antt =====
-- The events of a queue of Net/Timer.cpp: which are due, and which timers they name.
use cloud_assitant.Prelude.{
  ℕ, suc, ◌≤◌, ◌<◌, ◌≡◌, refl, sym, ap, ◌∙◌, subst, inl, inr, List, [], ◌∷◌, Bool, true, false, leb,
  ◌==◌, ◌||◌, ◌&&◌, if◌then◌else◌, length, All, arith, Bool-cases,
}
use cloud_assitant.Net.Timer.{Timer, before, insert, erase_timer, erase_event, with_object}

abbrev pub has_event : ℕ → List (ℕ × ℕ) → Bool
has_event id [] = false
has_event id ((t, j) ∷ es) = j == id || has_event id es

-- The events that are due.
abbrev pub due : ℕ → List (ℕ × ℕ) → ℕ
due now [] = 0
due now ((t, id) ∷ es) = let rest = due now es in if leb t now then suc rest else rest

pub due-length : (now : ℕ) (es : List (ℕ × ℕ)) → due now es ≤ length es
due-length now [] = omega arith
due-length now ((t, id) ∷ es) = elim (Bool-cases (leb t now)) [
  | inl e ↦ rw e (omega (arith, due-length now es))
  | inr e ↦ rw e (omega (arith, due-length now es))
]

-- An event of a later time is not due.
pub due-insert :
    (now t id : ℕ) (es : List (ℕ × ℕ)) → now < t → due now (insert (t, id) es) ≤ due now es
unfolding insert
due-insert now t id [] h = rw (late t h) (omega arith)
  where
    late : (t : ℕ) → now < t → leb t now ≡ false
    late t h = ground arith
due-insert now t id ((u, j) ∷ es) h = elim (Bool-cases (before (t, id) (u, j))) [
  | inl e ↦ rw e (rw (late t h) (omega arith))
  | inr e ↦ rw e (elim (Bool-cases (before (u, j) (t, id))) [
    | inl f ↦ rw f (elim (Bool-cases (leb u now)) [
      | inl g ↦ rw g (omega (arith, due-insert now t id es h))
      | inr g ↦ rw g (omega (arith, due-insert now t id es h))
    ])
    | inr f ↦ rw f (omega arith)
  ])
]
  where
    late : (t : ℕ) → now < t → leb t now ≡ false
    late t h = ground arith

same_event :
    (t id u j : ℕ)
    → before (t, id) (u, j) ≡ false
    → before (u, j) (t, id) ≡ false
    → (j == id) ≡ true
same_event t id u j e f = ground arith

pub equal_self : (n : ℕ) → (n == n) ≡ true
equal_self n = ground arith

pub has_event-inserted : (t id : ℕ) (es : List (ℕ × ℕ)) → has_event id (insert (t, id) es) ≡ true
unfolding insert
has_event-inserted t id [] = rw (equal_self id) refl
has_event-inserted t id ((u, j) ∷ es) = elim (Bool-cases (before (t, id) (u, j))) [
  | inl e ↦ rw e (rw (equal_self id) refl)
  | inr e ↦ rw e (elim (Bool-cases (before (u, j) (t, id))) [
    | inl f ↦ rw f (elim (Bool-cases (j == id)) [
      | inl g ↦ rw g refl
      | inr g ↦ rw g (has_event-inserted t id es)
    ])
    | inr f ↦ rw f (rw (same_event t id u j e f) refl)
  ])
]

pub has_event-insert :
    (k t id : ℕ) (es : List (ℕ × ℕ))
    → has_event k es ≡ true
    → has_event k (insert (t, id) es) ≡ true
unfolding insert
has_event-insert k t id [] h = cc
has_event-insert k t id ((u, j) ∷ es) h = elim (Bool-cases (before (t, id) (u, j))) [
  | inl e ↦ rw e (elim (Bool-cases (id == k)) [ inl f ↦ rw f refl | inr f ↦ rw f h ])
  | inr e ↦ rw e (elim (Bool-cases (before (u, j) (t, id))) [
    | inl f ↦ rw f (elim (Bool-cases (j == k)) [
      | inl g ↦ rw g refl
      | inr g ↦ rw g (has_event-insert k t id es (ap (λ b. b || has_event k es) (sym g) ∙ h))
    ])
    | inr f ↦ rw f h
  ])
]

abbrev pub Named : List (ℕ × ℕ) → Type 0
Named es = All (λ (t, id). (id == 0) ≡ false) es

pub insert-Named :
    (t id : ℕ) (es : List (ℕ × ℕ)) → (id == 0) ≡ false → Named es → Named (insert (t, id) es)
unfolding insert
insert-Named t id [] h n = (h, tt)
insert-Named t id ((u, j) ∷ es) h (n, ns) = elim (Bool-cases (before (t, id) (u, j))) [
  | inl e ↦ rw e (h, (n, ns))
  | inr e ↦ rw e (elim (Bool-cases (before (u, j) (t, id))) [
    | inl f ↦ rw f (n, insert-Named t id es h ns)
    | inr f ↦ rw f (n, ns)
  ])
]

-- No timer that has an event has the interval 0.
abbrev pub Moving : (ℕ → Timer) → List (ℕ × ℕ) → Type 0
Moving objects es = All (λ (t, id). 0 < (objects id).interval) es

pub insert-Moving :
    (objects : ℕ → Timer) (t id : ℕ) (es : List (ℕ × ℕ))
    → 0 < (objects id).interval
    → Moving objects es
    → Moving objects (insert (t, id) es)
unfolding insert
insert-Moving objects t id [] h m = (h, tt)
insert-Moving objects t id ((u, j) ∷ es) h (m, ms) = elim (Bool-cases (before (t, id) (u, j))) [
  | inl e ↦ rw e (h, (m, ms))
  | inr e ↦ rw e (elim (Bool-cases (before (u, j) (t, id))) [
    | inl f ↦ rw f (m, insert-Moving objects t id es h ms)
    | inr f ↦ rw f (m, ms)
  ])
]

-- An object with an interval may take the place of any other.
pub with_object-Moving :
    (objects : ℕ → Timer) (id : ℕ) (o : Timer) (es : List (ℕ × ℕ))
    → 0 < o.interval
    → Moving objects es
    → Moving (with_object id o objects) es
with_object-Moving objects id o [] h m = tt
with_object-Moving objects id o ((u, j) ∷ es) h (m, ms) = (
  elim (Bool-cases (j == id)) [ inl e ↦ rw e h | inr e ↦ rw e m ],
  with_object-Moving objects id o es h ms,
)

abbrev pub Covered : List ℕ → List (ℕ × ℕ) → Type 0
Covered ids es = All (λ id. has_event id es ≡ true) ids

-- The timers stay covered when the first event moves, and the others when its timer goes.
pub cover_moved :
    (t u id : ℕ) (es : List (ℕ × ℕ)) (ids : List ℕ)
    → Covered ids ((t, id) ∷ es)
    → Covered ids (insert (u, id) es)
cover_moved t u id es [] c = tt
cover_moved t u id es (k ∷ ids) (c, cs) = (moved, cover_moved t u id es ids cs)
  where
    same : (id == k) ≡ true → id ≡ k
    same h = ground arith

    moved : has_event k (insert (u, id) es) ≡ true
    moved = elim (Bool-cases (id == k)) [
      | inl e ↦
          subst (λ n. has_event n (insert (u, id) es) ≡ true) (same e) (has_event-inserted u id es)
      | inr e ↦ has_event-insert k u id es (ap (λ b. b || has_event k es) (sym e) ∙ c)
    ]

pub cover_gone :
    (t id : ℕ) (es : List (ℕ × ℕ)) (ids : List ℕ)
    → Covered ids ((t, id) ∷ es)
    → Covered (erase_timer id ids) es
unfolding erase_timer
cover_gone t id es [] c = tt
cover_gone t id es (k ∷ ids) (c, cs) = elim (Bool-cases (k == id)) [
  | inl e ↦ rw e (cover_gone t id es ids cs)
  | inr e ↦ rw e (ap (λ b. b || has_event k es) (sym (other e)) ∙ c, cover_gone t id es ids cs)
]
  where
    other : (k == id) ≡ false → (id == k) ≡ false
    other h = ground arith

pub erase-All :
    (P : ℕ × ℕ → Type 0) (t id : ℕ) (es : List (ℕ × ℕ)) → All P es → All P (erase_event (t, id) es)
unfolding erase_event
erase-All P t id [] a = tt
erase-All P t id ((u, j) ∷ es) (p, a) = elim (Bool-cases (t == u && id == j)) [
  | inl e ↦ rw e (erase-All P t id es a)
  | inr e ↦ rw e (p, erase-All P t id es a)
]

has_event-erase :
    (k t id : ℕ) (es : List (ℕ × ℕ))
    → (id == k) ≡ false
    → has_event k es ≡ true
    → has_event k (erase_event (t, id) es) ≡ true
unfolding erase_event
has_event-erase k t id [] n h = cc
has_event-erase k t id ((u, j) ∷ es) n h = elim (Bool-cases (t == u && id == j)) [
  | inl e ↦ rw e (has_event-erase k t id es n (later (has_event k es) (other t id u j k e n) h))
  | inr e ↦ rw e (elim (Bool-cases (j == k)) [
    | inl f ↦ rw f refl
    | inr f ↦ rw f (has_event-erase k t id es n (later (has_event k es) f h))
  ])
]
  where
    later : (b : Bool) → (j == k) ≡ false → (j == k || b) ≡ true → b ≡ true
    later b f h = rw f at h

    other : (t id u j k : ℕ) → (t == u && id == j) ≡ true → (id == k) ≡ false → (j == k) ≡ false
    other t id u j k e n = ground (arith, e, n)

-- The timers stay covered when the one that goes takes an event of its own.
pub cover_removed :
    (t id : ℕ) (es : List (ℕ × ℕ)) (ids : List ℕ)
    → Covered ids es
    → Covered (erase_timer id ids) (erase_event (t, id) es)
unfolding erase_timer
cover_removed t id es [] c = tt
cover_removed t id es (k ∷ ids) (c, cs) = elim (Bool-cases (k == id)) [
  | inl e ↦ rw e (cover_removed t id es ids cs)
  | inr e ↦ rw e (has_event-erase k t id es (other e) c, cover_removed t id es ids cs)
]
  where
    other : (k == id) ≡ false → (id == k) ≡ false
    other h = ground arith
