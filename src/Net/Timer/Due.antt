-- ===== src/Net/Timer/Due.antt =====
-- When the loop of `HandleTimerEvent` of Net/Timer.cpp ends.
use cloud_assitant.Prelude.{
  ℕ, zero, suc, ◌+◌, ◌%◌, ◌^◌, ◌≤◌, ◌<◌, ◌≡◌, ◌≢◌, refl, sym, ap, ◌∙◌, subst, inl, inr, List, [],
  ◌∷◌, Option, none, some, Bool, true, false, leb, ◌==◌, ◌⊎◌, if◌then◌else◌, length, All, arith,
  Bool-cases,
}
use cloud_assitant.Net.Timer.{
  Timer, TimerQueue, insert, with_object, set_next_timeout, run_first, next_round, handle_loop,
  handle_timer_event, add_timer, has_timer, remove_timer,
}
use cloud_assitant.Net.Timer.Events.{
  has_event, due, due-length, due-insert, equal_self, Named, insert-Named, Covered, cover_moved,
  erase-All, cover_removed, Moving, insert-Moving, with_object-Moving, has_event-inserted,
  has_event-insert, cover_gone,
}

-- A queue whose timers all have an event, whose events all name a timer other than 0, and where no
-- interval of a timer with an event is 0.
pub record IsValid (q : TimerQueue) : Type 0 where
  pub covered : All (λ id. has_event id q.events ≡ true) q.timers
  pub named : All (λ (t, id). (id == 0) ≡ false) q.events
  pub moving : Moving q.objects q.events

-- A round with a due event leaves fewer of them.
round_less :
    (flag : ℕ → Bool) (now : ℕ) (q : TimerQueue) (t id : ℕ) (later : List (ℕ × ℕ))
    → IsValid q
    → q.events ≡ (t, id) ∷ later
    → let q' = run_first flag now q id later in IsValid q' × (due now q'.events ≤ due now later)
unfolding run_first set_next_timeout
round_less flag now q t id later v e =
    let (name, names) = subst Named e v.named in
    let (move, moves) = subst (Moving q.objects) e v.moving in
    let cover = subst (Covered q.timers) e v.covered in
    rw name (elim (Bool-cases (flag id)) [
      | inl again ↦ rw again (
        record {
          covered = cover_moved t (now + (q.objects id).interval) id later q.timers cover;
          named = insert-Named (now + (q.objects id).interval) id later name names;
          moving =
              insert-Moving (with_object id (set_next_timeout (q.objects id) now) q.objects)
                (now + (q.objects id).interval) id later (rw (equal_self id) move)
                (with_object-Moving q.objects id (set_next_timeout (q.objects id) now) later move
                  moves);
        },
        due-insert now (now + (q.objects id).interval) id later (omega (arith, move)),
      )
      | inr once ↦ rw once (
        record { covered = cover_gone t id later q.timers cover; named = names; moving = moves },
        omega arith,
      )
    ])

-- A queue without timers.
abbrev pub IsEmpty : TimerQueue → Type 0
IsEmpty q = (q.timers ≡ []) × (q.events ≡ [])

pub empty-IsValid : (q : TimerQueue) → IsEmpty q → IsValid q
empty-IsValid q (no_timers, no_events) = record {
  covered = rw no_timers tt;
  named = rw no_events tt;
  moving = rw no_events tt;
}

-- `AddTimer` with an interval other than 0, while the counter of ids does not wrap.
pub add_timer-IsValid :
    (q : TimerQueue) (mesc now : ℕ)
    → IsValid q
    → 0 < mesc
    → q.last_timer_id + 1 < 2 ^ 32
    → IsValid (add_timer q mesc now).1
unfolding add_timer set_next_timeout
add_timer-IsValid q mesc now v h small = record {
  covered = elim (Bool-cases (has_timer id q.timers)) [
    | inl e ↦ rw e older
    | inr e ↦ rw e (has_event-inserted (now + mesc) id q.events, older)
  ];
  named = insert-Named (now + mesc) id q.events (not_zero q.last_timer_id small) v.named;
  moving =
      insert-Moving (with_object id timer q.objects) (now + mesc) id q.events (rw (equal_self id) h)
        (with_object-Moving q.objects id timer q.events h v.moving);
}
  where
    id : ℕ
    id = (q.last_timer_id + 1) % 2 ^ 32

    timer : Timer
    timer = record { interval = mesc; next_timeout = now + mesc }

    not_zero : (n : ℕ) → n + 1 < 2 ^ 32 → ((n + 1) % 2 ^ 32 == 0) ≡ false
    not_zero n h = ground (arith, h)

    stay : (ids : List ℕ) → Covered ids q.events → Covered ids (insert (now + mesc, id) q.events)
    stay [] c = tt
    stay (k ∷ ids) (c, cs) = (has_event-insert k (now + mesc) id q.events c, stay ids cs)

    older : Covered q.timers (insert (now + mesc, id) q.events)
    older = stay q.timers v.covered

pub remove_timer-IsValid : (q : TimerQueue) (id : ℕ) → IsValid q → IsValid (remove_timer q id)
unfolding remove_timer
remove_timer-IsValid q id v = elim (Bool-cases (has_timer id q.timers)) [
  | inl e ↦ rw e (record {
    covered = cover_removed (q.objects id).next_timeout id q.events q.timers v.covered;
    named = erase-All _ (q.objects id).next_timeout id q.events v.named;
    moving = erase-All _ (q.objects id).next_timeout id q.events v.moving;
  })
  | inr e ↦ rw e v
]

-- No timer is left, or the first event is yet to come.
abbrev pub IsQuiet : ℕ → TimerQueue → Type 0
IsQuiet now q =
    (q.timers ≡ [])
    ⊎ ((t id : ℕ) × (later : List (ℕ × ℕ)) × (q.events ≡ (t, id) ∷ later) × (now < t))

abbrev Finishes : ℕ → Option (Option TimerQueue) → Type 0
Finishes now o = (q' : TimerQueue) × (o ≡ some (some q')) × IsValid q' × IsQuiet now q'

module _ (flag : ℕ → Bool) (now : ℕ) where
  due_first :
      (t id : ℕ) (later : List (ℕ × ℕ))
      → leb t now ≡ true
      → due now ((t, id) ∷ later) ≡ suc (due now later)
  due_first t id later e = rw e refl

  next_round-Finishes :
      (q : TimerQueue) (ts : List ℕ) (es : List (ℕ × ℕ))
      (rest : ℕ → List (ℕ × ℕ) → Option (Option TimerQueue))
      → IsValid q
      → q.timers ≡ ts
      → q.events ≡ es
      → ((t id : ℕ) (later : List (ℕ × ℕ))
          → es ≡ (t, id) ∷ later
          → leb t now ≡ true
          → Finishes now (rest id later))
      → Finishes now (next_round ts es now q rest)
  unfolding next_round
  next_round-Finishes q [] es rest v none_left e again = (q, refl, v, inl none_left)
  next_round-Finishes q (k ∷ ks) [] rest v ts e again =
      absurd (uncovered (subst (λ ids. All (λ id. has_event id q.events ≡ true) ids) ts v.covered))
    where
      uncovered : All (λ id. has_event id q.events ≡ true) (k ∷ ks) → ⊥
      uncovered (c, cs) = false_true (sym (ap (has_event k) e) ∙ c)
        where
          false_true : false ≡ true → ⊥
          false_true h = cc
  next_round-Finishes q (k ∷ ks) ((t, id) ∷ later) rest v ts e again =
      elim (Bool-cases (leb t now)) [
        | inl d ↦ rw d (again t id later refl d)
        | inr d ↦ rw d (q, refl, v, inr (t, id, later, e, future t d))
      ]
    where
      future : (t : ℕ) → leb t now ≡ false → now < t
      future t d = ground arith

  handle_loop-Finishes :
      (fuel : ℕ) (q : TimerQueue)
      → IsValid q
      → due now q.events < fuel
      → Finishes now (handle_loop fuel flag now q)
  unfolding handle_loop
  handle_loop-Finishes zero q v h = absurd (omega arith)
  handle_loop-Finishes (suc fuel) q v h =
      next_round-Finishes q q.timers q.events _ v refl refl λ t id later e d.
        let (v', less) = round_less flag now q t id later v e in
        handle_loop-Finishes fuel (run_first flag now q id later) v'
          (omega (arith, less, h, ap (due now) e, due_first t id later d))

  -- `HandleTimerEvent` ends when no timer with an event has the interval 0, every timer has its event, and every event names
  -- a timer other than 0: it takes at most one round for each event, and one more. This still holds
  -- of the queue then, and no timer is left or the first event is yet to come.
  pub handle_timer_event-ends :
      (q : TimerQueue)
      → IsValid q
      → (q' : TimerQueue) × (handle_timer_event (suc (length q.events)) flag now q ≡ some (some q'))
        × IsValid q'
        × IsQuiet now q'
  unfolding handle_timer_event
  handle_timer_event-ends q v =
      handle_loop-Finishes (suc (length q.events)) q v (omega (arith, due-length now q.events))

  -- The queue after a round with its only timer.
  abbrev moved : TimerQueue → ℕ → TimerQueue
  moved q id = record q {
    objects =
        with_object id (record (q.objects id) { next_timeout = now + (q.objects id).interval })
          q.objects;
    events = (now + (q.objects id).interval, id) ∷ [];
  }

  -- A timer with the interval 0 that asks to be run again, alone in the queue, its time come: the
  -- loop of `HandleTimerEvent` never ends.
  pub handle_timer_event-stuck :
      (fuel : ℕ) (q : TimerQueue) (id t : ℕ)
      → id ≢ 0
      → flag id ≡ true
      → (q.objects id).interval ≡ 0
      → q.timers ≡ id ∷ []
      → q.events ≡ (t, id) ∷ []
      → t ≤ now
      → handle_timer_event fuel flag now q ≡ some none
  unfolding handle_timer_event handle_loop next_round run_first set_next_timeout insert
  handle_timer_event-stuck zero q id t name again still timers events come = refl
  handle_timer_event-stuck (suc fuel) q id t name again still timers events come =
      ap (λ ts. next_round ts q.events now q rest) timers
      ∙ ap (λ es. next_round (id ∷ []) es now q rest) events
      ∙ rw (due_now t come) (
          ap (handle_loop fuel flag now) once_more
          ∙ handle_timer_event-stuck fuel (moved q id) id (now + (q.objects id).interval) name again
              (ap (λ b. (if b then with_timer else q.objects id).interval) (equal_self id) ∙ still)
              timers refl (omega (arith, still)))
    where
      rest : ℕ → List (ℕ × ℕ) → Option (Option TimerQueue)
      rest id' later = handle_loop fuel flag now (run_first flag now q id' later)

      with_timer : Timer
      with_timer = set_next_timeout (q.objects id) now

      due_now : (t : ℕ) → t ≤ now → leb t now ≡ true
      due_now t h = ground arith

      not_zero : (n : ℕ) → n ≢ 0 → (n == 0) ≡ false
      not_zero n h = ground (arith, h)

      once_more : run_first flag now q id [] ≡ moved q id
      once_more = rw (not_zero id name) (rw again refl)
