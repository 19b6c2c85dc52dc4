-- ===== src/Net/Timer.antt =====
-- Net/Timer.h and Net/Timer.cpp: the queue of timers. A timer's object is named by its id, which both
-- maps share; `flag` says for each timer whether its callback asks to be run again. Callbacks do not
-- touch the queue. Times are milliseconds of the steady clock.
pub mod Events
pub mod Due
use cloud_assitant.Prelude.{
  ℕ, zero, suc, ◌+◌, ◌%◌, ◌^◌, List, [], ◌∷◌, ◌++◌, Option, none, some, Bool, true, false, ltb, leb,
  ◌==◌, ◌&&◌, ◌||◌, not, if◌then◌else◌,
}

pub record Timer : Type 0 where
  pub interval : ℕ
  pub next_timeout : ℕ

-- `SetNextTimeOut`
unfoldable pub set_next_timeout : Timer → ℕ → Timer
set_next_timeout t time_point = record t { next_timeout = time_point + t.interval }

-- `timers` are the keys of `timers_`, and `events` the keys of `events_`, sorted: times and ids.
pub record TimerQueue : Type 0 where
  pub last_timer_id : ℕ
  pub objects : ℕ → Timer
  pub timers : List ℕ
  pub events : List (ℕ × ℕ)

-- `std::pair`'s order.
abbrev pub before : ℕ × ℕ → ℕ × ℕ → Bool
before (t, i) (u, j) = ltb t u || (t == u && ltb i j)

-- `emplace`, which leaves a key that is there alone.
unfoldable pub insert : ℕ × ℕ → List (ℕ × ℕ) → List (ℕ × ℕ)
insert e [] = e ∷ []
insert e (f ∷ fs) =
    if before e f then e ∷ f ∷ fs else (if before f e then f ∷ insert e fs else f ∷ fs)

unfoldable pub erase_event : ℕ × ℕ → List (ℕ × ℕ) → List (ℕ × ℕ)
erase_event e [] = []
erase_event (t, i) ((u, j) ∷ fs) =
    if t == u && i == j then erase_event (t, i) fs else (u, j) ∷ erase_event (t, i) fs

unfoldable pub has_timer : ℕ → List ℕ → Bool
has_timer id [] = false
has_timer id (k ∷ ks) = k == id || has_timer id ks

-- A key stands once at most.
unfoldable pub erase_timer : ℕ → List ℕ → List ℕ
erase_timer id [] = []
erase_timer id (k ∷ ks) = if k == id then erase_timer id ks else k ∷ erase_timer id ks

abbrev pub with_object : ℕ → Timer → (ℕ → Timer) → ℕ → Timer
with_object id t objects = λ j. if j == id then t else objects j

-- `AddTimer` at the time `now`: the id and the queue.
unfoldable pub add_timer : TimerQueue → ℕ → ℕ → ℕ × TimerQueue
unfolding set_next_timeout has_timer insert
add_timer q mesc now =
    let id = (q.last_timer_id + 1) % 2 ^ 32 in
    let timer = set_next_timeout (record { interval = mesc; next_timeout = 0 }) now in
    (
      id,
      record {
        last_timer_id = id;
        objects = with_object id timer q.objects;
        timers = if has_timer id q.timers then q.timers else id ∷ q.timers;
        events = insert (now + mesc, id) q.events;
      },
    )

-- `RemoveTimer`
unfoldable pub remove_timer : TimerQueue → ℕ → TimerQueue
unfolding has_timer erase_timer erase_event
remove_timer q id =
    if has_timer id q.timers
    then record q {
      timers = erase_timer id q.timers;
      events = erase_event ((q.objects id).next_timeout, id) q.events;
    }
    else q

-- What a round of the loop makes of the queue, whose first event is of the timer `id`.
unfoldable pub run_first : (ℕ → Bool) → ℕ → TimerQueue → ℕ → List (ℕ × ℕ) → TimerQueue
unfolding set_next_timeout erase_timer insert
run_first flag now q id later =
    if id == 0
    then q
    else (if flag id
        then (let timer = set_next_timeout (q.objects id) now in
            record q {
              objects = with_object id timer q.objects;
              events = insert (timer.next_timeout, id) later;
            })
        else record q { timers = erase_timer id q.timers; events = later })

-- The test of the loop of `HandleTimerEvent`, on the timers and the events; `rest` is the loop after
-- a round. An outer `none` is a look at the first of no events, an inner one fuel that ran out.
unfoldable pub next_round :
    List ℕ
    → List (ℕ × ℕ)
    → ℕ
    → TimerQueue
    → (ℕ → List (ℕ × ℕ) → Option (Option TimerQueue))
    → Option (Option TimerQueue)
next_round [] events now q rest = some (some q)
next_round (k ∷ ks) [] now q rest = none
next_round (k ∷ ks) ((t, id) ∷ later) now q rest =
    if leb t now then rest id later else some (some q)

unfoldable pub handle_loop : ℕ → (ℕ → Bool) → ℕ → TimerQueue → Option (Option TimerQueue)
unfolding run_first next_round
handle_loop zero flag now q = some none
handle_loop (suc fuel) flag now q =
    next_round q.timers q.events now q
      λ id later. handle_loop fuel flag now (run_first flag now q id later)

-- `HandleTimerEvent`
unfoldable pub handle_timer_event : ℕ → (ℕ → Bool) → ℕ → TimerQueue → Option (Option TimerQueue)
unfolding handle_loop
handle_timer_event fuel flag now q = handle_loop fuel flag now q
