-- ===== src/Net/Tests/Timers.antt =====
-- Runs of the model of Net/Timer.cpp.
use cloud_assitant.Prelude.{ℕ, ◌≡◌, refl, [], ◌∷◌, some, Bool, ◌==◌, arith}
use cloud_assitant.Net.EventLoop.{new_task_scheduler}
use cloud_assitant.Net.Timer.{TimerQueue, add_timer, insert, handle_timer_event}
use cloud_assitant.Net.Timer.Due.{
  IsValid, IsQuiet, empty-IsValid, add_timer-IsValid, handle_timer_event-ends,
}

-- The queue of a new scheduler.
abbrev no_timers : TimerQueue
unfolding new_task_scheduler
no_timers = (new_task_scheduler 0).timer_queue

-- A timer that runs every 5 ms and one that runs once after 7, added at 5 and at 4.
abbrev two_timers : TimerQueue
unfolding add_timer
two_timers = (add_timer (add_timer no_timers 5 5).1 7 4).1

abbrev first_again : ℕ → Bool
first_again id = id == 1

two_timers-IsValid : IsValid two_timers
unfolding new_task_scheduler add_timer
two_timers-IsValid =
    add_timer-IsValid (add_timer no_timers 5 5).1 7 4
      (add_timer-IsValid no_timers 5 5 (empty-IsValid no_timers (refl, refl)) (omega arith)
        (omega arith))
      (omega arith) (omega arith)

handle_timer_event-ends_example :
    (q' : TimerQueue) × (handle_timer_event 3 first_again 12 two_timers ≡ some (some q'))
    × IsValid q'
    × IsQuiet 12 q'
unfolding add_timer insert new_task_scheduler
handle_timer_event-ends_example =
    handle_timer_event-ends first_again 12 two_timers two_timers-IsValid

-- A timer without an interval.
abbrev busy : TimerQueue
busy = record {
  last_timer_id = 1;
  objects = λ j. record { interval = 0; next_timeout = 10 };
  timers = 1 ∷ [];
  events = (10, 1) ∷ [];
}
