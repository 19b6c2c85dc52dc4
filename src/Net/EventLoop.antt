-- ===== src/Net/EventLoop.antt =====
-- Net/EventLoop.h, Net/EventLoop.cpp and the schedulers of Net/TaskScheduler.cpp. The threads are not
-- modelled: what a scheduler's thread does is a step of whoever runs it.
pub mod RoundRobin
use cloud_assitant.Prelude.{
  ℕ, zero, suc, ◌+◌, ◌%◌, ◌^◌, List, [], ◌∷◌, ◌++◌, Option, none, some, Bool, true, false, ltb, leb,
  ◌==◌, if◌then◌else◌, length, get_elem?, set, ◌>>=◌,
}
use cloud_assitant.Net.Channel.{Channel, new_scheduler}
use cloud_assitant.Net.Channel
use cloud_assitant.Net.Timer.{TimerQueue}
use cloud_assitant.Net.Timer

-- A scheduler: its number, its timers and its channels.
pub record TaskScheduler : Type 0 where
  pub id : ℕ
  pub is_shutdown : Bool
  pub timer_queue : TimerQueue
  pub channels : Channel.TaskScheduler

pub record EventLoop : Type 0 where
  pub num_threads : ℕ
  pub index : ℕ
  pub task_schdulers : List TaskScheduler

-- The constructor of a scheduler.
unfoldable pub new_task_scheduler : ℕ → TaskScheduler
new_task_scheduler id = record {
  id = id;
  is_shutdown = false;
  timer_queue = record {
    last_timer_id = 0;
    objects = λ i. record { interval = 0; next_timeout = 0 };
    timers = [];
    events = [];
  };
  channels = new_scheduler;
}

-- The loop of `Loop`, for `n` more schedulers from the number `id` on.
unfoldable pub create : ℕ → ℕ → List TaskScheduler
unfolding new_task_scheduler
create zero id = []
create (suc n) id = new_task_scheduler id ∷ create n (suc id)

-- `Loop`
unfoldable pub loop : EventLoop → EventLoop
unfolding create
loop l = elim l.task_schdulers [
  | [] ↦ record l { task_schdulers = create l.num_threads 0 }
  | _ ∷ _ ↦ l
]

-- The constructor.
unfoldable pub init : ℕ → EventLoop
unfolding loop
init num_threads = loop (record { num_threads = num_threads; index = 1; task_schdulers = [] })

-- `GetTaskSchduler`: the position of the scheduler. `none` is the exception of `at`.
unfoldable pub get_task_schduler : EventLoop → Option (ℕ × EventLoop)
get_task_schduler l =
    if length l.task_schdulers == 1
    then some (0, l)
    else (if ltb l.index (length l.task_schdulers)
        then (let index = (l.index + 1) % 2 ^ 32 in
            some (
              l.index,
              record l { index = if leb (length l.task_schdulers) index then 0 else index },
            ))
        else none)

-- An operation of the first scheduler, where there is one.
abbrev pub at_first : (TaskScheduler → TaskScheduler) → EventLoop → EventLoop
at_first f l = elim l.task_schdulers [ [] ↦ l | s ∷ ss ↦ record l { task_schdulers = f s ∷ ss } ]

-- `AddTimer` at the time `now`; 0 is the id of no timer.
unfoldable pub add_timer : EventLoop → ℕ → ℕ → ℕ × EventLoop
unfolding Timer.add_timer
add_timer l mesc now = elim l.task_schdulers [
  | [] ↦ (0, l)
  | s ∷ ss ↦
      let (id, queue) = Timer.add_timer s.timer_queue mesc now in
      (id, record l { task_schdulers = record s { timer_queue = queue } ∷ ss })
]

-- `RemoveTimer`
unfoldable pub remove_timer : EventLoop → ℕ → EventLoop
unfolding Timer.remove_timer
remove_timer l id = at_first (λ s. record s { timer_queue = Timer.remove_timer s.timer_queue id }) l

-- `UpdateChannel`
unfoldable pub update_channel : EventLoop → Channel → EventLoop
unfolding Channel.update_channel
update_channel l c = at_first (λ s. record s { channels = Channel.update_channel s.channels c }) l

-- `RemoveChannel`
unfoldable pub remove_channel : EventLoop → Channel → EventLoop
unfolding Channel.remove_channel
remove_channel l c = at_first (λ s. record s { channels = Channel.remove_channel s.channels c }) l

-- `Quit`, once the threads have ended.
unfoldable pub quit : EventLoop → EventLoop
quit l = record l { task_schdulers = [] }

-- Successive calls of `GetTaskSchduler`.
unfoldable pub calls : ℕ → EventLoop → Option (List ℕ × EventLoop)
unfolding get_task_schduler
calls zero l = some ([], l)
calls (suc k) l = do (i, l') ← get_task_schduler l; (is, l'') ← calls k l'; some (i ∷ is, l'')
