-- ===== src/Net/Channel.antt =====
-- Net/Channel.h and the channels of Net/TaskScheduler.h and Net/EpollTaskScheduler.cpp. `epoll_ctl`
-- is a system call: the calls are recorded, newest first.
use cloud_assitant.Prelude.{
  ℕ, ◌+◌, ◌-◌, ◌/◌, ◌%◌, List, [], ◌∷◌, ◌++◌, Bool, true, false, ◌==◌, ◌||◌, if◌then◌else◌,
}

abbrev pub event_in : ℕ
event_in = 1

abbrev pub event_out : ℕ
event_out = 4

-- `sockfd_` and `events_`, a set of bits.
pub record Channel : Type 0 where
  pub sockfd : ℕ
  pub events : ℕ

-- The bit `b` of `n`.
abbrev pub has_bit : ℕ → ℕ → Bool
has_bit n b = n / b % 2 == 1

abbrev pub set_bit : ℕ → ℕ → ℕ
set_bit n b = if has_bit n b then n else n + b

abbrev pub clear_bit : ℕ → ℕ → ℕ
clear_bit n b = if has_bit n b then n - b else n

unfoldable pub enable_reading : Channel → Channel
enable_reading c = record c { events = set_bit c.events event_in }

unfoldable pub enable_writing : Channel → Channel
enable_writing c = record c { events = set_bit c.events event_out }

unfoldable pub disable_reading : Channel → Channel
disable_reading c = record c { events = clear_bit c.events event_in }

unfoldable pub disable_writing : Channel → Channel
disable_writing c = record c { events = clear_bit c.events event_out }

unfoldable pub is_none_event : Channel → Bool
is_none_event c = c.events == 0

unfoldable pub is_writing : Channel → Bool
is_writing c = has_bit c.events event_out

unfoldable pub is_reading : Channel → Bool
is_reading c = has_bit c.events event_in

-- The callbacks of a channel.
pub data Callback : Type 0 where
  read_callback write_callback close_callback error_callback : Callback

abbrev pub when : Bool → List Callback → List Callback
when true cs = cs
when false cs = []

-- `HandleEvent`: the callbacks that it runs, in their order. An event that hangs up hides an error.
unfoldable pub handle_event : ℕ → List Callback
handle_event events =
    when (has_bit events 2 || has_bit events 1) (read_callback ∷ [])
    ++ (when (has_bit events 4) (write_callback ∷ [])
        ++ (if has_bit events 16
            then close_callback ∷ []
            else when (has_bit events 8) (error_callback ∷ [])))

pub data Operation : Type 0 where
  ctl_add ctl_mod ctl_del : Operation

-- A call of `epoll_ctl`: the descriptor and the events.
pub record Control : Type 0 where
  pub operation : Operation
  pub fd : ℕ
  pub events : ℕ

-- `channels` are the keys of `channels_`.
pub record TaskScheduler : Type 0 where
  pub channels : List ℕ
  pub controls : List Control

abbrev pub new_scheduler : TaskScheduler
new_scheduler = record { channels = []; controls = [] }

unfoldable pub contains : ℕ → List ℕ → Bool
contains fd [] = false
contains fd (k ∷ ks) = k == fd || contains fd ks

unfoldable pub erase : ℕ → List ℕ → List ℕ
erase fd [] = []
erase fd (k ∷ ks) = if k == fd then ks else k ∷ erase fd ks

-- `Update`. Nothing follows from a call that fails.
unfoldable pub update : TaskScheduler → Operation → Channel → TaskScheduler
update s ctl_del c = record s {
  controls = record { operation = ctl_del; fd = c.sockfd; events = 0 } ∷ s.controls;
}
update s op c = record s {
  controls = record { operation = op; fd = c.sockfd; events = c.events } ∷ s.controls;
}

-- `UpdateChannel`
unfoldable pub update_channel : TaskScheduler → Channel → TaskScheduler
unfolding contains erase update is_none_event
update_channel s c =
    if contains c.sockfd s.channels
    then (if is_none_event c
        then update (record s { channels = erase c.sockfd s.channels }) ctl_del c
        else update s ctl_mod c)
    else (if is_none_event c
        then s
        else update (record s { channels = c.sockfd ∷ s.channels }) ctl_add c)

-- `RmoveChannel` of the epoll scheduler.
unfoldable pub rmove_channel : TaskScheduler → Channel → TaskScheduler
unfolding contains erase update
rmove_channel s c =
    if contains c.sockfd s.channels
    then update (record s { channels = erase c.sockfd s.channels }) ctl_del c
    else s

-- `RemoveChannel`, which the epoll scheduler inherits: its own method has another name.
unfoldable pub remove_channel : TaskScheduler → Channel → TaskScheduler
remove_channel s c = s
