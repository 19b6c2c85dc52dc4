-- ===== src/Load/Clock.antt =====
-- IsTimeOut, whose difference is cut to an `int`.
use cloud_assitant.Prelude.{ℕ, ◌+◌, ◌-◌, ◌^◌, ◌<◌, ◌≡◌, some, ltb, arith}
use cloud_assitant.Load.Connection.{is_time_out}

-- A timestamp less than 2 ^ 31 seconds from the clock, before or after it, is late exactly when it
-- is more than 60 seconds away.
pub is_time_out_lem :
    (now timestamp : ℕ)
    → now < 2 ^ 64
    → timestamp < 2 ^ 64
    → (now - timestamp) + (timestamp - now) < 2 ^ 31
    → is_time_out now timestamp ≡ some (ltb 60 ((now - timestamp) + (timestamp - now)))
unfolding is_time_out
is_time_out_lem now timestamp n t h = ground arith
