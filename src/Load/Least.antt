-- ===== src/Load/Least.antt =====
-- GetMonitorInfo chooses the login server with the least load.
use cloud_assitant.Prelude.{
  ℕ, ◌≡◌, ◌≤◌, refl, ap, subst, List, [], ◌∷◌, Option, none, some, true, false, inl, inr,
  Option-cases, All, ◌>>=◌, ◌≢◌,
}
use mathlib.Core.List.{Mem}
use cloud_assitant.Load.{
  LoginReply, login_reply, login_timestamp, monitor_mem, monitor_ip, monitor_port,
}
use cloud_assitant.Load.Server.{
  World, Pointer, Candidate, deref, candidates, get_monitor_info, first,
}
use cloud_assitant.Load.Connection.{is_time_out, reply, hnadle_login, chosen}
use cloud_assitant.Load.Sort.{IsSort, sort-Least}
use cloud_assitant.Load.Reports.{
  Report, report_of, read_report, report, Leads, candidates_lem, Leads-ne-none, vector-ne-nil,
}

chosen-report :
    (w : World) (info : Pointer) (r : Report)
    → report w.connections info ≡ some r
    → chosen w info ≡ some (record login_reply { ip = r.ip; port = r.port })
unfolding chosen monitor_mem read_report report
chosen-report w info r e = go (deref w.connections info) e
  where
    inner :
        (m : Option ℕ) (i : Option (List ℕ)) (q : Option ℕ)
        → (m >>= λ mem. i >>= λ ip. q >>= λ port. some (report_of mem ip port)) ≡ some r
        → (i >>= λ ip. q >>= λ port. some (record login_reply { ip = ip; port = port }))
          ≡ some (record login_reply { ip = r.ip; port = r.port })
    inner none i q e = cc
    inner (some m) none q e = cc
    inner (some m) (some i) none e = cc
    inner (some m) (some i) (some q) e =
        ap
          (λ o. elim o [
            | none ↦ none
            | some x ↦ some (record login_reply { ip = x.ip; port = x.port })
          ])
          e

    go :
        (o : Option (List ℕ))
        → (o >>= λ p. read_report p) ≡ some r
        → (o >>= λ body. monitor_ip body >>= λ ip.
            monitor_port body >>= λ port. some (record login_reply { ip = ip; port = port }))
          ≡ some (record login_reply { ip = r.ip; port = r.port })
    go none e = cc
    go (some p) e = inner (monitor_mem p) (monitor_ip p) (monitor_port p) e

get_monitor_info_lem :
    (sort : List Candidate → List Candidate) (w : World) (vec rest : List Candidate) (c : Candidate)
    → candidates w.connections w.monitor_infos ≡ some vec
    → sort vec ≡ c ∷ rest
    → get_monitor_info sort w ≡ some c.2
unfolding get_monitor_info first
get_monitor_info_lem sort w vec rest c e f = rw e (rw f refl)

-- A login in time, answered with the report that is chosen.
hnadle_login_lem :
    (sort : List Candidate → List Candidate) (now time i : ℕ) (p : List ℕ) (w : World)
    (info : Pointer) (r : LoginReply)
    → login_timestamp p ≡ some time
    → is_time_out now time ≡ some false
    → w.alive ≡ true
    → get_monitor_info sort w ≡ some info
    → chosen w info ≡ some r
    → hnadle_login sort now i p w ≡ some (reply i r w)
unfolding hnadle_login
hnadle_login_lem sort now time i p w info r t late a e f = rw (t, late, a, e, f) refl

-- A login in time is answered with the address of a login server that reported, and no server
-- reported less load, when every pointer that the server keeps leads to a report and `std::sort`
-- permutes and sorts.
pub hnadle_login-least :
    (sort : List Candidate → List Candidate) (now time i : ℕ) (p : List ℕ) (w : World)
    → IsSort sort
    → login_timestamp p ≡ some time
    → is_time_out now time ≡ some false
    → w.alive ≡ true
    → w.monitor_infos ≢ []
    → All (Leads w.connections) w.monitor_infos
    → (fd : ℕ) × (info : Pointer) × (r : Report) × Mem (fd, info) w.monitor_infos
      × (report w.connections info ≡ some r)
      × (hnadle_login sort now i p w
          ≡ some (reply i (record login_reply { ip = r.ip; port = r.port }) w))
      × ((fd' : ℕ) (info' : Pointer) (r' : Report)
          → Mem (fd', info') w.monitor_infos
          → report w.connections info' ≡ some r'
          → r.mem ≤ r'.mem)
hnadle_login-least sort now time i p w s t late a h leads =
    let (vec, v) = candidates_lem w.connections w.monitor_infos leads in
    let (c, rest, e, m, least) =
      sort-Least sort s vec (vector-ne-nil w.connections w.monitor_infos vec leads h v) in
    elim (Option-cases (report w.connections c.2)) [
      | inl n ↦
          absurd (Leads-ne-none w.connections w.monitor_infos leads (c.1, c.2) (v.sound c m) n)
      | inr (r, q) ↦ (
        c.1,
        c.2,
        r,
        v.sound c m,
        q,
        hnadle_login_lem sort now time i p w c.2 _ t late a
            (get_monitor_info_lem sort w vec rest c v.made e) (chosen-report w c.2 r q),
        λ fd' info' r' m' e'.
            subst (λ k. k ≤ r'.mem) (v.keys c r m q) (least _ (v.full fd' info' r' m' e')),
      )
    ]
