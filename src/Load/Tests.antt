-- ===== src/Load/Tests.antt =====
-- Runs of the model of the load balancer.
mod Sorting
use cloud_assitant.Prelude.{
  ℕ, ◌+◌, ◌≤◌, ◌≡◌, refl, sym, List, [], ◌∷◌, ◌++◌, Option, none, some, Bool, true, false, ◌==◌,
  if◌then◌else◌, replicate, text, All, arith, inl, inr, ltb, length, length-replicate,
}
use mathlib.Core.List.{Mem, mem-cons_self}
use cloud_assitant.Net.BufferReader.{BufferReader, bytes}
use cloud_assitant.Load.{login_reply, login_timestamp, LoginReply}
use cloud_assitant.Load.Server.{World, Connection, Pointer, deref}
use cloud_assitant.Load.Connection.{is_time_out, hnadle_login, reply, disconnect, handle_read}
use cloud_assitant.Load.Reports.{Report, report, Leads, read_report, key}
use cloud_assitant.Load.Least.{hnadle_login-least}
use cloud_assitant.Load.Lost.{hnadle_login-lost}
use cloud_assitant.Load.Overwritten.{IsFree, handle_read-overwritten}
use cloud_assitant.Load.Clock.{is_time_out_lem}
use cloud_assitant.Load.Heartbeat.{read_report-packet}
use cloud_assitant.Login.Client.{TcpClient, init, packet as packet_of}
use cloud_assitant.Load.Tests.Sorting.{insertion_sort, insertion_sort-IsSort}

-- The report of a load and a port.
abbrev packet : ℕ → ℕ → List ℕ
packet mem port = 23 ∷ 0 ∷ 0 ∷ 0 ∷ mem ∷ (text "10.211.55.7" ++ (replicate 5 0 ++ (port ∷ 0 ∷ [])))

abbrev with_bytes : ℕ → List ℕ → Connection
with_bytes socket xs = record {
  socket = socket;
  read_buffer = record { buffer = xs; reader_index = 0; writer_index = 0 };
}

abbrev at_start : ℕ → Pointer
at_start i = record { owner = i; offset = 0; size = 23 }

-- Two login servers, with the loads 70 and 20.
abbrev two_servers : ℕ → Option Connection
two_servers i =
    if i == 1
    then some (with_bytes 7 (packet 70 80))
    else (if i == 2 then some (with_bytes 8 (packet 20 81)) else none)

abbrev balanced : World
balanced = record {
  connections = two_servers;
  monitor_infos = (7, at_start 1) ∷ (8, at_start 2) ∷ [];
  alive = true;
  sent = [];
}

-- A login at the time 1000.
abbrev login_packet : List ℕ
login_packet = 12 ∷ 0 ∷ 2 ∷ 0 ∷ 232 ∷ 3 ∷ 0 ∷ 0 ∷ 0 ∷ 0 ∷ 0 ∷ 0 ∷ []

abbrev address : List ℕ
address = text "10.211.55.7" ++ replicate 5 0

balanced-Leads : All (Leads balanced.connections) balanced.monitor_infos
unfolding report cloud_assitant.Prelude.read_bytes
balanced-Leads = (
  (record { mem = 70; ip = address; port = 80 }, refl),
  ((record { mem = 20; ip = address; port = 81 }, refl), tt),
)

least_example :
    hnadle_login insertion_sort 1010 3 login_packet balanced
    ≡ some (reply 3 (record login_reply { ip = address; port = 81 }) balanced)
unfolding hnadle_login cloud_assitant.Prelude.read_bytes
least_example = refl

hnadle_login-least_example :
    (fd : ℕ) × (info : Pointer) × (r : Report) × Mem (fd, info) balanced.monitor_infos
    × (report balanced.connections info ≡ some r)
    × (hnadle_login insertion_sort 1010 3 login_packet balanced
        ≡ some (reply 3 (record login_reply { ip = r.ip; port = r.port }) balanced))
    × ((fd' : ℕ) (info' : Pointer) (r' : Report)
        → Mem (fd', info') balanced.monitor_infos
        → report balanced.connections info' ≡ some r'
        → r.mem ≤ r'.mem)
unfolding login_timestamp is_time_out
hnadle_login-least_example =
    hnadle_login-least insertion_sort 1010 1000 3 login_packet balanced insertion_sort-IsSort refl
      refl refl (λ e. cc) balanced-Leads

-- A connection whose buffer is empty and has 4096 bytes.
abbrev idle : Connection
idle = with_bytes 7 (replicate 4096 0)

-- The last report of that connection.
abbrev last_report : Pointer
last_report = record { owner = 1; offset = 0; size = 4096 }

abbrev idle_world : World
idle_world = record balanced {
  connections = λ i. if i == 1 then some idle else none;
  monitor_infos = (7, last_report) ∷ [];
}

idle-IsFree : IsFree idle.read_buffer
idle-IsFree = record {
  reader = refl;
  writer = refl;
  room = omega (arith, length-replicate {A = ℕ} 4096 0);
  bound = omega (arith, length-replicate {A = ℕ} 4096 0);
}

-- Five bytes of a packet of 23.
handle_read-overwritten_example :
    (w' : World) × (handle_read insertion_sort 1010 1 (bytes (23 ∷ 0 ∷ 0 ∷ 0 ∷ 99 ∷ [])) idle_world
      ≡ some w')
    × Mem (7, last_report) w'.monitor_infos
    × (key w'.connections last_report ≡ some 99)
handle_read-overwritten_example =
    handle_read-overwritten insertion_sort 1010 1 7 23 0 0 0 99 (99 ∷ []) last_report idle
      idle_world refl mem-cons_self refl (sym (length-replicate {A = ℕ} 4096 0)) idle-IsFree
      (omega (arith, length-replicate {A = ℕ} 4096 0)) (omega arith) refl

hnadle_login-lost_example :
    hnadle_login insertion_sort 1010 3 login_packet (disconnect 2 balanced) ≡ none
unfolding login_timestamp is_time_out
hnadle_login-lost_example =
    hnadle_login-lost insertion_sort 1010 1000 3 1 8 login_packet balanced (at_start 2) refl refl
      refl refl

is_time_out_lem_example : is_time_out 1061 1000 ≡ some true
is_time_out_lem_example = is_time_out_lem 1061 1000 (omega arith) (omega arith) (omega arith)

abbrev client : TcpClient
unfolding init
client = record init { mem = 75; ip = address; port = 9867 }

read_report-packet_example :
    read_report (packet_of client) ≡ some (record { mem = 75; ip = address; port = 9867 })
unfolding client
read_report-packet_example = read_report-packet client (omega arith) (omega arith) refl
