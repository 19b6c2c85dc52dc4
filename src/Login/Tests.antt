-- ===== src/Login/Tests.antt =====
-- Runs of the model of LoginServer/LoginConnection.cpp.
use cloud_assitant.Prelude.{
  ℕ, ◌≡◌, refl, List, [], ◌∷◌, ◌++◌, Option, none, some, Bool, true, false, ◌==◌, if◌then◌else◌,
  replicate, text, arith, ◌>>=◌,
}
use cloud_assitant.Login.{
  register_code, register_name, register_count, register_password, register_timestamp,
  register_result, s_ok,
}
use cloud_assitant.Login.Orm.{Row, Mysql, delete_text, select_text}
use cloud_assitant.Login.Connection.{Store, dispatch}
use cloud_assitant.Login.Client.{
  Machine, TcpClient, init, create, get_mem_usage, packet as monitor_packet, is_available,
}
use cloud_assitant.Login.Client.Usage.{get_mem_usage-full}
use cloud_assitant.Login.Packets.Register.{UserRegister, bytes}
use cloud_assitant.Login.Packets.Read.{IsRegister, filled, register-read}
use cloud_assitant.Login.Lost.{Deletes, register-lost}

-- A database for one user, which goes by the first letter of a statement.
abbrev one_user : Option Row → List ℕ → Bool × Option Row
one_user s [] = (false, s)
one_user s (x ∷ _) =
    (false, if x == b'I' then some (text "u" ∷ []) else (if x == b'D' then none else s))

abbrev toy : Mysql
toy = record {
  State = Option Row;
  query = one_user;
  fetch = λ s. s;
  decimal = λ n. text "0";
  atoi = λ xs. 0;
}

toy-Deletes : Deletes toy (text "ab")
unfolding delete_text select_text
toy-Deletes s = refl

-- A registration of the user "ab" at the time 0.
abbrev packet : List ℕ
packet = 84 ∷ 0 ∷ 3 ∷ 0 ∷ (text "ab" ++ replicate 78 0)

abbrev nobody : Store toy
nobody = record { db = none; sent = [] }

abbrev answered : Store toy
answered = record { db = none; sent = register_result s_ok ∷ [] }

-- What a login then finds.
abbrev found : Option Row
found = none

register-lost_example : found ≡ none
unfolding register_code dispatch
register-lost_example =
    register-lost toy (text "ab") toy-Deletes 30 packet nobody answered found none refl refl refl

-- A machine with 1000 KiB of memory, of which 250 are available.
abbrev machine : Machine
machine = record {
  meminfo =
      some (text "MemTotal" ∷ text "MemFree" ∷ text "MemAvailable: 250" ∷ text "Buffers" ∷ []);
  totalram = 1024000;
  scan = λ line. 250;
  socket = some 3;
  connect = λ fd ip port. true;
}

abbrev client : TcpClient
unfolding create init
client = create machine init

-- The first report.
first_report : (get_mem_usage machine client >>= λ (bytes, c). some c.mem) ≡ some 75
unfolding get_mem_usage is_available client
first_report = refl

-- The client after its first report.
abbrev later_client : TcpClient
later_client = record client { file = some (text "Buffers" ∷ []); mem = 75 }

get_mem_usage-full_example :
    (c' : TcpClient) × (get_mem_usage machine later_client ≡ some (monitor_packet c', c'))
    × (c'.mem ≡ 100)
    × (c'.file ≡ some [])
unfolding is_available client
get_mem_usage-full_example =
    get_mem_usage-full machine later_client (text "Buffers" ∷ []) refl (refl, tt) (omega arith)
      (omega arith)

-- A registration before its texts are set.
abbrev blank : UserRegister
blank = record {
  code = replicate 20 0;
  name = replicate 20 0;
  password = replicate 20 0;
  count = replicate 12 0;
  timestamp = 1000;
}

blank-IsRegister : IsRegister blank
blank-IsRegister = record {
  code = refl;
  name = refl;
  password = refl;
  count = refl;
  timestamp = omega arith;
}

abbrev registration : UserRegister
registration = filled blank (text "ab") (text "cd") (text "ef") (text "gh")

register-read_example :
    (register_code (bytes registration) ≡ some (text "ab"))
    × (register_name (bytes registration) ≡ some (text "cd"))
    × (register_count (bytes registration) ≡ some (text "ef"))
    × (register_password (bytes registration) ≡ some (text "gh"))
    × (register_timestamp (bytes registration) ≡ some 1000)
register-read_example =
    register-read blank (text "ab") (text "cd") (text "ef") (text "gh") blank-IsRegister
      (record { nonzero = (refl, (refl, tt)); ends = refl })
      (record { nonzero = (refl, (refl, tt)); ends = refl })
      (record { nonzero = (refl, (refl, tt)); ends = refl })
      (record { nonzero = (refl, (refl, tt)); ends = refl })
