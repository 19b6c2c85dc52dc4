-- ===== src/Login/Connection.antt =====
-- LoginServer/LoginConnection.cpp. `now` is the system clock in seconds.
use cloud_assitant.Prelude.{
  ℕ, ◌+◌, ◌-◌, ◌%◌, ◌^◌, List, [], ◌∷◌, ◌++◌, Option, none, some, Bool, ltb, ◌==◌, if◌then◌else◌,
  get_elem?, drop, text, ◌>>=◌,
}
use cloud_assitant.Net.Bytes.{read_uint16_le}
use cloud_assitant.Net.BufferReader.{BufferReader, readable_bytes, peek, retrieve}
use cloud_assitant.Login.{
  Cmd, login, register, destroy, command, s_ok, server_error, request_timeout, already_redistered,
  already_login, head_size, register_code, register_name, register_password, register_count,
  register_timestamp, login_code, login_timestamp, destroy_code, Reply, register_result,
  login_result,
}
use cloud_assitant.Login.Orm.{Row, Mysql, user_register, user_login, user_destroy, insert_client}

-- The difference is an `int64_t`, whose `abs` is compared.
unfoldable pub is_timeout : ℕ → ℕ → Bool
is_timeout now timestamp =
    let time = (now + 2 ^ 64 - timestamp) % 2 ^ 64 in
    ltb 60 (if ltb time (2 ^ 63) then time else 2 ^ 64 - time)

-- What a connection has: the database and the replies sent, oldest first.
pub record Store (mysql : Mysql) : Type 0 where
  pub db : mysql.State
  pub sent : List Reply

module _ (mysql : Mysql) where
  abbrev pub reply : Store mysql → Reply → Store mysql
  reply w r = record w { sent = w.sent ++ (r ∷ []) }

  -- A user that may be there already.
  unfoldable pub register_user :
      ℕ → List ℕ → List ℕ → Store mysql → Option Row → Option (Store mysql)
  unfolding register_name register_count register_password user_register
  register_user now p code w (some row) = some (reply w (register_result already_redistered))
  register_user now p code w none = do
    name ← register_name p
    count ← register_count p
    password ← register_password p
    db ← user_register mysql w.db name count password code (text "10.211.55.7") now
    some (reply (record w { db = db }) (register_result s_ok))

  -- `HandleRegister`, on the memory from the packet on; `none` is an access outside it.
  unfoldable pub handle_register : ℕ → List ℕ → Store mysql → Option (Store mysql)
  unfolding register_timestamp is_timeout register_code user_login register_user
  handle_register now p w = do
    time ← register_timestamp p
    if is_timeout now time then some (reply w (register_result request_timeout)) else (do
      code ← register_code p
      (row, db) ← user_login mysql w.db code
      register_user now p code (record w { db = db }) row)

  -- A user that is there.
  unfoldable pub login_user : ℕ → Store mysql → Row → Option (Store mysql)
  unfolding insert_client
  login_user now w row = do
    online ← get_elem? row 4
    if mysql.atoi online == 0
        then (do
          name ← get_elem? row 0
          account ← get_elem? row 1
          password ← get_elem? row 2
          code ← get_elem? row 3
          db ← insert_client mysql w.db name account password code 1 now (text "172.21.205.121")
          some (reply (record w { db = db }) (login_result s_ok (some (text "10.211.55.7", 6539)))))
        else some (reply w (login_result already_login none))

  -- `HandleLogin`
  unfoldable pub handle_login : ℕ → List ℕ → Store mysql → Option (Store mysql)
  unfolding login_timestamp is_timeout login_code user_login login_user
  handle_login now p w = do
    time ← login_timestamp p
    if is_timeout now time then some (reply w (login_result request_timeout none)) else (do
      code ← login_code p
      (row, db) ← user_login mysql w.db code
      elim row [
        | none ↦ some (reply (record w { db = db }) (login_result server_error none))
        | some r ↦ login_user now (record w { db = db }) r
      ])

  -- `HandleDestroy`
  unfoldable pub handle_destroy : List ℕ → Store mysql → Option (Store mysql)
  unfolding destroy_code user_destroy
  handle_destroy p w = do
    code ← destroy_code p
    db ← user_destroy mysql w.db code
    some (record w { db = db })

  -- The `switch` of `HandleMessage`. The case of `Register` goes on to that of `Destroy`.
  unfoldable pub dispatch : ℕ → List ℕ → Store mysql → Option Cmd → Option (Store mysql)
  unfolding handle_login handle_register handle_destroy
  dispatch now p w (some login) = handle_login now p w
  dispatch now p w (some register) = handle_register now p w >>= λ w'. handle_destroy p w'
  dispatch now p w (some destroy) = handle_destroy p w
  dispatch now p w _ = some w

  -- `HandleMessage`
  unfoldable pub handle_message :
      ℕ → BufferReader → Store mysql → Option (BufferReader × Store mysql)
  unfolding dispatch command
  handle_message now b w = if ltb (readable_bytes b) head_size then some (b, w) else (do
    len ← read_uint16_le (peek b)
    cmd ← read_uint16_le (drop 2 (peek b))
    if ltb (readable_bytes b) len
        then some (b, w)
        else (do w' ← dispatch now (peek b) w (command cmd); some (retrieve b len, w')))

  -- `OnRead`, which always answers true.
  unfoldable pub on_read : ℕ → BufferReader → Store mysql → Option (BufferReader × Store mysql)
  unfolding handle_message
  on_read now b w = if ltb 0 (readable_bytes b) then handle_message now b w else some (b, w)
