-- ===== src/Login/Orm.antt =====
-- LoginServer/ORMManager.h and LoginServer/ORMManager.cpp. The MySQL client and the C library are a
-- parameter; a text of 1024 bytes or more is a store past the end of `query`.
use cloud_assitant.Prelude.{
  ℕ, List, ◌++◌, Option, none, some, Bool, leb, if◌then◌else◌, length, text, ◌>>=◌,
}

abbrev pub Row : Type 0
Row = List (List ℕ)

-- `query` is `mysql_query`, true when it fails; `fetch` is the first row of `mysql_store_result`;
-- `decimal` is how `sprintf` writes a number, and `atoi` reads one.
pub record Mysql : Type 1 where
  pub State : Type 0
  pub query : State → List ℕ → Bool × State
  pub fetch : State → Option Row
  pub decimal : ℕ → List ℕ
  pub atoi : List ℕ → ℕ

abbrev pub quoted : List ℕ → List ℕ
quoted xs = text "'" ++ (xs ++ text "'")

abbrev pub comma : List ℕ
comma = text ", "

module _ (mysql : Mysql) where
  unfoldable pub insert_text : List ℕ → List ℕ → List ℕ → List ℕ → ℕ → ℕ → List ℕ → List ℕ
  insert_text name account password usercode online recently_login sig_server =
      text
        "INSERT INTO clients (USER_NAME, USER_ACCOUNT, USER_PASSWD, USER_CODE, USER_ONLINE, USER_RECENTLY_LOGIN, USER_SVR_MOUNT) VALUES ("
      ++ (quoted name
          ++ (comma
              ++ (quoted account
                  ++ (comma
                      ++ (quoted password
                          ++ (comma
                              ++ (quoted usercode
                                  ++ (comma
                                      ++ (quoted (mysql.decimal online)
                                          ++ (comma
                                              ++ (quoted (mysql.decimal recently_login)
                                                  ++ (comma
                                                      ++ (quoted sig_server ++ text ")")))))))))))))

  unfoldable pub delete_text : List ℕ → List ℕ
  delete_text usercode = text "DELETE FROM clients WHERE USER_CODE = " ++ quoted usercode

  unfoldable pub select_text : List ℕ → List ℕ
  select_text usercode = text "SELECT * FROM clients WHERE USER_CODE = " ++ quoted usercode

  -- `sprintf` into the buffer, and `mysql_query`.
  unfoldable pub run_query : mysql.State → List ℕ → Option (Bool × mysql.State)
  run_query s query = if leb 1024 (length query) then none else some (mysql.query s query)

  unfoldable pub insert_client :
      mysql.State → List ℕ → List ℕ → List ℕ → List ℕ → ℕ → ℕ → List ℕ → Option mysql.State
  unfolding run_query insert_text
  insert_client s name account password usercode online recently_login sig_server =
      run_query s (insert_text name account password usercode online recently_login sig_server)
      >>= λ (bad, s'). some s'

  unfoldable pub delete_client : mysql.State → List ℕ → Option mysql.State
  unfolding run_query delete_text
  delete_client s usercode = run_query s (delete_text usercode) >>= λ (bad, s'). some s'

  -- The row that is returned belongs to a result that was freed.
  unfoldable pub select_client : mysql.State → List ℕ → Option (Option Row × mysql.State)
  unfolding run_query select_text
  select_client s usercode = run_query s (select_text usercode) >>= λ (bad, s').
      some (if bad then none else mysql.fetch s', s')

  unfoldable pub user_register :
      mysql.State → List ℕ → List ℕ → List ℕ → List ℕ → List ℕ → ℕ → Option mysql.State
  unfolding insert_client
  user_register s name account password usercode sig_server now =
      insert_client s name account password usercode 0 now sig_server

  unfoldable pub user_login : mysql.State → List ℕ → Option (Option Row × mysql.State)
  unfolding select_client
  user_login s usercode = select_client s usercode

  unfoldable pub user_destroy : mysql.State → List ℕ → Option mysql.State
  unfolding delete_client
  user_destroy s usercode = delete_client s usercode
