-- ===== src/Login/Lost.antt =====
-- What is left of a registration with LoginServer/LoginConnection.cpp.
use cloud_assitant.Prelude.{
  ℕ, ◌≡◌, refl, sym, subst, List, Option, none, some, Bool, true, false, leb, if◌then◌else◌, length,
  Holds, bind-Holds, ◌>>=◌,
}
use cloud_assitant.Login.{Reply, register, register_code, destroy_code}
use cloud_assitant.Login.Orm.{
  Row, Mysql, delete_text, select_text, run_query, select_client, delete_client, user_destroy,
  user_login,
}
use cloud_assitant.Login.Connection.{Store, handle_register, handle_destroy, dispatch}

-- A delete by a code that MySQL takes leaves no row for that code.
abbrev pub Deletes : Mysql → List ℕ → Type 0
Deletes mysql code =
    (s : mysql.State)
    → mysql.fetch
        (mysql.query (mysql.query s (delete_text mysql code)).1 (select_text mysql code)).1
      ≡ none

abbrev NoRow : (mysql : Mysql) → Option Row × mysql.State → Type 0
NoRow mysql (row, s) = row ≡ none

-- No row is found for the code.
abbrev pub IsUnknown : (mysql : Mysql) → List ℕ → Store mysql → Type 0
IsUnknown mysql code w = Holds (NoRow mysql) (user_login mysql w.db code)

module _ (mysql : Mysql) (code : List ℕ) (deletes : Deletes mysql code) where
  deleted_row :
      (s : mysql.State)
      → Holds (NoRow mysql) (user_login mysql (mysql.query s (delete_text mysql code)).1 code)
  unfolding user_login select_client run_query
  deleted_row s = by_size (leb 1024 (length (select_text mysql code)))
    where
      after : mysql.State
      after = (mysql.query s (delete_text mysql code)).1

      either : (bad : Bool) (o : Option Row) → o ≡ none → (if bad then none else o) ≡ none
      either true o e = refl
      either false o e = e

      by_size :
          (b : Bool)
          → Holds (NoRow mysql) (
              (if b
                then none
                else some (
                    mysql.query
                      (mysql.query s (delete_text mysql code)).1
                      (select_text mysql code)))
              >>= λ (bad, s'). some (if bad then none else mysql.fetch s', s'))
      by_size true = tt
      by_size false =
          either (mysql.query (mysql.query s (delete_text mysql code)).1 (select_text mysql code)).0
            _ (deletes s)

  IsUnknown-destroyed :
      (s : mysql.State) (sent : List Reply)
      → Holds
          (IsUnknown mysql code)
          (user_destroy mysql s code >>= λ db. some (record { db = db; sent = sent }))
  unfolding user_destroy delete_client run_query
  IsUnknown-destroyed s sent = by_size (leb 1024 (length (delete_text mysql code)))
    where
      by_size :
          (b : Bool)
          → Holds (IsUnknown mysql code) (
              ((if b then none else some (mysql.query s (delete_text mysql code))) >>= λ (bad, s').
              some s')
              >>= λ db. some (record { db = db; sent = sent }))
      by_size true = tt
      by_size false = deleted_row s

  handle_destroy-IsUnknown :
      (p : List ℕ) (w : Store mysql)
      → destroy_code p ≡ some code
      → Holds (IsUnknown mysql code) (handle_destroy mysql p w)
  unfolding handle_destroy
  handle_destroy-IsUnknown p w e =
      subst
        (λ o.
          Holds (IsUnknown mysql code)
            (o >>= λ c. user_destroy mysql w.db c >>= λ db. some (record w { db = db })))
        (sym e) (IsUnknown-destroyed w.db w.sent)

  -- A registration that is handled to its end, whatever it answers: the code that it registers is
  -- not known afterwards, for the user is deleted at once. MySQL's delete by this code is to leave
  -- no row for it.
  pub register-lost :
      (now : ℕ) (p : List ℕ) (w w' : Store mysql) (row : Option Row) (s : mysql.State)
      → register_code p ≡ some code
      → dispatch mysql now p w (some register) ≡ some w'
      → user_login mysql w'.db code ≡ some (row, s)
      → row ≡ none
  unfolding dispatch register_code destroy_code
  register-lost now p w w' row s e done found = subst (Holds (NoRow mysql)) found (
      subst (Holds (IsUnknown mysql code)) done (
        bind-Holds (IsUnknown mysql code) (handle_register mysql now p w) _
          λ w1. handle_destroy-IsUnknown p w1 e))
