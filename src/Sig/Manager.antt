-- ===== src/Sig/Manager.antt =====
-- SigServer/ConnectionManager.h and SigServer/ConnectionManager.cpp. A connection is named by a
-- number in place of a pointer; the lock is held during every operation.
use cloud_assitant.Prelude.{ℕ, List, [], ◌∷◌, Option, none, some, if◌then◌else◌, list_eq, length}

abbrev pub Code : Type 0
Code = List ℕ

abbrev pub Directory : Type 0
Directory = List (Code × ℕ)

unfoldable pub query_conn : Code → Directory → Option ℕ
query_conn code [] = none
query_conn code ((c, i) ∷ d) = if list_eq c code then some i else query_conn code d

unfoldable pub add_conn : Code → ℕ → Directory → Directory
unfolding query_conn
add_conn code i d =
    if list_eq code [] then d else (elim (query_conn code d) [ none ↦ (code, i) ∷ d | some _ ↦ d ])

abbrev erase : Code → Directory → Directory
erase code [] = []
erase code ((c, i) ∷ d) = if list_eq c code then erase code d else (c, i) ∷ erase code d

unfoldable pub remove_conn : Code → Directory → Directory
unfolding query_conn
remove_conn code d =
    if list_eq code [] then d else (elim (query_conn code d) [ none ↦ d | some _ ↦ erase code d ])

abbrev pub size : Directory → ℕ
size d = length d
