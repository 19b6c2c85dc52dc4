-- ===== src/Transfer/Receiver/Safety.antt =====
-- What Transfer/FileReceiver.cpp guarantees of every call, whatever the file system does.
use cloud_assitant.Prelude.{
  ℕ, ◌+◌, ◌^◌, ◌≤◌, ◌<◌, ◌≡◌, ◌≢◌, refl, ap, inl, inr, List, [], ◌∷◌, ◌⊎◌, if◌then◌else◌, Option,
  none, some, Bool, true, false, ltb, ◌==◌, length, ◌||◌, list_eq, All, arith, Bool-cases,
  Option-cases,
}
use cloud_assitant.Transfer.Checksum.{checksum_file, update_crc32}
use cloud_assitant.Transfer.Checksum.Blocks.{checksum_file_lem}
use cloud_assitant.Transfer.Receiver.Files.{FileSystem}
use cloud_assitant.Transfer.Receiver.{
  Result, Session, failed, find, erase, update, emplace, Receiver, unnamed, safe_file_name, cancel,
  open_session, closed_stream, start_session, begin, write_found, write, finish_found, finish,
}

-- The counts of a session are those of a file that is still being received.
abbrev pub IsConsistent : ℕ × Session → Type 0
IsConsistent e = (e.1.received ≤ e.1.file_size) × (e.1.file_size < 2 ^ 64)

abbrev pub Consistent : List (ℕ × Session) → Type 0
Consistent = All IsConsistent

find-Consistent :
    (id : ℕ) (m : List (ℕ × Session)) (s : Session)
    → Consistent m
    → find id m ≡ some s
    → IsConsistent (id, s)
unfolding find
find-Consistent id [] s c e = cc
find-Consistent id ((j, t) ∷ m) s c e = ground (arith, find-Consistent id m s c.1)

erase-Consistent : (id : ℕ) (m : List (ℕ × Session)) → Consistent m → Consistent (erase id m)
unfolding erase
erase-Consistent id [] c = tt
erase-Consistent id ((j, t) ∷ m) c = ground (arith, erase-Consistent id m c.1)

update-Consistent :
    (id : ℕ) (s : Session) (m : List (ℕ × Session))
    → IsConsistent (id, s)
    → Consistent m
    → Consistent (update id s m)
unfolding update
update-Consistent id s [] h c = tt
update-Consistent id s ((j, t) ∷ m) h c = ground (arith, update-Consistent id s m h c.1)

emplace-Consistent :
    (id : ℕ) (s : Session) (m : List (ℕ × Session))
    → IsConsistent (id, s)
    → Consistent m
    → Consistent (emplace id s m)
unfolding emplace
emplace-Consistent id s m h c = ground arith

pub find-erase : (id : ℕ) (m : List (ℕ × Session)) → find id (erase id m) ≡ none
unfolding find erase
find-erase id [] = refl
find-erase id ((j, t) ∷ m) = ground (arith, find-erase id m)

pub find-update :
    (id : ℕ) (s t : Session) (m : List (ℕ × Session))
    → find id m ≡ some t
    → find id (update id s m) ≡ some s
unfolding find update
find-update id s t [] e = cc
find-update id s t ((j, u) ∷ m) e = elim (Bool-cases (j == id)) [
  | inl hit ↦ rw (hit, find) (rw hit)
  | inr miss ↦ rw (miss, find) (rw miss (find-update id s t m (rw miss at e)))
]

checksum_file-returns : (o : Option (List ℕ)) → (crc : ℕ) × (checksum_file o ≡ some crc)
checksum_file-returns none = (0, unfold checksum_file in refl)
checksum_file-returns (some xs) = (update_crc32 0 xs, checksum_file_lem xs)

module _ (fs : FileSystem) where
  cancel-Consistent :
      (r : Receiver fs) (id : ℕ) → Consistent r.sessions → Consistent (cancel fs r id).sessions
  unfolding cancel
  cancel-Consistent r id c = ground (arith, erase-Consistent id r.sessions c)

  open_session-Consistent :
      (r : Receiver fs) (id : ℕ) (s : Session)
      → IsConsistent (id, s)
      → Consistent r.sessions
      → Consistent (open_session fs r id s).1.sessions
  unfolding open_session
  open_session-Consistent r id s h c = ground (arith, emplace-Consistent id s r.sessions h c)

  start_session-Consistent :
      (r : Receiver fs) (id : ℕ) (s : Session) (error : Bool)
      → s.file_size < 2 ^ 64
      → Consistent r.sessions
      → Consistent (start_session fs r id s error).1.sessions
  unfolding start_session
  start_session-Consistent r id s error h c =
      elim (Bool-cases (error || ltb s.file_size s.received)) [
        | inl bad ↦
            rw (bad, start_session)
              (elim (Bool-cases (fs.truncate r.disk s.part_path).0) [
                | inl done ↦
                    rw (done, start_session)
                      (open_session-Consistent
                        (record r { disk = (fs.truncate r.disk s.part_path).1 }) id
                        (record s { received = 0 }) (omega arith, h) c)
                | inr kept ↦ rw (kept, start_session) c
              ])
        | inr good ↦ rw (good, start_session) (open_session-Consistent r id s (ground arith, h) c)
      ]

  -- `Begin` keeps every session's count within its file.
  pub begin-Consistent :
      (r : Receiver fs) (id size chunk sum : ℕ) (name : List ℕ)
      → size < 2 ^ 64
      → Consistent r.sessions
      → Consistent (begin fs r id size chunk sum name).1.sessions
  unfolding begin
  begin-Consistent r id size chunk sum name h c =
      elim (Bool-cases (chunk == 0 || list_eq name [])) [
        | inl bad ↦ rw (bad, begin) c
        | inr good ↦
            rw (good, begin)
              (start_session-Consistent (cancel fs r id) id _ _ h (cancel-Consistent r id c))
      ]

  write_found-Consistent :
      (r : Receiver fs) (id offset : ℕ) (xs : List ℕ) (s : Session)
      → IsConsistent (id, s)
      → Consistent r.sessions
      → Consistent (write_found fs r id offset xs (some s)).1.sessions
  unfolding write_found
  write_found-Consistent r id offset xs s h c = ground (
    arith,
    h.0,
    h.1,
    update-Consistent id (record s { received = s.received + length xs }) r.sessions,
    update-Consistent id (record s { stream = failed }) r.sessions,
  )

  pub write-Consistent :
      (r : Receiver fs) (id offset : ℕ) (xs : List ℕ)
      → Consistent r.sessions
      → Consistent (write fs r id offset xs).1.sessions
  unfolding write
  write-Consistent r id offset xs c = elim (Option-cases (find id r.sessions)) [
    | inl e ↦ rw (e, write_found) c
    | inr (s, e) ↦
        rw e (write_found-Consistent r id offset xs s (find-Consistent id r.sessions s c e) c)
  ]

  finish_found-ne-none :
      (r : Receiver fs) (id sum : ℕ) (o : Option Session) → finish_found fs r id sum o ≢ none
  unfolding finish_found
  finish_found-ne-none r id sum none e = cc
  finish_found-ne-none r id sum (some s) e =
      let (crc, known) =
        checksum_file-returns (fs.contents (fs.close r.disk s.part_path) s.part_path) in
      ground (arith, known)

  -- `Finish` answers on every input: the loop that reads the file back ends.
  pub finish-ne-none : (r : Receiver fs) (id sum : ℕ) → finish fs r id sum ≢ none
  unfolding finish
  finish-ne-none r id sum = finish_found-ne-none r id sum (find id r.sessions)

  finish_found-Consistent :
      (r r' : Receiver fs) (id sum : ℕ) (s : Session) (result : Result)
      → IsConsistent (id, s)
      → Consistent r.sessions
      → finish_found fs r id sum (some s) ≡ some (result, r')
      → Consistent r'.sessions
  unfolding finish_found
  finish_found-Consistent r r' id sum s result h c e = ground (
    arith,
    h.0,
    h.1,
    e,
    erase-Consistent id r.sessions c,
    update-Consistent id (record s { stream = closed_stream fs r.disk s }) r.sessions,
  )

  finish-Consistent :
      (r r' : Receiver fs) (id sum : ℕ) (result : Result)
      → Consistent r.sessions
      → finish fs r id sum ≡ some (result, r')
      → Consistent r'.sessions
  unfolding finish
  finish-Consistent r r' id sum result c e = elim (Option-cases (find id r.sessions)) [
    | inl missing ↦ unknown (rw missing at e)
    | inr (s, found) ↦
        finish_found-Consistent r r' id sum s result (find-Consistent id r.sessions s c found) c
          (rw found at e)
  ]
    where
      unknown : finish_found fs r id sum none ≡ some (result, r') → Consistent r'.sessions
      unknown g = unfold finish_found in ground (arith, g, c)

-- What a peer can make the receiver do.
pub data Command : Type 0 where
  begins : ℕ → ℕ → ℕ → ℕ → List ℕ → Command
  writes : ℕ → ℕ → List ℕ → Command
  finishes : ℕ → ℕ → Command
  cancels : ℕ → Command

module _ (fs : FileSystem) where
  pub data Step (r r' : Receiver fs) : Command → Type 0 where
    begun :
        (id size chunk sum : ℕ) (name : List ℕ)
        → size < 2 ^ 64
        → r' ≡ (begin fs r id size chunk sum name).1
        → Step r r' (begins id size chunk sum name)
    wrote :
        (id offset : ℕ) (xs : List ℕ)
        → r' ≡ (write fs r id offset xs).1
        → Step r r' (writes id offset xs)
    finished :
        (id sum : ℕ) (result : Result)
        → finish fs r id sum ≡ some (result, r')
        → Step r r' (finishes id sum)
    cancelled : (id : ℕ) → r' ≡ cancel fs r id → Step r r' (cancels id)

  pub data Reach (r : Receiver fs) : Receiver fs → Type 0 where
    here : Reach r r
    next : {s t : Receiver fs} {c : Command} → Reach r s → Step s t c → Reach r t

  Step-Consistent :
      {r r' : Receiver fs} {c : Command}
      → Step r r' c
      → Consistent r.sessions
      → Consistent r'.sessions
  Step-Consistent {r} (begun id size chunk sum name h e) v =
      rw e (begin-Consistent fs r id size chunk sum name h v)
  Step-Consistent {r} (wrote id offset xs e) v = rw e (write-Consistent fs r id offset xs v)
  Step-Consistent {r} {r'} (finished id sum result e) v =
      finish-Consistent fs r r' id sum result v e
  Step-Consistent {r} (cancelled id e) v = rw e (cancel-Consistent fs r id v)

  -- After any history of calls no session has received more than its file holds, so the unsigned
  -- difference that `Write` compares with never wraps.
  pub Reach-Consistent :
      {r r' : Receiver fs} → Reach r r' → Consistent r.sessions → Consistent r'.sessions
  Reach-Consistent here v = v
  Reach-Consistent (next h st) v = Step-Consistent st (Reach-Consistent h v)

-- What the calls of the system see of a name: it ends at a zero byte.
abbrev pub seen : List ℕ → List ℕ
seen [] = []
seen (c ∷ cs) = if c == 0 then [] else c ∷ seen cs

-- "..", and what follows it.
abbrev pub parent : List ℕ → List ℕ
parent rest = b'.' ∷ b'.' ∷ rest

seen-parent :
    (n : List ℕ)
    → seen n ≡ parent []
    → (n ≡ parent []) ⊎ ((rest : List ℕ) × (n ≡ parent (0 ∷ rest)))
seen-parent [] e = cc
seen-parent (a ∷ []) e = ground (arith, e)
seen-parent (a ∷ b ∷ []) e = ground (arith, e)
seen-parent (a ∷ b ∷ c ∷ n) e = ground (arith, e)

abbrev first : List ℕ → ℕ
first [] = 0
first (c ∷ cs) = c

unnamed_is_usual : seen unnamed ≡ parent [] → ⊥
unnamed_is_usual e = omega (arith, ap first e)

parent_is_special :
    (n : List ℕ)
    → n ≡ parent []
    → (list_eq n [] || (list_eq n (b'.' ∷ []) || list_eq n (b'.' ∷ b'.' ∷ []))) ≡ false
    → ⊥
unfolding list_eq
parent_is_special n e usual = no (rw e at usual)
  where
    no : true ≡ false → ⊥
    no h = cc

-- The name that `SafeFileName` makes is "..", as the calls of the system see it, exactly when the
-- file name of the peer is ".." followed by a zero byte: the guard against ".." compares all bytes.
pub safe_file_name-parent :
    (fs : FileSystem) (name : List ℕ)
    → (seen (safe_file_name fs name) ≡ parent []
        → (rest : List ℕ) × (fs.filename name ≡ parent (0 ∷ rest)))
      × ((rest : List ℕ)
          → fs.filename name ≡ parent (0 ∷ rest)
          → seen (safe_file_name fs name) ≡ parent [])
unfolding safe_file_name list_eq
safe_file_name-parent fs name =
    (λ e. forth (is_special (fs.filename name)) refl e, λ rest e. rw e refl)
  where
    is_special : List ℕ → Bool
    is_special n = list_eq n [] || (list_eq n (b'.' ∷ []) || list_eq n (b'.' ∷ b'.' ∷ []))

    forth :
        (b : Bool)
        → is_special (fs.filename name) ≡ b
        → seen (if b then unnamed else fs.filename name) ≡ parent []
        → (rest : List ℕ) × (fs.filename name ≡ parent (0 ∷ rest))
    forth true special e = absurd (unnamed_is_usual e)
    forth false usual e = elim (seen-parent (fs.filename name) e) [
      | inl f ↦ absurd (parent_is_special (fs.filename name) f usual)
      | inr r ↦ r
    ]
