-- ===== src/Transfer/Receiver/Upload.antt =====
-- A whole upload through Transfer/FileReceiver.cpp, on a file system that does what it is asked.
use cloud_assitant.Prelude.{
  ℕ, ◌+◌, ◌^◌, ◌≤◌, ◌<◌, ◌≡◌, sym, ap, ◌∙◌, List, [], ◌∷◌, ◌++◌, some, true, length, All, arith,
  append_assoc, append-nil, length-append,
}
use cloud_assitant.Transfer.Checksum.{checksum_file, update_crc32}
use cloud_assitant.Transfer.Checksum.Blocks.{checksum_file_lem}
use cloud_assitant.Transfer.Receiver.Files.{FileSystem, IsFileSystem, IsWilling}
use cloud_assitant.Transfer.Receiver.{accept, Session, ready, find, erase, Receiver, write, finish}
use cloud_assitant.Transfer.Receiver.Safety.{find-update}

abbrev pub concat : List (List ℕ) → List ℕ
concat [] = []
concat (c ∷ cs) = c ++ concat cs

module _ (fs : FileSystem) where
  -- The chunks that follow one another from `offset` on.
  abbrev pub write_all : Receiver fs → ℕ → ℕ → List (List ℕ) → Receiver fs
  write_all r id offset [] = r
  write_all r id offset (c ∷ cs) = write_all (write fs r id offset c).1 id (offset + length c) cs

module _ (fs : FileSystem) (laws : IsFileSystem fs) where
  open laws use {written}

  -- A chunk at the expected offset, within the announced sizes, is appended to the part file.
  pub write-appends :
      (r : Receiver fs) (id : ℕ) (s : Session) (xs : List ℕ)
      → find id r.sessions ≡ some s
      → s.stream ≡ ready
      → s.file_size < 2 ^ 64
      → length xs ≤ s.chunk_size
      → s.received + length xs ≤ s.file_size
      → (fs.write r.disk s.part_path xs).0 ≡ true
      → let (result, r') = write fs r id s.received xs in
        (result ≡ accept (s.received + length xs))
        × (find id r'.sessions ≡ some (record s { received = s.received + length xs }))
        × (written r'.disk s.part_path ≡ written r.disk s.part_path ++ xs)
  unfolding write
  write-appends r id s xs e good hs hc hr ok = rw e (
      ground (
        arith,
        find-update id (record s { received = s.received + length xs }) s r.sessions e,
        laws.written-write r.disk s.part_path xs,
      ))

  abbrev pub InChunks : ℕ → List (List ℕ) → Type 0
  InChunks size = All (λ c. length c ≤ size)

  write_all-appends :
      (r : Receiver fs) (id : ℕ) (s : Session) (cs : List (List ℕ))
      → IsWilling fs
      → find id r.sessions ≡ some s
      → s.stream ≡ ready
      → s.file_size < 2 ^ 64
      → InChunks s.chunk_size cs
      → s.received + length (concat cs) ≤ s.file_size
      → let r' = write_all fs r id s.received cs in
        (find id r'.sessions ≡ some (record s { received = s.received + length (concat cs) }))
        × (written r'.disk s.part_path ≡ written r.disk s.part_path ++ concat cs)
  write_all-appends r id s [] w e good hs hc hr =
      (e ∙ ap (λ n. some (record s { received = n })) (omega arith), sym (append-nil _))
  write_all-appends r id s (c ∷ cs) w e good hs (hc, hcs) hr =
      let split : length (c ++ concat cs) ≡ length c + length (concat cs) =
        length-append c (concat cs) in
      let (_, e', d') =
        write-appends r id s c e good hs hc (omega arith) (w.writes r.disk s.part_path c) in
      let (e'', d'') =
        write_all-appends (write fs r id s.received c).1 id
          (record s { received = s.received + length c }) cs w e' good hs hcs (omega arith) in
      (
        e'' ∙ ap (λ n. some (record s { received = n })) (omega arith),
        d'' ∙ ap (λ t. t ++ concat cs) d' ∙ append_assoc _ c (concat cs),
      )

  finish-delivers :
      (r : Receiver fs) (id : ℕ) (s : Session)
      → IsWilling fs
      → find id r.sessions ≡ some s
      → s.received ≡ s.file_size
      → update_crc32 0 (written r.disk s.part_path) ≡ s.checksum
      → (r' : Receiver fs) × (finish fs r id s.checksum ≡ some (accept s.file_size, r'))
        × (fs.contents r'.disk s.final_path ≡ some (written r.disk s.part_path))
  unfolding finish
  finish-delivers r id s w e full sum = (
    record r {
      sessions = erase id r.sessions;
      disk = (fs.rename (fs.close r.disk s.part_path) s.part_path s.final_path).1;
    },
    rw e (ground (arith, known, w.renames closed s.part_path s.final_path, full)),
    laws.contents-rename closed s.part_path s.final_path (w.renames closed s.part_path s.final_path)
        ∙ laws.contents-close r.disk s.part_path,
  )
    where
      closed : fs.Disk
      closed = fs.close r.disk s.part_path

      known : checksum_file (fs.contents closed s.part_path) ≡ some s.checksum
      known =
          ap checksum_file (laws.contents-close r.disk s.part_path)
          ∙ checksum_file_lem (written r.disk s.part_path)
          ∙ ap some sum

  -- On a disk that accepts everything: when the chunks, each within the announced size, complete the
  -- part file to the announced size and checksum, `Finish` accepts, and the final file holds the
  -- bytes that the part file had followed by the chunks in their order.
  pub upload-delivers :
      (r : Receiver fs) (id : ℕ) (s : Session) (cs : List (List ℕ))
      → IsWilling fs
      → find id r.sessions ≡ some s
      → s.stream ≡ ready
      → s.file_size < 2 ^ 64
      → InChunks s.chunk_size cs
      → s.received + length (concat cs) ≡ s.file_size
      → update_crc32 0 (written r.disk s.part_path ++ concat cs) ≡ s.checksum
      → (r' : Receiver fs) × (finish fs (write_all fs r id s.received cs) id s.checksum
          ≡ some (accept s.file_size, r'))
        × (fs.contents r'.disk s.final_path ≡ some (written r.disk s.part_path ++ concat cs))
  upload-delivers r id s cs w e good hs hc full sum =
      let (e', d') = write_all-appends r id s cs w e good hs hc (omega arith) in
      let (r', f, c) =
        finish-delivers (write_all fs r id s.received cs) id
          (record s { received = s.received + length (concat cs) }) w e' full
          (ap (update_crc32 0) d' ∙ sum) in
      (r', f, c ∙ ap some d')
