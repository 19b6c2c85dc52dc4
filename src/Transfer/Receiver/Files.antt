-- ===== src/Transfer/Receiver/Files.antt =====
-- What the receiver asks of std::filesystem and of the file streams, and what it may rely on.
use cloud_assitant.Prelude.{ℕ, List, ◌++◌, Option, some, Bool, true, false, ◌≡◌}

-- A `Bool` that comes with an answer of `exists`, `file_size` and `rename` is the error code.
-- `flushes` says whether what the open stream still holds is written when it is closed.
pub record FileSystem : Type 1 where
  pub Disk : Type 0
  pub filename : List ℕ → List ℕ
  pub join : List ℕ → List ℕ → List ℕ
  pub exists : Disk → List ℕ → Bool × Bool
  pub file_size : Disk → List ℕ → ℕ × Bool
  pub truncate : Disk → List ℕ → Bool × Disk
  pub open_append : Disk → List ℕ → Bool × Disk
  pub write : Disk → List ℕ → List ℕ → Bool × Disk
  pub close : Disk → List ℕ → Disk
  pub flushes : Disk → List ℕ → Bool
  pub contents : Disk → List ℕ → Option (List ℕ)
  pub rename : Disk → List ℕ → List ℕ → Bool × Disk
  pub remove : Disk → List ℕ → Disk

-- `written d p` is what the file at `p` holds once the stream that appends to it is closed.
pub record IsFileSystem (fs : FileSystem) : Type 0 where
  pub written : fs.Disk → List ℕ → List ℕ
  pub written-write :
      (d : fs.Disk) (p xs : List ℕ)
      → (fs.write d p xs).0 ≡ true
      → written (fs.write d p xs).1 p ≡ written d p ++ xs
  pub contents-close :
      (d : fs.Disk) (p : List ℕ) → fs.contents (fs.close d p) p ≡ some (written d p)
  pub contents-rename :
      (d : fs.Disk) (p q : List ℕ)
      → (fs.rename d p q).0 ≡ false
      → fs.contents (fs.rename d p q).1 q ≡ fs.contents d p

-- A disk on which every write succeeds and every file can be renamed.
pub record IsWilling (fs : FileSystem) : Type 0 where
  pub writes : (d : fs.Disk) (p xs : List ℕ) → (fs.write d p xs).0 ≡ true
  pub renames : (d : fs.Disk) (p q : List ℕ) → (fs.rename d p q).0 ≡ false
