-- ===== src/Disk.antt =====
-- The calls of package os that the stores make on their data directory. A path is the name of a
-- file inside that directory. The package is not part of the repository: its calls are a record,
-- with what the code relies on as laws.
pub mod Atomic
pub mod Memory
use forge_grid.Prelude.{String, ◌≡◌, ◌≢◌, Bool, true, false, Option, some}

-- The Boolean says that the call returned no error.
pub record FileSystem (Disk : Type 0) : Type 0 where
  pub read_file : String → Disk → Option String
  pub write_file : String → String → Disk → Disk × Bool
  pub rename : String → String → Disk → Disk × Bool
  -- A write, whole or broken off, touches no other file.
  pub write_file_other :
      (p q text : String) (d : Disk) → p ≢ q → read_file q (write_file p text d).0 ≡ read_file q d
  pub write_file_done :
      (p text : String) (d : Disk)
      → (write_file p text d).1 ≡ true
      → read_file p (write_file p text d).0 ≡ some text
  pub rename_other :
      (p q r : String) (d : Disk) → p ≢ r → q ≢ r → read_file r (rename p q d).0 ≡ read_file r d
  pub rename_done :
      (p q : String) (d : Disk)
      → (rename p q d).1 ≡ true
      → read_file q (rename p q d).0 ≡ read_file p d
  pub rename_failed : (p q : String) (d : Disk) → (rename p q d).1 ≡ false → (rename p q d).0 ≡ d
