-- ===== src/Disk/Memory.antt =====
-- A file system in memory whose calls fail once a budget is used up; the write that fails leaves
-- an empty file. It meets the laws.
use forge_grid.Prelude.{
  ℕ, zero, suc, String, ◌≡◌, ◌≢◌, Bool, true, false, Option, none, some, arith, eq_iff, eq_refl,
}
use forge_grid.Dict.{Dict, lookup, insert, delete, lookup-insert, lookup-delete}
use forge_grid.Disk.{FileSystem}

pub record Memory : Type 0 where
  pub files : Dict String
  pub budget : ℕ

abbrev read_memory : String → Memory → Option String
read_memory p d = lookup p d.files

abbrev put_within : ℕ → String → String → Memory → Memory × Bool
put_within zero p text d = (record d { files = insert p "" d.files }, false)
put_within (suc n) p text d = (record { files = insert p text d.files; budget = n }, true)

abbrev write_memory : String → String → Memory → Memory × Bool
write_memory p text d = put_within d.budget p text d

abbrev move_within : ℕ → Option String → String → String → Memory → Memory × Bool
move_within zero found p q d = (d, false)
move_within (suc n) none p q d = (d, false)
move_within (suc n) (some text) p q d =
    (record { files = insert q text (delete p d.files); budget = n }, true)

abbrev rename_memory : String → String → Memory → Memory × Bool
rename_memory p q d = move_within d.budget (lookup p d.files) p q d

pub write_memory_other :
    (p q text : String) (d : Memory)
    → p ≢ q
    → read_memory q (write_memory p text d).0 ≡ read_memory q d
write_memory_other p q text d h =
    ground (arith, lookup-insert p q text d.files, lookup-insert p q "" d.files, eq_iff p q)

pub write_memory_done :
    (p text : String) (d : Memory)
    → (write_memory p text d).1 ≡ true
    → read_memory p (write_memory p text d).0 ≡ some text
write_memory_done p text d h = ground (arith, lookup-insert p p text d.files, eq_refl p)

pub rename_memory_other :
    (p q r : String) (d : Memory)
    → p ≢ r
    → q ≢ r
    → read_memory r (rename_memory p q d).0 ≡ read_memory r d
rename_memory_other p q r d h k =
    grind (arith, lookup-insert, lookup-delete p r d.files, eq_iff p r, eq_iff q r)

pub rename_memory_done :
    (p q : String) (d : Memory)
    → (rename_memory p q d).1 ≡ true
    → read_memory q (rename_memory p q d).0 ≡ read_memory p d
rename_memory_done p q d h = grind (arith, lookup-insert, eq_refl q)

pub rename_memory_failed :
    (p q : String) (d : Memory) → (rename_memory p q d).1 ≡ false → (rename_memory p q d).0 ≡ d
rename_memory_failed p q d h = ground arith

abbrev pub memory : FileSystem Memory
memory = record {
  read_file = read_memory;
  write_file = write_memory;
  rename = rename_memory;
  write_file_other = write_memory_other;
  write_file_done = write_memory_done;
  rename_other = rename_memory_other;
  rename_done = rename_memory_done;
  rename_failed = rename_memory_failed;
}
