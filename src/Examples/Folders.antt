-- ===== src/Examples/Folders.antt =====
-- A folder of files in memory whose calls succeed. It meets the laws.
use forge_grid.Prelude.{
  String, ◌≡◌, ◌≢◌, refl, Bool, true, false, Option, none, some, arith, eq_iff, eq_refl,
}
use forge_grid.Dict.{Dict, lookup, insert, delete, lookup-insert, lookup-delete}
use forge_grid.Bridge.Client.Secure.{Files}

abbrev Folder : Type 0
Folder = Dict String

abbrev create_within : Option String → String → Folder → Folder × Bool
create_within none p d = (insert p "" d, true)
create_within (some _) p d = (d, false)

abbrev move_within : Option String → String → String → Folder → Folder × Bool
move_within none p q d = (d, false)
move_within (some text) p q d = (insert q text (delete p d), true)

pub create_other :
    (o : Option String) (p q : String) (d : Folder)
    → p ≢ q
    → lookup q (create_within o p d).0 ≡ lookup q d
create_other o p q d h = ground (arith, lookup-insert p q "" d, eq_iff p q)

pub create_done :
    (o : Option String) (p : String) (d : Folder)
    → (create_within o p d).1 ≡ true
    → lookup p (create_within o p d).0 ≡ some ""
create_done o p d h = ground (arith, lookup-insert p p "" d, eq_refl p)

pub move_done :
    (p q : String) (d : Folder)
    → (move_within (lookup p d) p q d).1 ≡ true
    → lookup q (move_within (lookup p d) p q d).0 ≡ lookup p d
move_done p q d h = grind (arith, lookup-insert, eq_refl q)

pub move_failed :
    (o : Option String) (p q : String) (d : Folder)
    → (move_within o p q d).1 ≡ false
    → (move_within o p q d).0 ≡ d
move_failed o p q d h = ground arith

abbrev pub folder : Files Folder
folder = record {
  read_file = lookup;
  mkdir_of = λ p d. (d, true);
  create_new = λ p d. create_within (lookup p d) p d;
  write = λ p text d. (insert p text d, true);
  sync = λ p d. (d, true);
  close = λ p d. (d, true);
  rename = λ p q d. move_within (lookup p d) p q d;
  remove = delete;
  mkdir_of_same = λ p q d. refl;
  create_new_other = λ p q d h. create_other (lookup p d) p q d h;
  write_other = λ p q text d h. ground (arith, lookup-insert p q text d, eq_iff p q);
  write_done = λ p text d h k. ground (arith, lookup-insert p p text d, eq_refl p);
  create_new_done = λ p d h. create_done (lookup p d) p d h;
  sync_same = λ p q d. refl;
  close_same = λ p q d. refl;
  rename_done = move_done;
  rename_failed = λ p q d h. move_failed (lookup p d) p q d h;
  remove_other = λ p q d h. ground (arith, lookup-delete p q d, eq_iff p q);
}
