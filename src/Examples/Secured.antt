-- ===== src/Examples/Secured.antt =====
-- The protected write of a configuration, where the access lists can be set and read.
use forge_grid.Prelude.{refl, String, true, false, some}
use forge_grid.Dict.{Dict}
use forge_grid.Windows.{Security}
use forge_grid.Windows.Config.{IsAclOnly}
use forge_grid.Examples.Folders.{folder}

abbrev security : Security (Unit {0}) (Dict String)
security = record {
  token = record { opened = true; user = some (some "S-1") };
  parse_sddl = λ text. some (some (record { control = some 4; dacl = some (some tt, false) }));
  set_dacl = λ p acl d. (d, true);
  get_sddl = λ p d. some (some "D:PAI(A;;FA;;;S-1)(A;;FA;;;SY)");
  is_sid = λ s. true;
  same_account = λ a b. false;
}

abbrev acl_only : IsAclOnly folder security
acl_only path q acl d = refl
