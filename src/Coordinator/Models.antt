-- ===== src/Coordinator/Models.antt =====
-- internal/models/models.go. A time is the count of nanoseconds since Go's zero time.
use forge_grid.Prelude.{ℕ, ℤ, String, Option, List}
use forge_grid.Dict.{Dict}
use forge_grid.Bridge.Models.{Time}

pub record WorkerState : Type 0 where
  pub id : String
  pub node_name : String
  pub os : String
  pub os_version : String
  pub cpu_model : String
  pub architecture : String
  pub physical_cores : ℤ
  pub logical_processors : ℤ
  pub total_ram : ℕ
  pub available_ram : ℕ
  pub free_workspace_disk : ℕ
  pub last_seen : Time
  pub token_hash : String
  pub status : String

pub record Job : Type 0 where
  pub id : String
  pub attempt_id : String
  pub worker_id : String
  pub task : String
  pub status : String
  pub start_time : Option Time
  pub end_time : Option Time
  pub result : String
  pub logs : List String
  pub profile : String
  pub args : List String
  pub env : Dict String
  pub timeout_seconds : ℤ
  pub challenge : String

pub record CoordinatorState : Type 0 where
  pub identity : String
  pub pairing_code : String
  pub pairing_expiry : Time
  pub pairing_failures : ℕ
  pub cert_pem : List ℕ
  pub key_pem : List ℕ

pub record WorkerDto : Type 0 where
  pub id : String
  pub node_name : String
  pub os : String
  pub os_version : String
  pub cpu_model : String
  pub architecture : String
  pub physical_cores : ℤ
  pub logical_processors : ℤ
  pub total_ram : ℕ
  pub available_ram : ℕ
  pub free_workspace_disk : ℕ
  pub last_seen : Time
  pub status : String

pub record ErrorResponse : Type 0 where
  pub code : String
  pub message : String
  pub detail : String

unfoldable pub to_dto : WorkerState → WorkerDto
to_dto w = record {
  id = w.id;
  node_name = w.node_name;
  os = w.os;
  os_version = w.os_version;
  cpu_model = w.cpu_model;
  architecture = w.architecture;
  physical_cores = w.physical_cores;
  logical_processors = w.logical_processors;
  total_ram = w.total_ram;
  available_ram = w.available_ram;
  free_workspace_disk = w.free_workspace_disk;
  last_seen = w.last_seen;
  status = w.status;
}
