-- ===== src/Worker/Hardware.antt =====
-- `getHardwareInfo` of internal/worker/worker.go.
use forge_grid.Prelude.{
  ℕ, ℤ, pos, String, Option, none, some, List, [], ◌∷◌, get_or, ◌==◌, if◌then◌else◌,
}
use forge_grid.Coordinator.Models.{WorkerDto}

-- What the runtime and the gopsutil packages answer; `none` is an error.
pub record Machine : Type 0 where
  pub goos : String
  pub goarch : String
  -- PlatformVersion and OS
  pub host_info : Option (String × String)
  pub cpu_models : Option (List String)
  pub cores : Option ℤ
  pub processors : Option ℤ
  -- Total and Available
  pub memory : Option (ℕ × ℕ)
  -- Free, of the workspace's absolute path.
  pub disk_free : Option ℕ

abbrev version_of : Option (String × String) → String
version_of none = "unknown"
version_of (some (version, os)) = if version == "" then os else version

abbrev model_of : Option (List String) → String
model_of (some (model ∷ _)) = model
model_of (some []) = "unknown"
model_of none = "unknown"

abbrev pub total_of : Option (ℕ × ℕ) → ℕ
total_of none = 0
total_of (some (total, available)) = total

abbrev pub available_of : Option (ℕ × ℕ) → ℕ
available_of none = 0
available_of (some (total, available)) = available

unfoldable pub get_hardware_info : Machine → String → WorkerDto
get_hardware_info m node_name = record {
  id = "";
  node_name = node_name;
  os = m.goos;
  os_version = version_of m.host_info;
  cpu_model = model_of m.cpu_models;
  architecture = m.goarch;
  physical_cores = get_or m.cores (pos 0);
  logical_processors = get_or m.processors (pos 0);
  total_ram = total_of m.memory;
  available_ram = available_of m.memory;
  free_workspace_disk = get_or m.disk_free 0;
  last_seen = 0;
  status = "";
}
