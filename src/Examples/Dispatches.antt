-- ===== src/Examples/Dispatches.antt =====
-- A manifest of one task, dispatched to the coordinator's one worker.
use mathlib.Core.List.{Memᴰ}
use forge_grid.Prelude.{
  ℕ, ◌≡◌, ◌≢◌, ◌↔◌, refl, sym, ap, ◌∙◌, String, none, [], ◌∷◌, arith, eq_iff, pos,
}
use forge_grid.Dict.{lookup, values}
use forge_grid.Coordinator.Models.{WorkerState}
use forge_grid.Coordinator.Manifest.{Manifest, Task, Draw, submit_manifest}
use forge_grid.Coordinator.Manifest.Dispatch.{IsFit, IsRange, submit_manifest_iff}
use forge_grid.Coordinator.Requests.{Request, parsed}
use forge_grid.Coordinator.Server.{Context, Randomness, serve}
use forge_grid.Coordinator.Server.Registry.{IsSound}
use forge_grid.Coordinator.Server.Invariant.{serve-IsSound}
use forge_grid.Examples.Coordinators.{rig, libs, store}

abbrev pub build : Task
build = record {
  description = "";
  requirements = record { min_ram_gb = pos 1; os = "linux"; min_cores = pos 1 };
  execution = record { profile = "go-test"; args = []; env = []; timeout_seconds = pos 60 };
  artefacts = [];
}

abbrev pub plan : Manifest
plan = record { project = "demo"; tasks = ("build", build) ∷ [] }

abbrev pub draw : ℕ → Draw
draw n = record { random_id = "9"; visit = values }

values_IsRange : (i : ℕ) → IsRange (draw i).visit
values_IsRange i = record { sound = λ m w t. t; whole = λ m w t. t }

named : (w : WorkerState) → Memᴰ w (values store.workers) → w.id ≢ ""
unfolding values
named w (Memᴰ.head e) =
    λ p. ground (arith, eq_iff "w1" "", sym (ap (λ (v : WorkerState). v.id) e) ∙ p)
named w (Memᴰ.tail t) = elim t [ ]

submit_manifest_iff_example : ((submit_manifest libs draw plan store).1 ≡ none) ↔ (
    (name : String) (task : Task)
    → Memᴰ (name, task) plan.tasks
    → (w : WorkerState) × IsFit task.requirements store.workers w)
submit_manifest_iff_example = submit_manifest_iff libs draw plan store values_IsRange named

store_IsSound : IsSound store.workers store.jobs
unfolding lookup
store_IsSound = record {
  distinct = (refl, tt);
  at_id = λ id w h. ground (arith, h, eq_iff "w1" id);
  assigned = λ id job h. (rig, ground (arith, h, eq_iff "j1" id, eq_iff "w1" job.worker_id));
}

abbrev pub context : Context
context = record { ip = "10.0.0.9"; fingerprint = "f"; decode_yaml = λ n text. parsed plan }

abbrev pub random : Randomness
random = record { code_bytes = (1, 2, 3, 4); text = "7"; secret = "t7"; draw = draw }

abbrev submission : Request
submission = record {
  method = "POST";
  path = "/api/jobs/manifest";
  worker_query = "";
  authorization = "";
  body = "project: demo";
}

serve-IsSound_example :
    IsSound
      (serve libs context random submission 6 store).0.workers
      (serve libs context random submission 6 store).0.jobs
serve-IsSound_example =
    serve-IsSound libs context random submission 6 store values_IsRange store_IsSound
