-- ===== src/Worker/Deployment/Routes.antt =====
-- The paths that the worker calls, as the coordinator routes them.
use Prim.Native.String.{String, ◌++◌}
use Prim.Native.Char.{Char, code}
use text.Mathlib.TextLemmas.{nil-append, cons-append, append_assoc}
use forge_grid.Prelude.{
  true, ◌≡◌, ◌≢◌, refl, sym, ap, ◌∙◌, none, List, [], ◌∷◌, arith, eq_iff, split, IsWithout,
  IsWithout-of_lacks, cut_prefix, cut_prefix-append, none-ne-some,
}
use forge_grid.Worker.Deployment.{is_plain}
use forge_grid.Coordinator.Server.{to_job, route_of}

-- A text without the separator is one part.
split_plain : (sep : Char) (s : String) → IsWithout (code sep) s → split (code sep) s ≡ s ∷ []
unfolding split
split_plain sep String.[] h = refl
split_plain sep (String.◌∷◌ c s) (n, h) = ground (arith, n, split_plain sep s h)

-- A plain text has no slash.
pub IsWithout-of_plain : (s : String) → is_plain s ≡ true → IsWithout b'/' s
IsWithout-of_plain String.[] h = tt
IsWithout-of_plain (String.◌∷◌ c s) h =
    (ground (arith, h), IsWithout-of_plain s (ground (arith, h)))

-- What stands before the first separator is the first part.
split-append :
    (sep : Char) (p s : String)
    → IsWithout (code sep) p
    → split (code sep) (p ++ String.◌∷◌ sep s) ≡ p ∷ split (code sep) s
unfolding split
split-append sep String.[] s h = rw nil-append (ground arith)
split-append sep (String.◌∷◌ c p) s (n, h) =
    rw cons-append (ground (arith, n, split-append sep p s h))

abbrev pub slash : Char
slash = "/"

slash-append : (s : String) → "/" ++ s ≡ String.◌∷◌ slash s
slash-append s =
    cons-append slash String.[] s ∙ ap (λ (t : String). String.◌∷◌ slash t) (nil-append s)

split-slash :
    (p s : String)
    → IsWithout (code slash) p
    → split (code slash) (p ++ ("/" ++ s)) ≡ p ∷ split (code slash) s
split-slash p s h =
    ap (λ (t : String). split (code slash) (p ++ t)) (slash-append s) ∙ split-append slash p s h

regroup :
    (a b c d e f s : String)
    → (a ++ (b ++ (c ++ (d ++ (e ++ f))))) ++ s ≡ a ++ (b ++ (c ++ (d ++ (e ++ (f ++ s)))))
regroup a b c d e f s = simp append_assoc

plain_api : IsWithout (code slash) "api"
plain_api = IsWithout-of_lacks (code slash) "api" refl

plain_jobs : IsWithout (code slash) "jobs"
plain_jobs = IsWithout-of_lacks (code slash) "jobs" refl

-- An id without a slash is the fourth part of its path.
pub split-job :
    (id : String)
    → IsWithout (code slash) id
    → split b'/' ("/api/jobs/" ++ id) ≡ "" ∷ "api" ∷ "jobs" ∷ id ∷ []
split-job id h =
    let rest =
      split-slash "jobs" id plain_jobs
      ∙ ap (λ (l : List String). "jobs" ∷ l) (split_plain slash id h) in
    let parts =
      split-slash "api" ("jobs" ++ ("/" ++ id)) plain_api
      ∙ ap (λ (l : List String). "api" ∷ l) rest in
    ap (split b'/') (regroup "" "/" "api" "/" "jobs" "/" id)
    ∙ split-slash "" ("api" ++ ("/" ++ ("jobs" ++ ("/" ++ id)))) tt
    ∙ ap (λ (l : List String). "" ∷ l) parts

-- A text that continues a prefix is none that lacks the prefix.
prefix-ne : (p s t : String) → cut_prefix p t ≡ none → p ++ s ≢ t
prefix-ne p s t h e = none-ne-some (sym (cut_prefix-append p s) ∙ ap (cut_prefix p) e ∙ h)

abbrev pub job_path : String → String
job_path random_id = "/api/jobs/" ++ ("job-" ++ random_id)

job_path_is : (random_id : String) → job_path random_id ≡ "/api/jobs/job-" ++ random_id
job_path_is random_id = sym (append_assoc "/api/jobs/" "job-" random_id)

job_path-ne : (random_id t : String) → cut_prefix "/api/jobs/job-" t ≡ none → job_path random_id ≢ t
job_path-ne random_id t h e =
    prefix-ne "/api/jobs/job-" random_id t h (sym (job_path_is random_id) ∙ e)

-- The path of a job that the coordinator made goes to the handler of jobs.
pub route_of-job : (random_id : String) → route_of (job_path random_id) ≡ to_job
unfolding route_of cut_prefix
route_of-job random_id = ground (
  arith,
  cut_prefix-append "/api/jobs/" ("job-" ++ random_id),
  eq_iff (job_path random_id) "/api/coordinator/start",
  job_path-ne random_id "/api/coordinator/start" refl,
  eq_iff (job_path random_id) "/api/coordinator/status",
  job_path-ne random_id "/api/coordinator/status" refl,
  eq_iff (job_path random_id) "/api/pairing/code",
  job_path-ne random_id "/api/pairing/code" refl,
  eq_iff (job_path random_id) "/api/workers/pair",
  job_path-ne random_id "/api/workers/pair" refl,
  eq_iff (job_path random_id) "/api/workers/heartbeat",
  job_path-ne random_id "/api/workers/heartbeat" refl,
  eq_iff (job_path random_id) "/api/workers",
  job_path-ne random_id "/api/workers" refl,
  eq_iff (job_path random_id) "/api/jobs/test",
  job_path-ne random_id "/api/jobs/test" refl,
  eq_iff (job_path random_id) "/api/jobs",
  job_path-ne random_id "/api/jobs" refl,
  eq_iff (job_path random_id) "/api/jobs/manifest",
  job_path-ne random_id "/api/jobs/manifest" refl,
)
