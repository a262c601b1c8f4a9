-- ===== src/BgJobs/Tests.antt =====
-- Runs of background jobs on an operating system with one process, and the theorems at those runs.
use jaros_code.Prelude.{
  ℕ, String, ◌≡◌, refl, Bool, true, false, Option, none, some, [], ◌∷◌, All, arith, leb, ◌==◌,
  if◌then◌else◌,
}
use mathlib.Core.List.{Permᴰ}
use jaros_code.Text.{◌<>◌}
use jaros_code.Value.{Value, null, num, str, get, truthy}
use jaros_code.Exec.{Result, other_error, ok, err}
use jaros_code.BgJobs.{
  Files, json, broken, JobRecord, Os, State, encode, decode, contents_of, read_record, ended,
  get_job, collect, list_jobs, newest_first, insert, stop_job, new_job_id, submit_job, worker,
  reconcile,
}
use jaros_code.BgJobs.Codec.{IsFaithful}
use jaros_code.BgJobs.Listing.{IsNoGhost, IsNewestFirst, IsTotal, job_ids, list_jobs-IsNewestFirst}
use jaros_code.BgJobs.Stopping.{get_job-stop_job, stop_job-refuses, stop_job-ghost}
use jaros_code.BgJobs.Finishing.{
  submitted, with_pid, final_record, get_job-submit_job, read_record-submit_job, worker-records,
}

abbrev seven : Value
seven = num false 7 0

abbrev text_of : Value → String
text_of (str s) = s
text_of _ = "?"

abbrev time_of : Value → Option ℕ
time_of (num negative digits scale) = some digits
time_of _ = none

-- The world tells whether process 7 lives; `works` tells whether a process can be spawned.
abbrev one_process : Bool → Os ℕ Bool
one_process works = record {
  now = λ w. if w then 20 else 30;
  to_time = time_of;
  of_time = λ t. num false t 0;
  zero_time = 0;
  leq = leb;
  show = text_of;
  repr = λ s. "'" <> s <> "'";
  after_write = λ w v c. json v;
  alive = λ pid w. w;
  kill = λ pid w. false;
  spawn = λ id w. if works then (ok seven, true) else (err (other_error "no memory"), w);
  write_log = λ path w. w;
  log_path_for = λ id. id <> ".log";
  fresh_id = λ n w. if n == 49 then "aa" else "bb";
  long_id = λ w. "cc";
}

abbrev os : Os ℕ Bool
os = one_process true

abbrev job : (id status : String) (started : ℕ) → JobRecord ℕ
job id status started = record {
  id = id;
  request = "fix it";
  status = status;
  pid = seven;
  started_at = started;
  ended_at = null;
  log_path = id <> ".log";
  exit_code = null;
}

abbrev jobs : Files
jobs =
    ("aa", json (encode (λ t. num false t 0) (job "aa" "running" 1)))
    ∷ ("dd", broken)
    ∷ ("ee", json (encode (λ t. num false t 0) (job "ee" "done" 2)))
    ∷ []

abbrev living : State Bool
living = record { files = jobs; world = true }

abbrev dead : State Bool
dead = record { files = jobs; world = false }

os-IsFaithful : (works : Bool) → IsFaithful (one_process works)
os-IsFaithful works = record { show_str = λ t. refl; times = λ t. refl; writes = λ w v c. refl }

os-IsTotal : IsTotal os
os-IsTotal a b h = ground arith

listed_newest_first : (list_jobs os living).0 ≡ job "ee" "done" 2 ∷ job "aa" "running" 1 ∷ []
unfolding list_jobs collect get_job reconcile newest_first insert decode encode contents_of get
    truthy
listed_newest_first = refl

-- The first short id is taken.
next_id : new_job_id os 50 living ≡ "bb"
unfolding new_job_id contents_of
next_id = refl

list_jobs-IsNewestFirst_example :
    All (IsNoGhost os living.world) (list_jobs os living).0
    × IsNewestFirst os (list_jobs os living).0
    × Permᴰ (list_jobs os living).0 (collect os (job_ids os living) living).0
    × ((list_jobs os living).1.world ≡ living.world)
list_jobs-IsNewestFirst_example = list_jobs-IsNewestFirst os living os-IsTotal

get_job-stop_job_example :
    ((stop_job os "aa" living).1.world ≡ os.kill seven living.world)
    × ((stop_job os "aa" living).0.job
        ≡ some (ended os "stopped" (job "aa" "running" 1) (os.kill seven living.world)))
    × (get_job os "aa" (stop_job os "aa" living).1 ≡ (
      some (ended os "stopped" (job "aa" "running" 1) (os.kill seven living.world)),
      (stop_job os "aa" living).1,
    ))
unfolding decode encode contents_of get truthy
get_job-stop_job_example =
    get_job-stop_job os "aa" living (job "aa" "running" 1) (os-IsFaithful true) refl refl refl refl

stop_job-refuses_example :
    ((stop_job os "ee" living).0.accepted ≡ false)
    × ((stop_job os "ee" living).0.job ≡ some (job "ee" "done" 2))
    × ((stop_job os "ee" living).1 ≡ living)
unfolding decode encode contents_of get
stop_job-refuses_example = stop_job-refuses os "ee" living (job "ee" "done" 2) refl refl

stop_job-ghost_example :
    ((stop_job os "aa" dead).0.accepted ≡ false)
    × ((stop_job os "aa" dead).1.world ≡ dead.world)
    × (read_record os "aa" (stop_job os "aa" dead).1
        ≡ some (ended os "failed" (job "aa" "running" 1) dead.world))
unfolding decode encode contents_of get truthy
stop_job-ghost_example =
    stop_job-ghost os "aa" dead (job "aa" "running" 1) (os-IsFaithful true) refl refl refl refl

get_job-submit_job_example :
    ((submit_job os " fix it " dead).0 ≡ with_pid os seven (submitted os " fix it " dead))
    × (get_job os (new_job_id os 50 dead) (submit_job os " fix it " dead).1 ≡ (
      some (with_pid os seven (submitted os " fix it " dead)),
      (submit_job os " fix it " dead).1,
    ))
    × ((submit_job os " fix it " dead).1.world ≡ true)
unfolding truthy
get_job-submit_job_example =
    get_job-submit_job os " fix it " dead seven true (os-IsFaithful true) refl refl

abbrev full : Os ℕ Bool
full = one_process false

read_record-submit_job_example :
    ((submit_job full "fix it" dead).0 ≡ ended full "failed" (submitted full "fix it" dead) false)
    × (read_record full (new_job_id full 50 dead) (submit_job full "fix it" dead).1
        ≡ some (ended full "failed" (submitted full "fix it" dead) false))
read_record-submit_job_example =
    read_record-submit_job full "fix it" dead (other_error "no memory") false (os-IsFaithful false)
      refl

abbrev succeed : String → State Bool → Result Value × State Bool
succeed request s = (ok (num false 0 0), s)

worker-records_example :
    ((worker os succeed "aa" living).0 ≡ num false 0 0)
    × (read_record os "aa" (worker os succeed "aa" living).1
        ≡ some (final_record os (num false 0 0) (job "aa" "running" 1) true))
unfolding get_job reconcile decode encode contents_of get truthy
worker-records_example =
    worker-records os succeed "aa" living (job "aa" "running" 1) (job "aa" "running" 1) living
      living (ok (num false 0 0)) (os-IsFaithful true) refl refl refl refl
