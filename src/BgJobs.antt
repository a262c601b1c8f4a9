-- ===== src/BgJobs.antt =====
-- harness/bg_jobs.py and harness/bg_worker.py: background jobs, one JSON file for each. The
-- operating system (clock, fresh ids, liveness, kill, spawn, the log of a failed spawn) and Python's
-- `float` and `str` are a parameter, `Os`; a file is what reading and parsing it gives.
pub mod Codec
pub mod Stopping
pub mod Finishing
pub mod Listing
mod Tests
use jaros_code.Prelude.{
  ℕ, zero, suc, String, Bool, true, false, not, ◌&&◌, Option, none, some, List, [], ◌∷◌, map, ◌==◌,
  str_eq, if◌then◌else◌,
}
use jaros_code.Text.{◌<>◌, strip}
use jaros_code.Value.{Value, null, bool, num, str, object, Fields, end, entry, get, truthy}
use jaros_code.Exec.{Result, ok, err}

pub data Contents : Type 0 where
  absent : Contents
  -- not readable, or not JSON
  broken : Contents
  json : Value → Contents

-- The files of the jobs directory, by job id, in the order in which `glob` lists them.
abbrev pub Files : Type 0
Files = List (String × Contents)

unfoldable pub contents_of : Files → String → Contents
contents_of [] id = absent
contents_of ((name, c) ∷ files) id = if str_eq name id then c else contents_of files id

unfoldable pub set_contents : Files → String → Contents → Files
set_contents [] id new = (id, new) ∷ []
set_contents ((name, c) ∷ files) id new =
    if str_eq name id then (name, new) ∷ files else (name, c) ∷ set_contents files id new

pub record JobRecord (Time : Type 0) : Type 0 where
  pub id : String
  pub request : String
  pub status : String
  pub pid : Value
  pub started_at : Time
  pub ended_at : Value
  pub log_path : String
  pub exit_code : Value

pub record Os (Time : Type 0) (W : Type 0) : Type 0 where
  pub now : W → Time
  -- the numbers of JSON: `float`, `none` where it raises, and the number that is written
  pub to_time : Value → Option Time
  pub of_time : Time → Value
  pub zero_time : Time
  pub leq : Time → Time → Bool
  -- `str`, and `repr` of a text
  pub show : Value → String
  pub repr : String → String
  -- what a file holds after an attempt to write a value into it
  pub after_write : W → Value → Contents → Contents
  -- the liveness check for a pid that is not null or 0
  pub alive : Value → W → Bool
  pub kill : Value → W → W
  -- the pid, or the message of the exception
  pub spawn : String → W → Result Value × W
  pub write_log : String → W → W
  pub log_path_for : String → String
  pub fresh_id : ℕ → W → String
  pub long_id : W → String

pub record State (W : Type 0) : Type 0 where
  pub files : Files
  pub world : W

-- `data.get(key, default)`
abbrev get_or : Option Value → Value → Value
get_or none default = default
get_or (some v) default = v

-- `dataclasses.asdict`
unfoldable pub encode : {Time : Type 0} → (Time → Value) → JobRecord Time → Value
encode of_time r = object (
    entry "id" (str r.id) (
      entry "request" (str r.request) (
        entry "status" (str r.status) (
          entry "pid" r.pid (
            entry "started_at" (of_time r.started_at) (
              entry "ended_at" r.ended_at
                (entry "log_path" (str r.log_path) (entry "exit_code" r.exit_code end))))))))

-- `exit_code == 0`
abbrev pub is_zero : Value → Bool
is_zero (num negative digits scale) = digits == 0
is_zero (bool b) = not b
is_zero _ = false

pub record StopReply (Time : Type 0) : Type 0 where
  pub accepted : Bool
  pub message : String
  pub job : Option (JobRecord Time)

module _ {Time W : Type 0} (os : Os Time W) where
  abbrev decode_at : String → Fields → Option Time → Option (JobRecord Time)
  decode_at job_id fs none = none
  decode_at job_id fs (some started) = some (record {
    id = os.show (get_or (get fs "id") (str job_id));
    request = os.show (get_or (get fs "request") (str ""));
    status = os.show (get_or (get fs "status") (str "failed"));
    pid = get_or (get fs "pid") null;
    started_at = started;
    ended_at = get_or (get fs "ended_at") null;
    log_path = os.show (get_or (get fs "log_path") (str ""));
    exit_code = get_or (get fs "exit_code") null;
  })

  -- `_read_record` on what the file holds
  unfoldable pub decode : String → Contents → Option (JobRecord Time)
  decode job_id (json (object fs)) =
      decode_at job_id fs (os.to_time (get_or (get fs "started_at") (os.of_time os.zero_time)))
  decode job_id _ = none

  abbrev pub read_record : String → State W → Option (JobRecord Time)
  read_record job_id s = decode job_id (contents_of s.files job_id)

  unfoldable pub write_record : JobRecord Time → State W → State W
  write_record r s = record s {
    files =
        set_contents s.files r.id
          (os.after_write s.world (encode os.of_time r) (contents_of s.files r.id));
  }

  abbrev pub pid_alive : Value → W → Bool
  pid_alive pid w = truthy pid && os.alive pid w

  abbrev pub is_running : JobRecord Time → Bool
  is_running r = str_eq r.status "running"

  -- `dataclasses.replace(rec, status=…, ended_at=time.time())`
  abbrev pub ended : String → JobRecord Time → W → JobRecord Time
  ended status r w = record r { status = status; ended_at = os.of_time (os.now w) }

  unfoldable pub reconcile : JobRecord Time → State W → JobRecord Time × State W
  reconcile r s =
      if is_running r && not (pid_alive r.pid s.world)
      then (ended "failed" r s.world, write_record (ended "failed" r s.world) s)
      else (r, s)

  abbrev pub reconciled : Option (JobRecord Time) → State W → Option (JobRecord Time) × State W
  reconciled none s = (none, s)
  reconciled (some r) s = let done = reconcile r s in (some done.0, done.1)

  unfoldable pub get_job : String → State W → Option (JobRecord Time) × State W
  get_job job_id s = reconciled (read_record job_id s) s

  -- The stable sort by `started_at`, newest first.
  unfoldable pub insert : JobRecord Time → List (JobRecord Time) → List (JobRecord Time)
  insert r [] = r ∷ []
  insert r (q ∷ qs) =
      let later = insert r qs in if os.leq q.started_at r.started_at then r ∷ q ∷ qs else q ∷ later

  unfoldable pub newest_first : List (JobRecord Time) → List (JobRecord Time)
  newest_first [] = []
  newest_first (r ∷ rs) = insert r (newest_first rs)

  abbrev add_job : Option (JobRecord Time) → List (JobRecord Time) → List (JobRecord Time)
  add_job none rs = rs
  add_job (some r) rs = r ∷ rs

  -- The loop over the files.
  unfoldable pub collect : List String → State W → List (JobRecord Time) × State W
  collect [] s = ([], s)
  collect (job_id ∷ ids) s =
      let first = get_job job_id s in
      let rest = collect ids first.1 in (add_job first.0 rest.0, rest.1)

  unfoldable pub list_jobs : State W → List (JobRecord Time) × State W
  list_jobs s =
      let found = collect (map (λ file. file.0) s.files) s in (newest_first found.0, found.1)

  abbrev killed : Value → W → W
  killed pid w = if truthy pid then os.kill pid w else w

  abbrev stop_running : String → JobRecord Time → State W → StopReply Time × State W
  stop_running job_id r s =
      let after = record s { world = killed r.pid s.world } in
      let stopped = ended "stopped" r after.world in
      (
        record { accepted = true; message = "job " <> job_id <> " stopped"; job = some stopped },
        write_record stopped after,
      )

  abbrev pub refusal : String → Option (JobRecord Time) → StopReply Time
  refusal message r = record { accepted = false; message = message; job = r }

  abbrev pub stop_found : String → Option (JobRecord Time) → State W → StopReply Time × State W
  stop_found job_id none s = (refusal ("unknown job " <> os.repr job_id) none, s)
  stop_found job_id (some r) s =
      if is_running r
      then stop_running job_id r s
      else (refusal ("job " <> job_id <> " is not running (status=" <> r.status <> ")") (some r), s)

  unfoldable pub stop_job : String → State W → StopReply Time × State W
  stop_job job_id s = let found = get_job job_id s in stop_found job_id found.0 found.1

  abbrev finished : Option (JobRecord Time) → Value → State W → State W
  finished none exit_code s = s
  finished (some r) exit_code s =
      write_record
        (record (ended (if is_zero exit_code then "done" else "failed") r s.world) {
          exit_code = exit_code;
        })
        s

  unfoldable pub mark_finished : String → Value → State W → State W
  mark_finished job_id exit_code s = finished (read_record job_id s) exit_code s

  abbrev is_free : Contents → Bool
  is_free absent = true
  is_free _ = false

  -- `_new_job_id`: up to 50 short ids, then a long one.
  unfoldable pub new_job_id : ℕ → State W → String
  new_job_id zero s = os.long_id s.world
  new_job_id (suc tries) s =
      let later = new_job_id tries s in
      let id = os.fresh_id tries s.world in if is_free (contents_of s.files id) then id else later

  abbrev spawned : JobRecord Time → Result Value → State W → JobRecord Time × State W
  spawned r (ok pid) s = let running = record r { pid = pid } in (running, write_record running s)
  spawned r (err e) s =
      let failed = ended "failed" r s.world in
      let after = write_record failed s in
      (failed, record after { world = os.write_log r.log_path after.world })

  unfoldable pub submit_job : String → State W → JobRecord Time × State W
  submit_job request s =
      let job_id = new_job_id 50 s in
      let r : JobRecord Time = record {
        id = job_id;
        request = strip request;
        status = "running";
        pid = null;
        started_at = os.now s.world;
        ended_at = null;
        log_path = os.log_path_for job_id;
        exit_code = null;
      } in
      let before = write_record r s in
      let ran = os.spawn job_id before.world in spawned r ran.0 (record before { world = ran.1 })

  -- `main` of harness/bg_worker.py with a job id: `one_shot` is `_run_one_shot`, which runs the
  -- request with the jobs directory at hand and returns an exit code or raises.
  module _ (one_shot : String → State W → Result Value × State W) where
    abbrev worker_done : String → Result Value → State W → Value × State W
    worker_done job_id (ok code) s = (code, mark_finished job_id code s)
    worker_done job_id (err e) s = (num false 1 0, mark_finished job_id (num false 1 0) s)

    abbrev worker_found : String → Option (JobRecord Time) → State W → Value × State W
    worker_found job_id none s = (num false 1 0, s)
    worker_found job_id (some r) s =
        let ran = one_shot r.request s in worker_done job_id ran.0 ran.1

    unfoldable pub worker : String → State W → Value × State W
    worker job_id s = let found = get_job job_id s in worker_found job_id found.0 found.1
