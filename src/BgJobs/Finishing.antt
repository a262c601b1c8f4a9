-- ===== src/BgJobs/Finishing.antt =====
-- `submit_job` and `mark_finished` of harness/bg_jobs.py and the worker of harness/bg_worker.py: how
-- a job starts and how its end is recorded.
use jaros_code.Prelude.{String, ◌≡◌, refl, ap, sym, ◌∙◌, true, false, some, if◌then◌else◌}
use jaros_code.Text.{strip}
use jaros_code.Value.{Value, null, num}
use jaros_code.Exec.{Result, Error, ok, err}
use jaros_code.BgJobs.{
  JobRecord, Os, State, pid_alive, is_zero, ended, read_record, write_record, get_job, finished,
  mark_finished, new_job_id, spawned, submit_job, worker_done, worker_found, worker,
}
use jaros_code.BgJobs.Codec.{IsFaithful, read_record-write_record}
use jaros_code.BgJobs.Stopping.{read_back, get_job-kept}

module _ {Time W : Type 0} (os : Os Time W) where
  -- The record of a request that has no process yet.
  abbrev pub submitted : String → State W → JobRecord Time
  submitted request s = record {
    id = new_job_id os 50 s;
    request = strip request;
    status = "running";
    pid = null;
    started_at = os.now s.world;
    ended_at = null;
    log_path = os.log_path_for (new_job_id os 50 s);
    exit_code = null;
  }

  abbrev pub with_pid : Value → JobRecord Time → JobRecord Time
  with_pid pid r = record r { pid = pid }

  -- Where the worker is spawned and its process lives, a submitted request is a running job with
  -- that pid, the stripped request, the time of the submission, no end and no exit code, and a
  -- lookup of its id returns that record and changes nothing.
  pub get_job-submit_job :
      (request : String) (s : State W) (pid : Value) (w : W)
      → IsFaithful os
      → os.spawn (new_job_id os 50 s) s.world ≡ (ok pid, w)
      → pid_alive os pid w ≡ true
      → ((submit_job os request s).0 ≡ with_pid pid (submitted request s))
        × (get_job os (new_job_id os 50 s) (submit_job os request s).1
            ≡ (some (with_pid pid (submitted request s)), (submit_job os request s).1))
        × ((submit_job os request s).1.world ≡ w)
  unfolding submit_job write_record
  get_job-submit_job request s pid w f spawn live =
      let r = submitted request s in
      let before = write_record os r s in
      let running = with_pid pid r in
      let after = write_record os running (record before { world = w }) in
      let e : submit_job os request s ≡ (running, after) =
        ap (λ ran. spawned os r ran.0 (record before { world = ran.1 })) spawn in
      let found = read_record-write_record os running (record before { world = w }) f in
      (
        ap (λ p. p.0) e,
        ap (λ p. get_job os r.id p.1) e
            ∙ get_job-kept os r.id after running found (rw live)
            ∙ ap (λ p. (some running, p.1)) (sym e),
        ap (λ p. p.1.world) e,
      )

  -- Where the worker cannot be spawned, the record is returned and stored as failed.
  pub read_record-submit_job :
      (request : String) (s : State W) (e : Error) (w : W)
      → IsFaithful os
      → os.spawn (new_job_id os 50 s) s.world ≡ (err e, w)
      → ((submit_job os request s).0 ≡ ended os "failed" (submitted request s) w)
        × (read_record os (new_job_id os 50 s) (submit_job os request s).1
            ≡ some (ended os "failed" (submitted request s) w))
  unfolding submit_job write_record
  read_record-submit_job request s e w f spawn =
      let r = submitted request s in
      let before = write_record os r s in
      let failed = ended os "failed" r w in
      let after = write_record os failed (record before { world = w }) in
      let logged = record after { world = os.write_log r.log_path w } in
      let eq : submit_job os request s ≡ (failed, logged) =
        ap (λ ran. spawned os r ran.0 (record before { world = ran.1 })) spawn in
      (
        ap (λ p. p.0) eq,
        ap (λ p. read_record os r.id p.1) eq
            ∙ read_record-write_record os failed (record before { world = w }) f,
      )

  -- The status that an exit code stands for.
  abbrev pub final_status : Value → String
  final_status code = if is_zero code then "done" else "failed"

  abbrev pub final_record : Value → JobRecord Time → W → JobRecord Time
  final_record code r w = record (ended os (final_status code) r w) { exit_code = code }

  mark_finished-records :
      (job_id : String) (code : Value) (s : State W) (r : JobRecord Time)
      → IsFaithful os
      → read_record os job_id s ≡ some r
      → r.id ≡ job_id
      → read_record os job_id (mark_finished os job_id code s) ≡ some (final_record code r s.world)
  unfolding mark_finished
  mark_finished-records job_id code s r f h own =
      ap (λ o. read_record os job_id (finished os o code s)) h
      ∙ read_back os job_id (final_record code r s.world) s f own

  -- The exit code of a worker: 1 where the request crashed.
  abbrev pub exit_code_of : Result Value → Value
  exit_code_of (ok code) = code
  exit_code_of (err e) = num false 1 0

  worker_done-records :
      (one_shot : String → State W → Result Value × State W) (job_id : String) (ran : Result Value)
      (s : State W) (r : JobRecord Time)
      → IsFaithful os
      → read_record os job_id s ≡ some r
      → r.id ≡ job_id
      → ((worker_done os one_shot job_id ran s).0 ≡ exit_code_of ran)
        × (read_record os job_id (worker_done os one_shot job_id ran s).1
            ≡ some (final_record (exit_code_of ran) r s.world))
  worker_done-records one_shot job_id (ok code) s r f h own =
      (refl, mark_finished-records job_id code s r f h own)
  worker_done-records one_shot job_id (err e) s r f h own =
      (refl, mark_finished-records job_id (num false 1 0) s r f h own)

  -- A worker whose job is known and whose record is still readable after the request returns the
  -- exit code of the request, 1 where it crashed, and stores it in the record, with the status
  -- "done" exactly where the code is 0 and "failed" otherwise.
  pub worker-records :
      (one_shot : String → State W → Result Value × State W) (job_id : String) (s : State W)
      (r r_after : JobRecord Time) (s_found s_after : State W) (ran : Result Value)
      → IsFaithful os
      → get_job os job_id s ≡ (some r, s_found)
      → one_shot r.request s_found ≡ (ran, s_after)
      → read_record os job_id s_after ≡ some r_after
      → r_after.id ≡ job_id
      → ((worker os one_shot job_id s).0 ≡ exit_code_of ran)
        × (read_record os job_id (worker os one_shot job_id s).1
            ≡ some (final_record (exit_code_of ran) r_after s_after.world))
  unfolding worker
  worker-records one_shot job_id s r r_after s_found s_after ran f found shot h own =
      let done = worker_done-records one_shot job_id ran s_after r_after f h own in
      let e : worker os one_shot job_id s ≡ worker_done os one_shot job_id ran s_after =
        ap (λ p. worker_found os one_shot job_id p.0 p.1) found
        ∙ ap (λ p. worker_done os one_shot job_id p.0 p.1) shot in
      (ap (λ p. p.0) e ∙ done.0, ap (λ p. read_record os job_id p.1) e ∙ done.1)
