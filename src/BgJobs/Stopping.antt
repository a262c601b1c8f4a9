-- ===== src/BgJobs/Stopping.antt =====
-- `submit_job`, `stop_job` and `mark_finished` of harness/bg_jobs.py: the life of one job.
use jaros_code.Prelude.{
  String, ◌≡◌, refl, ap, sym, ◌∙◌, true, false, not, ◌&&◌, Option, some, arith, if◌then◌else◌,
}
use jaros_code.Text.{◌<>◌}
use jaros_code.Value.{Value, truthy}
use jaros_code.BgJobs.{
  JobRecord, Os, State, StopReply, pid_alive, is_running, ended, read_record, write_record,
  reconcile, reconciled, get_job, stop_found, refusal, stop_job,
}
use jaros_code.BgJobs.Codec.{IsFaithful, read_record-write_record}

module _ {Time W : Type 0} (os : Os Time W) where
  get_job-eq :
      (job_id : String) (s : State W) (r : JobRecord Time)
      → read_record os job_id s ≡ some r
      → get_job os job_id s ≡ reconciled os (some r) s
  unfolding get_job
  get_job-eq job_id s r h = ap (λ o. reconciled os o s) h

  reconcile-kept :
      (r : JobRecord Time) (s : State W)
      → (is_running os r && not (pid_alive os r.pid s.world)) ≡ false
      → reconcile os r s ≡ (r, s)
  unfolding reconcile
  reconcile-kept r s h = rw h

  reconcile-ghost :
      (r : JobRecord Time) (s : State W)
      → (is_running os r && not (pid_alive os r.pid s.world)) ≡ true
      → reconcile os r s
        ≡ (ended os "failed" r s.world, write_record os (ended os "failed" r s.world) s)
  unfolding reconcile
  reconcile-ghost r s h = rw h

  pub get_job-kept :
      (job_id : String) (s : State W) (r : JobRecord Time)
      → read_record os job_id s ≡ some r
      → (is_running os r && not (pid_alive os r.pid s.world)) ≡ false
      → get_job os job_id s ≡ (some r, s)
  get_job-kept job_id s r h fine =
      get_job-eq job_id s r h ∙ ap (λ p. (some p.0, p.1)) (reconcile-kept r s fine)

  pub read_back :
      (job_id : String) (r : JobRecord Time) (s : State W)
      → IsFaithful os
      → r.id ≡ job_id
      → read_record os job_id (write_record os r s) ≡ some r
  read_back job_id r s f own =
      ap (λ i. read_record os i (write_record os r s)) (sym own) ∙ read_record-write_record os r s f

  stop_job-eq :
      (job_id : String) (s after : State W) (o : Option (JobRecord Time))
      → get_job os job_id s ≡ (o, after)
      → stop_job os job_id s ≡ stop_found os job_id o after
  unfolding stop_job
  stop_job-eq job_id s after o h = ap (λ p. stop_found os job_id p.0 p.1) h

  live_pid :
      (pid : Value) (w : W)
      → pid_alive os pid w ≡ true
      → (if truthy pid then os.kill pid w else w) ≡ os.kill pid w
  live_pid pid w live = ground arith

  -- A running job with a live process is stopped: its recorded process is killed and no other
  -- change is made to the outside world, the reply has the job with the status "stopped", the end
  -- from the clock and the rest as it was, and later lookups return that record and change nothing.
  pub get_job-stop_job :
      (job_id : String) (s : State W) (r : JobRecord Time)
      → IsFaithful os
      → read_record os job_id s ≡ some r
      → r.id ≡ job_id
      → is_running os r ≡ true
      → pid_alive os r.pid s.world ≡ true
      → ((stop_job os job_id s).1.world ≡ os.kill r.pid s.world)
        × ((stop_job os job_id s).0.job ≡ some (ended os "stopped" r (os.kill r.pid s.world)))
        × (get_job os job_id (stop_job os job_id s).1
            ≡ (some (ended os "stopped" r (os.kill r.pid s.world)), (stop_job os job_id s).1))
  unfolding write_record
  get_job-stop_job job_id s r f h own running live =
      let killed = os.kill r.pid s.world in
      let stopped = ended os "stopped" r killed in
      let kept = get_job-kept job_id s r h (rw (running, live)) in
      let reply : StopReply Time = record {
        accepted = true;
        message = "job " <> job_id <> " stopped";
        job = some stopped;
      } in
      let after = write_record os stopped (record s { world = killed }) in
      let e : stop_job os job_id s ≡ (reply, after) =
        stop_job-eq job_id s s (some r) kept ∙ rw (running, live_pid r.pid s.world live) in
      let found = read_back job_id stopped (record s { world = killed }) f own in
      (
        ap (λ p. p.1.world) e,
        ap (λ p. p.0.job) e,
        ap (λ p. get_job os job_id p.1) e
            ∙ get_job-kept job_id after stopped found refl
            ∙ ap (λ p. (some stopped, p.1)) (sym e),
      )

  -- A known job that is not running is refused: no process is killed, no file is written, and the
  -- reply has the record as it is.
  pub stop_job-refuses :
      (job_id : String) (s : State W) (r : JobRecord Time)
      → read_record os job_id s ≡ some r
      → is_running os r ≡ false
      → ((stop_job os job_id s).0.accepted ≡ false)
        × ((stop_job os job_id s).0.job ≡ some r)
        × ((stop_job os job_id s).1 ≡ s)
  stop_job-refuses job_id s r h done =
      let e = stop_job-eq job_id s s (some r) (get_job-kept job_id s r h (rw done)) in
      let message = "job " <> job_id <> " is not running (status=" <> r.status <> ")" in
      let refused : stop_job os job_id s ≡ (refusal os message (some r), s) = e ∙ rw done in
      (ap (λ p. p.0.accepted) refused, ap (λ p. p.0.job) refused, ap (λ p. p.1) refused)

  -- A running job whose process is gone is refused and recorded as failed; nothing is killed.
  pub stop_job-ghost :
      (job_id : String) (s : State W) (r : JobRecord Time)
      → IsFaithful os
      → read_record os job_id s ≡ some r
      → r.id ≡ job_id
      → is_running os r ≡ true
      → pid_alive os r.pid s.world ≡ false
      → ((stop_job os job_id s).0.accepted ≡ false)
        × ((stop_job os job_id s).1.world ≡ s.world)
        × (read_record os job_id (stop_job os job_id s).1 ≡ some (ended os "failed" r s.world))
  unfolding write_record
  stop_job-ghost job_id s r f h own running gone =
      let failed = ended os "failed" r s.world in
      let after = write_record os failed s in
      let found : get_job os job_id s ≡ (some failed, after) =
        get_job-eq job_id s r h
        ∙ ap (λ p. (some p.0, p.1)) (reconcile-ghost r s (rw (running, gone))) in
      let e = stop_job-eq job_id s after (some failed) found in
      (
        ap (λ p. p.0.accepted) e,
        ap (λ p. p.1.world) e,
        ap (λ p. read_record os job_id p.1) e ∙ read_back job_id failed s f own,
      )
