-- ===== src/BgJobs/Listing.antt =====
-- `get_job` and `list_jobs` of harness/bg_jobs.py: what is said of a job that is no longer alive,
-- and in which order the jobs are listed.
use mathlib.Core.Path.{subst}
use mathlib.Core.List.Permᴰ
use mathlib.Core.List.{Permᴰ}
use jaros_code.Prelude.{
  String, ◌≡◌, refl, ◌∙◌, true, false, not, ◌&&◌, Option, none, some, List, [], ◌∷◌, inl, inr,
  Bool-cases, All, map,
}
use jaros_code.BgJobs.{
  JobRecord, Os, State, pid_alive, is_running, ended, read_record, reconcile, reconciled, get_job,
  insert, newest_first, add_job, collect, list_jobs,
}
use jaros_code.BgJobs.Codec.{write_record-world}

module _ {Time W : Type 0} (os : Os Time W) where
  -- A record that says "running" has a live process.
  abbrev pub IsNoGhost : W → JobRecord Time → Type 0
  IsNoGhost w r = (is_running os r && not (pid_alive os r.pid w)) ≡ false

  abbrev pub OnJob : (JobRecord Time → Type 0) → Option (JobRecord Time) → Type 0
  OnJob P none = Unit
  OnJob P (some r) = P r

  reconcile-IsNoGhost : (r : JobRecord Time) (s : State W) → IsNoGhost s.world (reconcile os r s).0
  unfolding reconcile
  reconcile-IsNoGhost r s =
      elim (Bool-cases (is_running os r && not (pid_alive os r.pid s.world))) [
        | inl ghost ↦ rw ghost
        | inr fine ↦ rw fine fine
      ]

  reconcile-world : (r : JobRecord Time) (s : State W) → (reconcile os r s).1.world ≡ s.world
  unfolding reconcile
  reconcile-world r s = elim (Bool-cases (is_running os r && not (pid_alive os r.pid s.world))) [
    | inl ghost ↦ rw ghost (write_record-world os (ended os "failed" r s.world) s)
    | inr fine ↦ rw fine
  ]

  reconciled-IsNoGhost :
      (o : Option (JobRecord Time)) (s : State W)
      → OnJob (IsNoGhost s.world) (reconciled os o s).0 × ((reconciled os o s).1.world ≡ s.world)
  reconciled-IsNoGhost none s = (tt, refl)
  reconciled-IsNoGhost (some r) s = (reconcile-IsNoGhost r s, reconcile-world r s)

  -- Whatever the files hold, a job that `get_job` returns as running has a live process, and the
  -- lookup does not touch the outside world.
  pub get_job-IsNoGhost :
      (job_id : String) (s : State W)
      → OnJob (IsNoGhost s.world) (get_job os job_id s).0
        × ((get_job os job_id s).1.world ≡ s.world)
  unfolding get_job
  get_job-IsNoGhost job_id s = reconciled-IsNoGhost (read_record os job_id s) s

  All-add_job :
      (P : JobRecord Time → Type 0) (o : Option (JobRecord Time)) (rs : List (JobRecord Time))
      → OnJob P o
      → All P rs
      → All P (add_job os o rs)
  All-add_job P none rs h k = k
  All-add_job P (some r) rs h k = (h, k)

  collect-IsNoGhost :
      (ids : List String) (s : State W)
      → All (IsNoGhost s.world) (collect os ids s).0 × ((collect os ids s).1.world ≡ s.world)
  unfolding collect
  collect-IsNoGhost [] s = (tt, refl)
  collect-IsNoGhost (id ∷ ids) s =
      let first = get_job-IsNoGhost id s in
      let after = (get_job os id s).1 in
      let rest = collect-IsNoGhost ids after in
      (
        All-add_job (IsNoGhost s.world) (get_job os id s).0 (collect os ids after).0 first.0
            (subst (λ w. All (IsNoGhost w) (collect os ids after).0) first.1 rest.0),
        rest.1 ∙ first.1,
      )

  All-insert :
      (P : JobRecord Time → Type 0) (r : JobRecord Time) (rs : List (JobRecord Time))
      → P r
      → All P rs
      → All P (insert os r rs)
  unfolding insert
  All-insert P r [] h k = (h, tt)
  All-insert P r (q ∷ qs) h k = elim (Bool-cases (os.leq q.started_at r.started_at)) [
    | inl newer ↦ rw newer (h, k)
    | inr older ↦ rw older (k.0, All-insert P r qs h k.1)
  ]

  All-newest_first :
      (P : JobRecord Time → Type 0) (rs : List (JobRecord Time))
      → All P rs
      → All P (newest_first os rs)
  unfolding newest_first
  All-newest_first P [] h = tt
  All-newest_first P (r ∷ rs) h =
      All-insert P r (newest_first os rs) h.0 (All-newest_first P rs h.1)

  -- The head of a list started no later than a job.
  abbrev pub IsBelow : JobRecord Time → List (JobRecord Time) → Type 0
  IsBelow r [] = Unit
  IsBelow r (q ∷ qs) = os.leq q.started_at r.started_at ≡ true

  -- Each job started no later than the one in front of it.
  abbrev pub IsNewestFirst : List (JobRecord Time) → Type 0
  IsNewestFirst [] = Unit
  IsNewestFirst (r ∷ rs) = IsBelow r rs × IsNewestFirst rs

  abbrev pub IsTotal : Type 0
  IsTotal = (a b : Time) → os.leq a b ≡ false → os.leq b a ≡ true

  IsBelow-insert :
      (q r : JobRecord Time) (rs : List (JobRecord Time))
      → os.leq r.started_at q.started_at ≡ true
      → IsBelow q rs
      → IsBelow q (insert os r rs)
  unfolding insert
  IsBelow-insert q r [] h k = h
  IsBelow-insert q r (p ∷ ps) h k = elim (Bool-cases (os.leq p.started_at r.started_at)) [
    | inl newer ↦ rw newer h
    | inr older ↦ rw older k
  ]

  insert-IsNewestFirst :
      (r : JobRecord Time) (rs : List (JobRecord Time))
      → IsTotal
      → IsNewestFirst rs
      → IsNewestFirst (insert os r rs)
  unfolding insert
  insert-IsNewestFirst r [] total h = (tt, tt)
  insert-IsNewestFirst r (q ∷ qs) total h = elim (Bool-cases (os.leq q.started_at r.started_at)) [
    | inl newer ↦ rw newer (newer, h)
    | inr older ↦ rw older (
      IsBelow-insert q r qs (total q.started_at r.started_at older) h.0,
      insert-IsNewestFirst r qs total h.1,
    )
  ]

  newest_first-IsNewestFirst :
      (rs : List (JobRecord Time)) → IsTotal → IsNewestFirst (newest_first os rs)
  unfolding newest_first
  newest_first-IsNewestFirst [] total = tt
  newest_first-IsNewestFirst (r ∷ rs) total =
      insert-IsNewestFirst r (newest_first os rs) total (newest_first-IsNewestFirst rs total)

  insert-Permᴰ : (r : JobRecord Time) (rs : List (JobRecord Time)) → Permᴰ (insert os r rs) (r ∷ rs)
  unfolding insert
  insert-Permᴰ r [] = Permᴰ.refl (r ∷ [])
  insert-Permᴰ r (q ∷ qs) = elim (Bool-cases (os.leq q.started_at r.started_at)) [
    | inl newer ↦ rw newer (Permᴰ.refl (r ∷ q ∷ qs))
    | inr older ↦
        rw older (Permᴰ.trans (Permᴰ.cons refl (insert-Permᴰ r qs)) (Permᴰ.swap refl refl))
  ]

  newest_first-Permᴰ : (rs : List (JobRecord Time)) → Permᴰ (newest_first os rs) rs
  unfolding newest_first
  newest_first-Permᴰ [] = Permᴰ.refl []
  newest_first-Permᴰ (r ∷ rs) =
      Permᴰ.trans (insert-Permᴰ r (newest_first os rs)) (Permᴰ.cons refl (newest_first-Permᴰ rs))

  -- The ids of the files, in the order of the directory.
  abbrev pub job_ids : State W → List String
  job_ids s = map (λ file. file.0) s.files

  -- Where `started_at` is totally ordered: whatever the files hold, every job that is listed as
  -- running has a live process, each job started no later than the one in front of it, the listed
  -- jobs are those that the loop over the files collects, and the outside world is not touched.
  pub list_jobs-IsNewestFirst :
      (s : State W)
      → IsTotal
      → All (IsNoGhost s.world) (list_jobs os s).0
        × IsNewestFirst (list_jobs os s).0
        × Permᴰ (list_jobs os s).0 (collect os (job_ids s) s).0
        × ((list_jobs os s).1.world ≡ s.world)
  unfolding list_jobs
  list_jobs-IsNewestFirst s total =
      let found = (collect os (job_ids s) s).0 in
      let collected = collect-IsNoGhost (job_ids s) s in
      (
        All-newest_first (IsNoGhost s.world) found collected.0,
        newest_first-IsNewestFirst found total,
        newest_first-Permᴰ found,
        collected.1,
      )
