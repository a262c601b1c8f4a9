-- ===== src/Oracles/Reports.antt =====
-- What the checks see of a driver's reports: each check reads the report of its own call.
use jaros_code.Prelude.{
  String, ◌≡◌, refl, ◌∙◌, Bool, true, false, Option, none, some, List, [], ◌∷◌, arith, All,
}
use jaros_code.Oracles.Driver.{
  CallId, id_eq, ApiCall, Outcome, returned, raised, Report, Running, Invoke, call, drive, reported,
  results, raised_by, Check, returns_equals, raises, check_id, eval_check, eval_checks,
}
use jaros_code.Oracles.Rounds.{reads_as, raises_as}

-- No call of a list, and no check of a list, has an id.
abbrev pub IsClear : CallId → List ApiCall → Type 0
IsClear k cs = All (λ c. id_eq c.id k ≡ false) cs

abbrev pub Elsewhere : {E : Type 0} → CallId → List (Check E) → Type 0
Elsewhere k cs = All (λ c. id_eq k (check_id c) ≡ false) cs

module _ {V : Type 0} (k : CallId) where
  results-reported :
      (j : CallId) (o : Option (Outcome V)) (rs : List (Report V))
      → id_eq j k ≡ false
      → (results (reported j o rs) k ≡ results rs k)
        × (raised_by (reported j o rs) k ≡ raised_by rs k)
  unfolding results raised_by
  results-reported j none rs h = (refl, refl)
  results-reported j (some (returned v)) rs h = rw h (ground arith, ground arith)
  results-reported j (some (raised e)) rs h = rw h (ground arith, ground arith)

  pub results-drive :
      {M : Type 0} (invoke : Invoke V M) (cs : List ApiCall) (m : Running M)
      → IsClear k cs
      → (results (drive invoke cs m) k ≡ none) × (raised_by (drive invoke cs m) k ≡ none)
  unfolding drive results raised_by
  results-drive invoke [] m h = (refl, refl)
  results-drive invoke (c ∷ cs) m h =
      let ran = call invoke c.target c.args c.kwargs m in
      let skip = results-reported c.id ran.0 (drive invoke cs ran.1) h.0 in
      let rest = results-drive invoke cs ran.1 h.1 in (skip.0 ∙ rest.0, skip.1 ∙ rest.1)

module _ {V E : Type 0} (equal : V → E → Bool) where
  -- A check reads none of the other reports.
  eval_check-reported :
      (k : CallId) (o : Option (Outcome V)) (rs : List (Report V)) (c : Check E)
      → id_eq k (check_id c) ≡ false
      → eval_check equal (reported k o rs) c ≡ eval_check equal rs c
  unfolding eval_check
  eval_check-reported k o rs (returns_equals j e) h =
      let skip = results-reported j k o rs h in rw (skip.0, skip.1) refl
  eval_check-reported k o rs (raises j e) h =
      let skip = results-reported j k o rs h in rw (skip.0, skip.1) refl

  pub eval_checks-reported :
      (k : CallId) (o : Option (Outcome V)) (rs : List (Report V)) (cs : List (Check E))
      → Elsewhere k cs
      → eval_checks equal (reported k o rs) cs ≡ eval_checks equal rs cs
  unfolding eval_checks
  eval_checks-reported k o rs [] h = refl
  eval_checks-reported k o rs (c ∷ cs) h =
      rw (eval_check-reported k o rs c h.0, eval_checks-reported k o rs cs h.1) refl

  -- A check on a call's own report.
  pub eval_check-returns :
      (k : CallId) (o : Option (Outcome V)) (rs : List (Report V)) (e : E)
      → id_eq k k ≡ true
      → results rs k ≡ none
      → raised_by rs k ≡ none
      → eval_check equal (reported k o rs) (returns_equals k e) ≡ reads_as equal e o
  unfolding eval_check results raised_by
  eval_check-returns k none rs e h r x = rw (r, x) refl
  eval_check-returns k (some (returned v)) rs e h r x = rw (r, x, h) refl
  eval_check-returns k (some (raised n)) rs e h r x = rw (r, x, h) refl

  pub eval_check-raises :
      (k : CallId) (o : Option (Outcome V)) (rs : List (Report V)) (n : String)
      → id_eq k k ≡ true
      → results rs k ≡ none
      → raised_by rs k ≡ none
      → eval_check equal (reported k o rs) (raises k n) ≡ raises_as (some n) o
  unfolding eval_check results raised_by
  eval_check-raises k none rs n h r x = rw (r, x) refl
  eval_check-raises k (some (returned v)) rs n h r x = rw (r, x, h) refl
  eval_check-raises k (some (raised e)) rs n h r x = rw (r, x, h) refl
