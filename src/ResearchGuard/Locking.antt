-- ===== src/ResearchGuard/Locking.antt =====
-- What a program under `eval_lock` does, for any code made of checks of the lock, exceptions, sequences
-- and scopes.
use mathlib.Core.Int.{ℤ, pos, negsuc, suc_ℤ, pred_ℤ}
use mathlib.Core.Nat
use jaros_code.Prelude.{
  String, ◌≡◌, refl, ap, ◌∙◌, Bool, true, false, not, ◌||◌, List, [], ◌∷◌, ◌++◌, append-nil,
  append_assoc, sym,
}
use jaros_code.Exec.{Exec, Result, ok, err, Error, runtime_error, continue, ◌>>◌}
use jaros_code.ResearchGuard.{EnvRead, env_signals_eval_active, research_allowed, eval_lock}

-- A program: a check asks whether research is allowed, `fail` raises, and a scope is a
-- `with eval_lock():` block.
pub data Program : Type 0 where
  check fail : Program
  scope : Program → Program
  both : Program → Program → Program

abbrev pub boom : Error
boom = runtime_error "boom"

abbrev pub is_open : Nat.ℕ → Bool
is_open Nat.zero = false
is_open (Nat.suc n) = true

module _ (lower : String → String) where
  allowed-at :
      (n : Nat.ℕ) (env : EnvRead)
      → research_allowed lower (pos n) env ≡ not (is_open n || env_signals_eval_active lower env)
  unfolding research_allowed
  allowed-at Nat.zero env = refl
  allowed-at (Nat.suc n) env = refl

  -- The state holds the counter and the answers of the checks so far.
  abbrev pub ask : EnvRead → Exec (ℤ × List Bool) (Unit {0})
  ask env (c, log) = (ok tt, (c, log ++ research_allowed lower c env ∷ []))

  unfoldable pub run_program : EnvRead → Program → Exec (ℤ × List Bool) (Unit {0})
  run_program env check = ask env
  run_program env fail = λ s. (err boom, s)
  run_program env (scope p) = eval_lock (run_program env p)
  run_program env (both p q) = run_program env p >> run_program env q

  -- What is said of a program where n scopes are open around it: the answers of the checks it comes
  -- to, and whether it raises.
  abbrev pub one_then :
      Result (Unit {0}) → List Bool → Result (Unit {0}) × List Bool → Result (Unit {0}) × List Bool
  one_then (ok done) first rest = (rest.0, first ++ rest.1)
  one_then (err e) first rest = (err e, first)

  abbrev pub outcome : EnvRead → Nat.ℕ → Program → Result (Unit {0}) × List Bool
  outcome env n check = (ok tt, not (is_open n || env_signals_eval_active lower env) ∷ [])
  outcome env n fail = (err boom, [])
  outcome env n (scope p) = outcome env (Nat.suc n) p
  outcome env n (both p q) =
      let first = outcome env n p in one_then first.0 first.1 (outcome env n q)

  abbrev after :
      Nat.ℕ → List Bool → Result (Unit {0}) × List Bool → Result (Unit {0}) × (ℤ × List Bool)
  after n log said = (said.0, (pos n, log ++ said.1))

  then-after :
      (n : Nat.ℕ) (log : List Bool) (first : Result (Unit {0}) × List Bool)
      (rest : Exec (ℤ × List Bool) (Unit {0})) (second : Result (Unit {0}) × List Bool)
      → ((more : List Bool) → rest (pos n, more) ≡ after n more second)
      → continue first.0 (λ _. rest) (pos n, log ++ first.1)
        ≡ after n log (one_then first.0 first.1 second)
  then-after n log (ok done, answers) rest second h =
      h (log ++ answers) ∙ ap (λ l. (second.0, (pos n, l))) (append_assoc log answers second.1)
  then-after n log (err e, answers) rest second h = refl

  -- Where n scopes are open, a program of checks, exceptions, sequences and nested scopes leaves the
  -- counter as it finds it, also where it raises; and each check that it comes to, one after an
  -- exception excepted, is answered: research is allowed exactly where neither one of the n nor a
  -- scope of the program is open around the check and the environment signals no evaluation.
  pub run_program-outcome :
      (env : EnvRead) (p : Program) (n : Nat.ℕ) (log : List Bool)
      → run_program env p (pos n, log) ≡ ((outcome env n p).0, (pos n, log ++ (outcome env n p).1))
  unfolding run_program eval_lock
  run_program-outcome env check n log = ap (λ b. (ok tt, (pos n, log ++ b ∷ []))) (allowed-at n env)
  run_program-outcome env fail n log = ap (λ l. (err boom, (pos n, l))) (sym (append-nil log))
  run_program-outcome env (scope p) n log =
      ap (λ r. (r.0, (pred_ℤ r.1.0, r.1.1))) (run_program-outcome env p (Nat.suc n) log)
  run_program-outcome env (both p q) n log =
      ap (λ (r : Result (Unit {0}) × (ℤ × List Bool)). continue r.0 (λ _. run_program env q) r.1)
        (run_program-outcome env p n log)
      ∙ then-after n log (outcome env n p) (run_program env q) (outcome env n q)
          (λ more. run_program-outcome env q n more)

-- Counting up and then down again is no change, below zero too.
pred-suc : (c : ℤ) → pred_ℤ (suc_ℤ c) ≡ c
pred-suc (pos n) = refl
pred-suc (negsuc Nat.zero) = refl
pred-suc (negsuc (Nat.suc n)) = refl

-- A body that leaves the counter as it finds it.
abbrev pub Balanced : {S A : Type 0} → Exec (ℤ × S) A → Type 0
Balanced {S} body = (c : ℤ) (s : S) → (body (c, s)).1.0 ≡ c

-- A scope leaves the counter as it finds it, and ends with what its body ends with, an error too,
-- where the body does so; so scopes may stand in one another to any depth.
pub eval_lock-Balanced :
    {S A : Type 0} (body : Exec (ℤ × S) A)
    → Balanced body
    → Balanced (eval_lock body)
      × ((c : ℤ) (s : S) → (eval_lock body (c, s)).0 ≡ (body (suc_ℤ c, s)).0)
unfolding eval_lock
eval_lock-Balanced body balanced =
    (λ c s. ap pred_ℤ (balanced (suc_ℤ c) s) ∙ pred-suc c, λ c s. refl)
