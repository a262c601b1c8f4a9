-- ===== src/Lib.antt =====
-- jaros-code: a terminal coding agent whose decisions come from small local models and whose side
-- effects all pass through one deterministic runtime.
--
-- The development follows the harness's Python code, one module for each part of it:
--
-- - Permissions: harness/permissions.py. `parse_rule_item`, `load_permission_rules`, `decide`,
--   `resolve_decision_arg` and the mode tables carry the names of the source's functions.
-- - Hooks: harness/hooks.py, `parse_hook_item`, `load_hooks`, `fire_event`, `blocking_reason`.
-- - CheckpointRing: harness/checkpoint_ring.py, the bounded ring of per-edit checkpoints.
-- - Runtime: the class `Runtime` of harness/coding_loop.py. `apply` is its method of that name, cut
--   into the steps that its comments mark: `stamp`, `pre_hooks`, `check_gate`, `check_allowlist`,
--   `check_permissions`, `execute`, `post_hooks`. It calls Permissions, Hooks and CheckpointRing.
-- - Rewind: `cmd_rewind` and `_write_runtime` of harness/cli.py, a client of Runtime and of the
--   ring.
-- - JsonLines, TaskStore, ExperimentStore: harness/task_store.py and harness/experiment_store.py,
--   two stores of records in a file of JSON lines. What both do with the file is in JsonLines.
-- - BgJobs: harness/bg_jobs.py and `main` of harness/bg_worker.py, the records of background jobs.
-- - Routing: harness/model_registry.py, harness/model_router.py, harness/model_rewire.py and
--   harness/solve_routed.py, from the class of a problem to the escalation over models. It calls
--   Tally.
-- - Adt: the reference models of harness/adt_oracle.py, the comparison of what a built program
--   prints with them, and the classification of a specification.
-- - GraphDsl: harness/graph_dsl.py, `validate_dsl`, `leaf_for_spec`, `dsl_to_system`, and the leaf
--   programs TTL_STORE_LEAF (TtlLeaf) and JSON_PATH_LEAF (JsonPathLeaf). It calls Adt's `classify`,
--   and the TTL leaf is driven by Adt's command lines.
-- - Solving: harness/agent_loop.py (AgentLoop) and harness/repair_solve.py (Repair), the loop that
--   plans and replans, and the loop of repairs.
-- - ResearchGuard: harness/research_guard.py, the lock of an evaluation and `wrap_untrusted`.
-- - Oracles: harness/import_driver.py (Driver), harness/state_machine_oracle.py (StateMachine),
--   harness/conservation_oracle.py (Conservation) and harness/double_entry_oracle.py (DoubleEntry),
--   which grade a built module by a script of calls and checks. Rounds and Balances hold what their
--   plans share.
-- - Skills: harness/skills.py, the skills of a project and of the user and their merge.
-- - Sessions: `Session.recent`, `condense` and `compact_session` of harness/session.py.
-- - Tally: the rankings of `CoverageTally` in harness/model_tally.py.
--
-- Shared modules: Prelude (tests, lists), Text (`str.strip`, `in`), Value (JSON values and dicts),
-- Dict (dicts in insertion order), Exec (methods that change state and may raise), Lines (a text and
-- its lines), Words (`str.split()`).
--
-- Parameters stand for code that is not in the repository, or not modelled: the Jaros gate and
-- executor, file reads, the prompt, `fnmatch`, `json.loads`, `str` and `repr`, fresh ids and the
-- clock (`Host` of Runtime/Base, `Os` of BgJobs, `Json` of JsonLines, `Clerk` of Routing/Rewire,
-- `Solver` of Routing/Escalation, `Invoke` of Oracles/Driver, and arguments elsewhere). The
-- outside world is a type parameter `W` that only these read and change. A prompt reads the world
-- and does not change it. What a write of a file leaves is an argument too: `WriteOutcome` of
-- JsonLines, `after_write` of BgJobs. The theorems on what is read back take writes that succeed,
-- and a `json.loads` that gives back what `json.dumps` was given.
--
-- Arguments are also the planner and the tools of `agent_loop`, the generator and the test of
-- `repair_solve`, `str.lower`, the regular expressions, and Python's `int`, `==` and `json.dumps`,
-- and the files of a directory in Skills.
-- The clock of the TTL leaf is in whole seconds, without the rounding of floats.
--
-- The rounds of `agent_loop` and the repairs of `repair_solve` are bounded by the source's own
-- `max_steps` and `max_retries`. The one other fuel is `new_job_id`'s, the 50 attempts of the
-- source, with the source's last resort.
--
-- Scores of the tally are compared by a parameter, and confidences are in hundredths.
--
-- Not modelled: language-model calls, the rendering of text (diagnostics and rationales), the
-- system builder's rewriting of Python source, the signature of a graph and its other leaf programs,
-- the egress policy of a research, the launch of generated programs and the seeded choice of
-- operations in the oracles, and the evaluation suites.
pub mod Prelude
pub mod Text
pub mod Value
pub mod Dict
pub mod Lines
pub mod Words
pub mod Skills
pub mod GraphDsl
pub mod Oracles
pub mod Permissions
pub mod CheckpointRing
pub mod Exec
pub mod ExperimentStore
pub mod Hooks
pub mod Runtime
pub mod Rewind
pub mod JsonLines
pub mod TaskStore
pub mod BgJobs
pub mod Tally
pub mod Adt
pub mod Routing
pub mod Solving
pub mod ResearchGuard
pub mod Sessions
