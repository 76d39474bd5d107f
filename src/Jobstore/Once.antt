-- ===== src/Jobstore/Once.antt =====
-- The callers of `complete_chunk` in a history that completes every chunk of a job.
use mathlib.Core.Path.{subst}
use markitdown_server.Prelude.{
  zero, suc, ◌+◌, ◌≤◌, ◌≡◌, ap, inl, inr, Bool, Option, none, some, [], ◌∷◌, arith, if◌then◌else◌,
  count_if, Option-cases, Text,
}
use markitdown_server.Prelude.Int.{pos}
use markitdown_server.Tables.{Job, Database, is_open}
use markitdown_server.Jobstore.{get_job}
use markitdown_server.Jobstore.History.{commit, History, run, assembles, assemblies}
use markitdown_server.Jobstore.Invariant.{WellFormed, counter}
use markitdown_server.Jobstore.WellFormed.{commit-WellFormed}
use markitdown_server.Jobstore.Assembler.{positive, chances}
use markitdown_server.Jobstore.Counter.{
  AllCareful, run-WellFormed, IsActive, AllQuiet, CountsDown, commit-CountsDown,
}

CountsDown-chances :
    (o o' : Option Job) (b : Bool)
    → CountsDown o o' b
    → ((if b then 1 else 0) + chances o' ≡ chances o) × IsActive o'
CountsDown-chances none none b h = absurd h
CountsDown-chances none (some j') b h = absurd h
CountsDown-chances (some j) none b h = absurd h
CountsDown-chances (some j) (some j') b (active, inl (same, silent)) =
    (rw (same, silent) (omega arith), active)
CountsDown-chances (some j) (some j') b (active, inr (zero, before, after, told)) =
    (rw (before, after, told) (omega arith), active)
CountsDown-chances (some j) (some j') b (active, inr (suc n, before, after, told)) =
    (ground arith, active)

run-chances :
    (job : Text) (h : History) (db : Database)
    → WellFormed db
    → AllCareful h db
    → AllQuiet job h
    → IsActive (get_job job db)
    → (assemblies job h db + chances (get_job job (run h db)) ≡ chances (get_job job db))
      × IsActive (get_job job (run h db))
unfolding assemblies run
run-chances job [] db w careful quiet active = (omega arith, active)
run-chances job ((c, now) ∷ h) db w careful quiet active =
    let step =
      CountsDown-chances (get_job job db) (get_job job (commit c now db)) (assembles job c now db)
        (commit-CountsDown job now db w active c quiet.0) in
    let rest =
      run-chances job h (commit c now db) (commit-WellFormed c now db w careful.0) careful.1 quiet.1
        step.1 in
    (omega (arith, step.0, rest.0), rest.1)

chances-open :
    (job : Text) (db : Database)
    → WellFormed db
    → IsActive (get_job job db)
    → chances (get_job job db) ≡ positive (pos (count_if (is_open job) db.chunks))
chances-open job db w active = elim (Option-cases (get_job job db)) [
  | inl absent ↦ absurd (subst IsActive absent active)
  | inr (j, found) ↦ rw found (ap positive (counter db job j w found (subst IsActive found active)))
]

-- Exactly once: take well-formed tables with an active job that has a chunk to be done, and any history of calls, repeated
-- completions, retries and other jobs among them, that does not fail or finish this job and marks no done chunk
-- failed. If at its end all chunks of the job are done, then exactly one call of `complete_chunk` returned 0.
pub assemblies-eq-one :
    (job : Text) (h : History) (db : Database)
    → WellFormed db
    → AllCareful h db
    → AllQuiet job h
    → IsActive (get_job job db)
    → 1 ≤ count_if (is_open job) db.chunks
    → count_if (is_open job) (run h db).chunks ≡ 0
    → assemblies job h db ≡ 1
assemblies-eq-one job h db w careful quiet active some_open none_open =
    let (spent, still) = run-chances job h db w careful quiet active in
    let start : chances (get_job job db) ≡ positive (pos (count_if (is_open job) db.chunks)) =
      chances-open job db w active in
    let end : chances (get_job job (run h db))
        ≡ positive (pos (count_if (is_open job) (run h db).chunks)) =
      chances-open job (run h db) (run-WellFormed h db w careful) still in
    ground (arith, spent, start, end)
