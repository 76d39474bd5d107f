-- ===== src/Worker/Failures.antt =====
-- worker.py's `_handle_failure` when all its calls pass.
use markitdown_server.Prelude.{
  ℕ, ◌+◌, ◌≤◌, ◌≡◌, refl, ◌∙◌, true, false, Option, some, [], ◌∷◌, ◌++◌, leb, Text, arith,
}
use markitdown_server.Storage.{Codec}
use markitdown_server.Taskqueue.{TaskCodec, ChunkTask, publish_retry, publish_failed}
use markitdown_server.Tables.{Job, JobStatus, Database, is_terminal, of_job}
use markitdown_server.Jobstore.{get_job, fail_chunk, reschedule_chunk, fail_job, set_failed}
use markitdown_server.Jobstore.Laws.{get_job-of_job}
use markitdown_server.Jobstore.Outcomes.{get_job-fail_job}
use markitdown_server.Action.{World, Error, returned}
use markitdown_server.Worker.{Config, Tools, handle_failure, given_up, describe}
use markitdown_server.Worker.Passing.{Passing, call-returned, bind-returned, publish_messages-sent}

get_job-fail_chunk :
    (id other : Text) (index : ℕ) (error : Text) (now : ℕ) (db : Database)
    → get_job id (fail_chunk other index error now db) ≡ get_job id db
get_job-fail_chunk id other index error now db = unfold get_job fail_chunk in refl

get_job-reschedule_chunk :
    (id other : Text) (index : ℕ) (error : Text) (now : ℕ) (db : Database)
    → get_job id (reschedule_chunk other index error now db) ≡ get_job id db
get_job-reschedule_chunk id other index error now db = unfold get_job reschedule_chunk in refl

get_job-failed :
    (id error : Text) (index : Option ℕ) (now : ℕ) (db : Database) (j : Job)
    → get_job id db ≡ some j
    → is_terminal j.status ≡ false
    → get_job id (fail_job id error index now db) ≡ some (set_failed error index now j)
get_job-failed id error index now db j found active =
    let mine : of_job id j ≡ true = get_job-of_job id db j found in
    rw (get_job-fail_job, found) (ground arith)

module _ (config : Config) (codec : Codec) (tasks : TaskCodec) (tools : Tools) (task : ChunkTask)
    (e : Error) (w : World) (fine : Passing w) where
  failed_calls :
      leb config.broker.max_attempts task.attempt ≡ true
      → (t t' n : ℕ) × (handle_failure config codec tasks tools task e w ≡ (
        returned tt,
        record w {
          db =
              fail_job task.job_id
                (given_up task e)
                (some task.chunk_index)
                t
                (fail_chunk task.job_id task.chunk_index (describe e) t' w.db);
          published = w.published ++ publish_failed config.broker tasks task (describe e) ∷ [];
          calls = n;
        },
      ))
  unfolding handle_failure
  failed_calls last =
      let (n, sent) =
        publish_messages-sent tools.is_amqp_error
          (publish_failed config.broker tasks task (describe e) ∷ []) w fine in
      (
        (w.schedule (n + 1)).now,
        (w.schedule n).now,
        n + 1 + 1,
        rw (last, handle_failure)
            (bind-returned _ _ sent
              ∙ bind-returned _ _ (call-returned _ _ fine)
              ∙ call-returned _ _ fine),
      )

  retried_calls :
      leb config.broker.max_attempts task.attempt ≡ false
      → (t n : ℕ) × (handle_failure config codec tasks tools task e w ≡ (
        returned tt,
        record w {
          db = reschedule_chunk task.job_id task.chunk_index (describe e) t w.db;
          published = w.published ++ publish_retry config.broker tasks task ∷ [];
          calls = n;
        },
      ))
  unfolding handle_failure
  retried_calls more =
      let after = record w {
        db =
            reschedule_chunk task.job_id task.chunk_index (describe e) (w.schedule w.calls).now
              w.db;
        calls = w.calls + 1;
      } in
      let (n, sent) =
        publish_messages-sent tools.is_amqp_error (publish_retry config.broker tasks task ∷ [])
          after fine in
      (
        (w.schedule w.calls).now,
        n,
        rw (more, handle_failure) (bind-returned _ _ (call-returned _ w fine) ∙ sent),
      )

  -- While attempts are left and all calls pass, a failure publishes exactly the next attempt and leaves the row of every job
  -- as it is.
  pub handle_failure-retries :
      (id : Text)
      → task.attempt + 1 ≤ config.broker.max_attempts
      → let after = handle_failure config codec tasks tools task e w in
        (after.0 ≡ returned tt)
        × (after.1.published ≡ w.published ++ publish_retry config.broker tasks task ∷ [])
        × (get_job id after.1.db ≡ get_job id w.db)
  handle_failure-retries id le =
      let (t, n, same) = retried_calls (ground arith) in
      rw same
        (refl, refl, get_job-reschedule_chunk id task.job_id task.chunk_index (describe e) t w.db)

  -- At the last attempt, when all calls pass, a failure publishes exactly the failed task and fails its job, if that is active,
  -- with the index of the chunk.
  pub handle_failure-gives_up :
      (j : Job)
      → config.broker.max_attempts ≤ task.attempt
      → get_job task.job_id w.db ≡ some j
      → is_terminal j.status ≡ false
      → let after = handle_failure config codec tasks tools task e w in
        (after.0 ≡ returned tt)
        × (after.1.published
            ≡ w.published ++ publish_failed config.broker tasks task (describe e) ∷ [])
        × (j' : Job) × (get_job task.job_id after.1.db ≡ some j')
        × (j'.status ≡ JobStatus.failed)
        × (j'.error_chunk ≡ some task.chunk_index)
  handle_failure-gives_up j le found active =
      let (t, t', n, same) = failed_calls (ground arith) in
      let before =
        get_job-fail_chunk task.job_id task.job_id task.chunk_index (describe e) t' w.db in
      rw same (
        refl,
        refl,
        set_failed (given_up task e) (some task.chunk_index) t j,
        get_job-failed task.job_id (given_up task e) (some task.chunk_index) t
            (fail_chunk task.job_id task.chunk_index (describe e) t' w.db) j (before ∙ found)
            active,
        refl,
        refl,
      )
