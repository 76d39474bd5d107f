-- ===== src/Worker/Rescuing.antt =====
-- worker.py's `handle` of a chunk whose conversion raises, when all calls pass.
use markitdown_server.Prelude.{◌+◌, ◌≤◌, ◌≡◌, refl, ap, ◌∙◌, inr, false, some, [], ◌∷◌, ◌++◌, arith}
use markitdown_server.Storage.{Bytes, Codec}
use markitdown_server.Taskqueue.{TaskCodec, ChunkTask, publish_retry, publish_failed}
use markitdown_server.Tables.{Job, JobStatus, is_terminal}
use markitdown_server.Jobstore.{get_job}
use markitdown_server.Jobstore.Completing.{started, running, get_job-started}
use markitdown_server.Action.{World, Error, returned}
use markitdown_server.Worker.{Config, Tools, handle_failure, handle, describe}
use markitdown_server.Worker.Passing.{Passing}
use markitdown_server.Worker.Converting.{HasSource, conversion}
use markitdown_server.Worker.Recording.{handle-rescues}
use markitdown_server.Worker.Failures.{handle_failure-retries, handle_failure-gives_up}

module _ (config : Config) (codec : Codec) (tasks : TaskCodec) (tools : Tools) (content : Bytes)
    (task : ChunkTask) (w : World) (fine : Passing w)
    (source : HasSource config task.file_hash content w) (j : Job) (e : Error)
    (found : get_job task.job_id w.db ≡ some j) (active : is_terminal j.status ≡ false)
    (failed : conversion tools content task ≡ inr e) where
  -- While attempts are left, a chunk of an active job whose conversion raises is retried: all calls passing, `handle` returns, has
  -- published exactly the next attempt, and leaves the job active with its counter as it was.
  pub handle-retries :
      task.attempt + 1 ≤ config.broker.max_attempts
      → let after = handle config codec tasks tools task w in
        (after.0 ≡ returned tt)
        × (after.1.published ≡ w.published ++ publish_retry config.broker tasks task ∷ [])
        × (j' : Job) × (get_job task.job_id after.1.db ≡ some j')
        × (is_terminal j'.status ≡ false)
        × (j'.remaining_chunks ≡ j.remaining_chunks)
  handle-retries le =
      let (t, t', n, c, rest) =
        handle-rescues config codec tasks tools content task w fine source j e found active
          failed in
      let db = started task.job_id task.chunk_index config.consumer_name task.attempt t t' w.db in
      let v = record w { db = db; cache = c; calls = n } in
      let retried = handle_failure-retries config codec tasks tools task e v fine task.job_id le in
      let r = handle_failure config codec tasks tools task e v in
      rw (rest r.1 (ap (λ x. (x, r.1)) retried.0)) (
        refl,
        retried.1,
        running t' j,
        retried.2
            ∙ get_job-started task.job_id task.chunk_index config.consumer_name task.attempt t t'
                w.db j found,
        ground arith,
        ground arith,
      )

  -- At the last attempt, such a chunk fails its job: all calls passing, `handle` returns, has published exactly the failed task, and
  -- the job is failed with the index of the chunk.
  pub handle-gives_up :
      config.broker.max_attempts ≤ task.attempt
      → let after = handle config codec tasks tools task w in
        (after.0 ≡ returned tt)
        × (after.1.published
            ≡ w.published ++ publish_failed config.broker tasks task (describe e) ∷ [])
        × (j' : Job) × (get_job task.job_id after.1.db ≡ some j')
        × (j'.status ≡ JobStatus.failed)
        × (j'.error_chunk ≡ some task.chunk_index)
  handle-gives_up le =
      let (t, t', n, c, rest) =
        handle-rescues config codec tasks tools content task w fine source j e found active
          failed in
      let db = started task.job_id task.chunk_index config.consumer_name task.attempt t t' w.db in
      let v = record w { db = db; cache = c; calls = n } in
      let given_up =
        handle_failure-gives_up config codec tasks tools task e v fine (running t' j) le
          (get_job-started task.job_id task.chunk_index config.consumer_name task.attempt t t' w.db
            j found)
          (ground arith) in
      let r = handle_failure config codec tasks tools task e v in
      rw (rest r.1 (ap (λ x. (x, r.1)) given_up.0))
        (refl, given_up.1, given_up.2, given_up.3, given_up.4, given_up.5)
