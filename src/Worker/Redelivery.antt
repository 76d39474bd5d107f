-- ===== src/Worker/Redelivery.antt =====
-- worker.py's `handle` for a chunk that has been recorded already.
use markitdown_server.Prelude.{◌+◌, ◌≡◌, refl, ap, ◌∙◌, count_if}
use markitdown_server.Tables.{open_chunk, chunk_already_done}
use markitdown_server.Storage.{Codec, part_key}
use markitdown_server.Taskqueue.{TaskCodec, ChunkTask}
use markitdown_server.Jobstore.{complete_chunk}
use markitdown_server.Jobstore.Outcomes.{complete_chunk-none}
use markitdown_server.Action.{World, returned}
use markitdown_server.Worker.{Config, Tools, record_chunk, finish}
use markitdown_server.Worker.Passing.{Passing, call-returned, bind-returned}

-- When its calls pass, a chunk that is done already is recorded without an effect: the database, the bucket and the broker
-- stay as they are, and nobody assembles the job, whatever its counter is.
pub record_chunk-again :
    (config : Config) (codec : Codec) (tasks : TaskCodec) (tools : Tools) (task : ChunkTask)
    (w : World)
    → Passing w
    → count_if (open_chunk task.job_id task.chunk_index) w.db.chunks ≡ 0
    → record_chunk config codec tasks tools task w ≡ (returned tt, record w { calls = w.calls + 1 })
unfolding record_chunk finish
record_chunk-again config codec tasks tools task w fine done =
    bind-returned _ _ (
      call-returned _ w fine
      ∙ ap (λ r. (returned r.0, record w { db = r.1; calls = w.calls + 1 })) again)
    ∙ refl
  where
    again :
        complete_chunk task.job_id task.chunk_index
          (part_key task.doc_key task.chunk_index)
          (w.schedule w.calls).now
          w.db
        ≡ (chunk_already_done, w.db)
    again =
        complete_chunk-none task.job_id task.chunk_index (part_key task.doc_key task.chunk_index)
          (w.schedule w.calls).now w.db done
