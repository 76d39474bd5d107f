-- ===== src/Worker/Recording.antt =====
-- worker.py's `handle` of a chunk that is converted or whose conversion raises, up to `finish` and `_handle_failure`, when all calls pass.
use markitdown_server.Prelude.{
  ℕ, ◌+◌, ◌≡◌, ap, ◌∙◌, inl, inr, true, false, some, Text, if◌then◌else◌,
}
use markitdown_server.Storage.{Bytes, Codec, put_part, part_key}
use markitdown_server.Taskqueue.{TaskCodec, ChunkTask}
use markitdown_server.Cache.{Cache}
use markitdown_server.Tables.{Job, Database, is_terminal}
use markitdown_server.Jobstore.{get_job, complete_chunk}
use markitdown_server.Jobstore.Completing.{started}
use markitdown_server.Action.{
  World, Error, returned, or_raise, ◌>>=◌, try_except, Action, on_raise, ret,
}
use markitdown_server.Worker.{
  Config, Tools, convert_chunk, handle, finish, handle_active, record_chunk, handle_found,
  handle_failure,
}
use markitdown_server.Worker.Passing.{bind-raised, Passing, call-returned, bind-returned}
use markitdown_server.Worker.Converting.{HasFile, HasSource, conversion, convert_range-conversion}

module _ (config : Config) (codec : Codec) (tasks : TaskCodec) (tools : Tools) (content : Bytes)
    (task : ChunkTask) (w : World) (fine : Passing w)
    (source : HasSource config task.file_hash content w) where
  -- The tables once the chunk and the job are marked, at the times of the two statements.
  abbrev pub marked : ℕ → ℕ → Database
  marked t t' = started task.job_id task.chunk_index config.consumer_name task.attempt t t' w.db

  -- The rest of `handle` once the chunk is marked.
  abbrev convert_and_record : Action Unit
  convert_and_record = do
    converted ←
        try_except (convert_chunk config codec tasks tools task >>= λ _. ret true)
          (λ e. handle_failure config codec tasks tools task e >>= λ _. ret false)
    if converted then record_chunk config codec tasks tools task else ret tt

  handle-starts :
      (j : Job)
      → get_job task.job_id w.db ≡ some j
      → is_terminal j.status ≡ false
      → handle config codec tasks tools task w
        ≡ convert_and_record (record w {
          db = marked (w.schedule (w.calls + 1)).now (w.schedule (w.calls + 1 + 1)).now;
          calls = w.calls + 1 + 1 + 1;
        })
  unfolding handle handle_active
  handle-starts j found active =
      bind-returned _ _
        (call-returned _ w fine ∙ ap (λ o. (returned o, record w { calls = w.calls + 1 })) found)
      ∙ (rw (active, handle_found)
          (bind-returned _ _ (call-returned _ _ fine) ∙ bind-returned _ _ (call-returned _ _ fine)))

  -- A chunk of an active job that is converted is stored and completed, and then the job is assembled if none remains.
  pub handle-records :
      (j : Job) (text : Text)
      → get_job task.job_id w.db ≡ some j
      → is_terminal j.status ≡ false
      → conversion tools content task ≡ inl text
      → (t t' t'' n : ℕ) × (c : Cache) × (let completed =
            complete_chunk task.job_id task.chunk_index
              (part_key task.doc_key task.chunk_index)
              t''
              (marked t t') in
          handle config codec tasks tools task w
          ≡ finish config codec tasks tools task completed.0 (record w {
            db = completed.1;
            bucket = put_part codec task.doc_key task.chunk_index text w.bucket;
            cache = c;
            calls = n;
          }))
        × HasFile task.file_hash content c
  unfolding handle handle_active record_chunk convert_chunk put_part try_except
  handle-records j text found active converted =
      let v = record w {
        db = marked (w.schedule (w.calls + 1)).now (w.schedule (w.calls + 1 + 1)).now;
        calls = w.calls + 1 + 1 + 1;
      } in
      let (c, n, done, file) =
        convert_range-conversion config codec tasks tools content task v fine source in
      (
        (w.schedule (w.calls + 1)).now,
        (w.schedule (w.calls + 1 + 1)).now,
        (w.schedule (n + 1)).now,
        n + 1 + 1,
        c,
        handle-starts j found active
            ∙ bind-returned _ _ (
                ap
                  (λ r.
                    on_raise
                      (λ e. handle_failure config codec tasks tools task e >>= λ _. ret false) r)
                  (bind-returned _ _ (
                    bind-returned _ _
                      (done ∙ ap (λ r. or_raise r (record v { cache = c; calls = n })) converted)
                    ∙ call-returned _ _ fine)))
            ∙ bind-returned _ _ (call-returned _ _ fine),
        file,
      )

  -- A chunk of an active job whose conversion raises is handed to `handle_failure`, with the chunk marked as running.
  pub handle-rescues :
      (j : Job) (e : Error)
      → get_job task.job_id w.db ≡ some j
      → is_terminal j.status ≡ false
      → conversion tools content task ≡ inr e
      → (t t' n : ℕ) × (c : Cache) × ((v : World)
          → handle_failure config codec tasks tools task e
              (record w { db = marked t t'; cache = c; calls = n })
            ≡ (returned tt, v)
          → handle config codec tasks tools task w ≡ (returned tt, v))
  unfolding handle handle_active convert_chunk try_except
  handle-rescues j e found active failed =
      let v = record w {
        db = marked (w.schedule (w.calls + 1)).now (w.schedule (w.calls + 1 + 1)).now;
        calls = w.calls + 1 + 1 + 1;
      } in
      let (c, n, done, file) =
        convert_range-conversion config codec tasks tools content task v fine source in
      (
        (w.schedule (w.calls + 1)).now,
        (w.schedule (w.calls + 1 + 1)).now,
        n,
        c,
        λ u rescued.
            handle-starts j found active
            ∙ bind-returned _ _ (
                ap
                  (λ r.
                    on_raise
                      (λ e. handle_failure config codec tasks tools task e >>= λ _. ret false) r)
                  (bind-raised _ _ (
                    bind-raised _ _
                      (done ∙ ap (λ r. or_raise r (record v { cache = c; calls = n })) failed)))
                ∙ bind-returned _ _ rescued),
      )
