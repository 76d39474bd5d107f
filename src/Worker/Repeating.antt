-- ===== src/Worker/Repeating.antt =====
-- worker.py: the delivery of a task whose chunk is done already, or whose job is, with calls that pass.
use markitdown_server.Prelude.{
  All-map, ℕ, ◌+◌, ◌≡◌, refl, ap, ◌∙◌, inl, inr, true, some, List, arith, Text,
}
use markitdown_server.Storage.{Bytes, Codec, put_part, part_key}
use markitdown_server.Taskqueue.{TaskCodec, ChunkTask}
use markitdown_server.Tables.{Job, is_terminal, chunk_already_done}
use markitdown_server.Jobstore.{get_job, chunk_indices}
use markitdown_server.Jobstore.Completing.{
  started, running, started-WellFormed, chunk_indices-started, open-started, is_open-started,
  completed-again, get_job-started,
}
use markitdown_server.Action.{World, returned}
use markitdown_server.Worker.{Config, Tools, handle, finish}
use markitdown_server.Worker.Passing.{Passing, call-returned, bind-returned}
use markitdown_server.Worker.Converting.{conversion}
use markitdown_server.Worker.Recording.{handle-records}
use markitdown_server.Worker.Pipeline.{Underway, Stored, part-put, part-put_stored}

module _ (config : Config) (codec : Codec) (tasks : TaskCodec) (tools : Tools) (content : Bytes)
    (texts : ℕ → Text) where
  finish-again :
      (t : ChunkTask) (v : World)
      → finish config codec tasks tools t chunk_already_done v ≡ (returned tt, v)
  unfolding finish
  finish-again t v = refl

  -- A task whose chunk is done is converted again, and leaves the job as it is.
  pub repeated :
      (t : ChunkTask) (ts : List ChunkTask) (w : World)
      → conversion tools content t ≡ inl (texts t.chunk_index)
      → Stored codec texts t.job_id t.doc_key w t.chunk_index
      → Underway config codec tools content texts t.job_id t.doc_key t.file_hash ts w
      → (v : World) × (handle config codec tasks tools t w ≡ (returned tt, v))
        × Underway config codec tools content texts t.job_id t.doc_key t.file_hash ts v
        × (chunk_indices t.job_id v.db ≡ chunk_indices t.job_id w.db)
        × ((i : ℕ)
            → Stored codec texts t.job_id t.doc_key w i
            → Stored codec texts t.job_id t.doc_key v i)
  repeated t ts w converts stored u =
      let (a, a', a'', n, c, same, file) =
        handle-records config codec tasks tools content t w u.fine u.source u.job
          (texts t.chunk_index) u.has_job u.active converts in
      let key = part_key t.doc_key t.chunk_index in
      let db = started t.job_id t.chunk_index config.consumer_name t.attempt a a' w.db in
      let v = record w {
        db = db;
        bucket = put_part codec t.doc_key t.chunk_index (texts t.chunk_index) w.bucket;
        cache = c;
        calls = n;
      } in
      let opened =
        open-started t.job_id t.chunk_index config.consumer_name key t.attempt a a' a'' w.db in
      let indices =
        chunk_indices-started t.job_id t.chunk_index config.consumer_name key t.attempt a a' a''
          w.db in
      (
        v,
        same
            ∙ ap (λ r. finish config codec tasks tools t r.0 (record v { db = r.1 }))
                (completed-again t.job_id t.chunk_index config.consumer_name key t.attempt a a' a''
                  w.db stored.0)
            ∙ finish-again t v,
        record {
          fine = u.fine;
          well =
              started-WellFormed t.job_id t.chunk_index config.consumer_name key t.attempt a a' a''
                w.db u.well;
          job = running a' u.job;
          has_job =
              get_job-started t.job_id t.chunk_index config.consumer_name t.attempt a a' w.db u.job
                u.has_job;
          active = ground (arith, u.active);
          same_id = ground (arith, u.same_id);
          same_key = ground (arith, u.same_key);
          left =
              is_open-started t.job_id t.chunk_index config.consumer_name key t.attempt a a' a''
                w.db
              ∙ u.left;
          each_open = All-map ts (λ x one. opened x.chunk_index ∙ one) u.each_open;
          distinct = u.distinct;
          own = u.own;
          converts = u.converts;
          parts = rw indices (
              All-map (chunk_indices t.job_id w.db)
                (λ i h.
                  part-put config codec tasks tools content texts t.doc_key t ts w.bucket i
                    (elim h [ inl there ↦ inl there | inr later ↦ inr (inr later) ]))
                u.parts);
          source = inl file;
        },
        indices,
        λ i h. (
          opened i ∙ h.0,
          part-put_stored config codec tasks tools content texts t.doc_key t w.bucket i (inr h.1),
        ),
      )

  -- A task of a job that has ended is handled by one look at the job.
  pub handle-ended :
      (t : ChunkTask) (w : World) (j : Job)
      → Passing w
      → get_job t.job_id w.db ≡ some j
      → is_terminal j.status ≡ true
      → handle config codec tasks tools t w ≡ (returned tt, record w { calls = w.calls + 1 })
  unfolding handle
  handle-ended t w j fine has_job ended =
      bind-returned _ _
        (call-returned _ w fine ∙ ap (λ o. (returned o, record w { calls = w.calls + 1 })) has_job)
      ∙ (rw ended refl)
