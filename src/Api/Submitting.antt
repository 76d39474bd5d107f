-- ===== src/Api/Submitting.antt =====
-- api/index.py's `submit` when its calls pass.
use markitdown_server.Prelude.{
  map, ◌⊎◌, ◌∷◌, [], inl, inr, ℕ, ◌+◌, ◌≡◌, refl, ap, ◌∙◌, inl, inr, Bool, some, List, ◌++◌, Text,
  length, Bool-cases, Option, false, none,
}
use markitdown_server.Chunker.{PageRange, planned, page_count, plan_chunks}
use markitdown_server.Storage.{Bytes, exists, source_key, put_source, get_manifest, missing}
use markitdown_server.Taskqueue.{ChunkTask, publish}
use markitdown_server.Tables.{Chunk, exists_row, of_job, of_chunk, Database, Document}
use markitdown_server.Jobstore.{create_job, new_job, new_chunk, find_cached_document}
use markitdown_server.Jobstore.Creating.{new_chunks, create_job-fresh}
use markitdown_server.Jobstore.History.{or_unchanged}
use markitdown_server.Action.{try_except, on_raise, or_raise, World, returned}
use markitdown_server.Worker.Passing.{Passing, call-returned, bind-returned, publish_messages-sent}
use markitdown_server.Api.{read_fetched, Service, Outside, accepted}
use markitdown_server.Api.Pages.{cached_payload}
use markitdown_server.Api.Submit.{
  not_there, planned_ranges, is_created, send_source, chunk_tasks, enqueue, doc_key_of,
  file_hash_of, submit_new, submit_file,
}

-- The first task of a chunk, from the row of the chunk.
abbrev pub first_task : Text → Text → ℕ → Bool → Chunk → ChunkTask
first_task doc_key file_hash total use_llm c = record {
  job_id = c.job_id;
  chunk_index = c.chunk_index;
  doc_key = doc_key;
  file_hash = file_hash;
  start_page = c.start_page;
  end_page = c.end_page;
  total_chunks = total;
  use_llm = use_llm;
  attempt = 1;
}

chunk_tasks-new_chunks :
    (job_id doc_key file_hash : Text) (total : ℕ) (use_llm : Bool) (t index : ℕ)
    (ranges : List PageRange)
    → chunk_tasks job_id doc_key file_hash total use_llm index ranges
      ≡ map (first_task doc_key file_hash total use_llm) (new_chunks job_id index ranges t)
unfolding chunk_tasks
chunk_tasks-new_chunks job_id doc_key file_hash total use_llm t index [] = refl
chunk_tasks-new_chunks job_id doc_key file_hash total use_llm t index ((start, end) ∷ ranges) =
    ap
      (λ ts.
        first_task doc_key file_hash total use_llm (new_chunk job_id index (start, end) t) ∷ ts)
      (chunk_tasks-new_chunks job_id doc_key file_hash total use_llm t (index + 1) ranges)

module _ (service : Service) (outside : Outside) (job_id url : Text) (use_llm : Bool)
    (content : Bytes) (ranges : List PageRange) (w : World) (fine : Passing w)
    (plan : plan_chunks
        (page_count outside.tools.read_pages content)
        service.conversion.pages_per_chunk
        service.conversion.min_pages
      ≡ planned ranges) where
  send_source-put :
      (file_hash : Text) (v : World)
      → Passing v
      → (n : ℕ) × (send_source outside.is_client_error file_hash content v
          ≡ (returned tt, record v { bucket = put_source file_hash content v.bucket; calls = n }))
  unfolding put_source try_except
  send_source-put file_hash v fine_v = elim (Bool-cases (exists (source_key file_hash) v.bucket)) [
    | inl there ↦ (
      v.calls + 1,
      bind-returned _ _
            (ap (λ r. on_raise (not_there outside.is_client_error) r) (call-returned _ v fine_v))
          ∙ (rw there refl),
    )
    | inr fresh ↦ (
      v.calls + 1 + 1,
      bind-returned _ _
            (ap (λ r. on_raise (not_there outside.is_client_error) r) (call-returned _ v fine_v))
          ∙ (rw fresh (call-returned _ _ fine_v)),
    )
  ]

  enqueue-enqueues :
      (doc_key file_hash : Text) (v : World) (after : ℕ → Database)
      → Passing v
      → ((t : ℕ) → create_job job_id doc_key file_hash url ranges use_llm t v.db ≡ some (after t))
      → (t n : ℕ) × (enqueue service outside job_id doc_key file_hash url ranges use_llm v ≡ (
        returned (accepted job_id doc_key (length ranges)),
        record v {
          db = after t;
          published =
              v.published
              ++ publish service.broker outside.tasks
                  (chunk_tasks job_id doc_key file_hash (length ranges) use_llm 0 ranges);
          calls = n;
        },
      ))
  unfolding enqueue
  enqueue-enqueues doc_key file_hash v after fine_v created =
      let t = (v.schedule v.calls).now in
      let ms =
        publish service.broker outside.tasks
          (chunk_tasks job_id doc_key file_hash (length ranges) use_llm 0 ranges) in
      let v1 = record v { db = after t; calls = v.calls + 1 } in
      let (n, sent) = publish_messages-sent outside.tools.is_amqp_error ms v1 fine_v in
      (
        t,
        n,
        bind-returned _ _ (
              call-returned _ v fine_v
              ∙ ap
                  (λ o. (
                    returned (is_created o),
                    record v { db = or_unchanged v.db o; calls = v.calls + 1 },
                  ))
                  (created t))
            ∙ bind-returned _ _ refl
            ∙ bind-returned _ _ sent,
      )

  abbrev key : Text
  key = doc_key_of service outside content use_llm

  abbrev hash : Text
  hash = file_hash_of service outside content

  cached_payload-misses :
      (o : Option Document) (v : World)
      → Passing v
      → (o ≡ none) ⊎ (get_manifest outside.codec key v.bucket ≡ missing)
      → (n : ℕ) × (cached_payload outside.codec key o v ≡ (returned none, record v { calls = n }))
  unfolding cached_payload
  cached_payload-misses none v fine_v missed = (v.calls, refl)
  cached_payload-misses (some d) v fine_v (inl e) = absurd (nothing e)
    where
      nothing : ◌≡◌ {A = Option Document} (some d) none → ⊥
      nothing h = cc
  cached_payload-misses (some d) v fine_v (inr e) = (
    v.calls + 1,
    bind-returned _ _ (
        bind-returned _ _ (call-returned _ v fine_v)
        ∙ ap (λ f. or_raise (read_fetched f) (record v { calls = v.calls + 1 })) e),
  )

  submit_new-enqueues :
      (v : World)
      → Passing v
      → exists_row (of_job job_id) v.db.jobs ≡ false
      → exists_row (of_chunk job_id) v.db.chunks ≡ false
      → (t n : ℕ) × (submit_new service outside job_id key hash url use_llm content v ≡ (
        returned (accepted job_id key (length ranges)),
        record v {
          db = record v.db {
            jobs = v.db.jobs ++ new_job job_id key hash url (length ranges) use_llm t ∷ [];
            chunks = v.db.chunks ++ new_chunks job_id 0 ranges t;
          };
          bucket = put_source hash content v.bucket;
          published =
              v.published
              ++ publish service.broker outside.tasks
                  (chunk_tasks job_id key hash (length ranges) use_llm 0 ranges);
          calls = n;
        },
      ))
  unfolding submit_new
  submit_new-enqueues v fine_v no_job no_chunks =
      let (n, put) = send_source-put hash v fine_v in
      let v1 = record v { bucket = put_source hash content v.bucket; calls = n } in
      let (t, m, queued) =
        enqueue-enqueues key hash v1
          (λ t. record v.db {
            jobs = v.db.jobs ++ new_job job_id key hash url (length ranges) use_llm t ∷ [];
            chunks = v.db.chunks ++ new_chunks job_id 0 ranges t;
          })
          fine_v
          (λ t. create_job-fresh job_id t key hash url ranges use_llm v.db no_job no_chunks) in
      (
        t,
        m,
        bind-returned _ _ (ap (λ p. or_raise (planned_ranges p) v) plan)
            ∙ bind-returned _ _ put
            ∙ queued,
      )

  -- When its calls pass and the cache does not serve the document, for lack of its row or of its manifest, and the job id is new,
  -- `submit` stores the source, adds the job and one chunk for each planned range, publishes exactly one task for each row of these
  -- chunks, in order and with the row's pages, and accepts the job with the number of ranges.
  pub submit_file-enqueues :
      (find_cached_document key w.db ≡ none) ⊎ (get_manifest outside.codec key w.bucket ≡ missing)
      → exists_row (of_job job_id) w.db.jobs ≡ false
      → exists_row (of_chunk job_id) w.db.chunks ≡ false
      → (t n : ℕ) × (submit_file service outside job_id url use_llm content w ≡ (
        returned (accepted job_id key (length ranges)),
        record w {
          db = record w.db {
            jobs = w.db.jobs ++ new_job job_id key hash url (length ranges) use_llm t ∷ [];
            chunks = w.db.chunks ++ new_chunks job_id 0 ranges t;
          };
          bucket = put_source hash content w.bucket;
          published =
              w.published
              ++ publish service.broker outside.tasks (
                  map (first_task key hash (length ranges) use_llm) (new_chunks job_id 0 ranges t));
          calls = n;
        },
      ))
  unfolding submit_file
  submit_file-enqueues missed no_job no_chunks =
      let w1 = record w { calls = w.calls + 1 } in
      let (n, none_cached) = cached_payload-misses (find_cached_document key w.db) w1 fine missed in
      let (t, m, queued) = submit_new-enqueues (record w { calls = n }) fine no_job no_chunks in
      let db = record w.db {
        jobs = w.db.jobs ++ new_job job_id key hash url (length ranges) use_llm t ∷ [];
        chunks = w.db.chunks ++ new_chunks job_id 0 ranges t;
      } in
      (
        t,
        m,
        bind-returned _ _ (call-returned _ w fine)
            ∙ bind-returned _ _ none_cached
            ∙ queued
            ∙ ap
                (λ ts. (
                  returned (accepted job_id key (length ranges)),
                  record w {
                    db = db;
                    bucket = put_source hash content w.bucket;
                    published = w.published ++ publish service.broker outside.tasks ts;
                    calls = m;
                  },
                ))
                (chunk_tasks-new_chunks job_id key hash (length ranges) use_llm t 0 ranges),
      )
