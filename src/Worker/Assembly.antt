-- ===== src/Worker/Assembly.antt =====
-- What worker.py's `assemble` leaves behind.
use markitdown_server.Prelude.{
  ℕ, ◌+◌, ◌≡◌, refl, ap, ◌∙◌, true, some, List, Text, arith, length, get_elem?,
}
use markitdown_server.Pagination.{paginate}
use markitdown_server.Storage.{Codec, found, put_document, manifest_of, get_manifest, get_page}
use markitdown_server.Storage.Bucket.{get-put_document}
use markitdown_server.Taskqueue.{TaskCodec}
use markitdown_server.Tables.{Job, JobStatus, Database, of_job}
use markitdown_server.Jobstore.{
  new_document, get_job, set_done, finish_job, record_document, chunk_indices, find_cached_document,
}
use markitdown_server.Jobstore.Laws.{get_job-of_job}
use markitdown_server.Jobstore.Outcomes.{get_job-finish_job}
use markitdown_server.Jobstore.Documents.{
  find_cached_document-record_document, find_cached_document-finish_job, get_job-record_document,
}
use markitdown_server.Action.{World, returned}
use markitdown_server.Worker.{Config, Tools, assemble, markdown_of, or_diverges}
use markitdown_server.Worker.Passing.{
  Passing, PartsAre, call-returned, bind-returned, fetch_parts-found, send_pages-put,
}

module _ (config : Config) (codec : Codec) (tasks : TaskCodec) (tools : Tools) (job : Job)
    (texts pages : List Text) (w : World) (fine : Passing w)
    (parts : PartsAre codec job.doc_key w.bucket (chunk_indices job.job_id w.db) texts)
    (paginated : paginate (markdown_of texts) config.page_size ≡ some pages) where
  -- The database and the bucket that `assemble` leaves behind, at the times of its two statements.
  abbrev pub stored : ℕ → ℕ → Database
  stored t t' = finish_job job.job_id t (
      record_document job.doc_key job.file_hash (length pages) job.total_chunks
        (length (markdown_of texts)) config.page_size config.document_ttl_days t' w.db)

  pub assembled :
      (t t' n : ℕ) × (assemble config codec tasks tools job w ≡ (
        returned tt,
        record w {
          db = stored t t';
          bucket =
              put_document codec job.doc_key pages
                (length (markdown_of texts))
                config.page_size
                w.bucket;
          calls = n;
        },
      ))
  unfolding assemble put_document
  assembled =
      let w1 = record w { calls = w.calls + 1 } in
      let (n, fetched) =
        fetch_parts-found config codec tasks tools job.doc_key (chunk_indices job.job_id w.db) texts
          w1 fine parts in
      let w2 = record w { calls = n } in
      let (m, sent) = send_pages-put config codec tasks tools job.doc_key 1 pages w2 fine in
      (
        (w.schedule (m + 1 + 1)).now,
        (w.schedule (m + 1)).now,
        m + 1 + 1 + 1,
        bind-returned _ _ (call-returned _ w fine)
            ∙ bind-returned _ _ fetched
            ∙ bind-returned _ _ (ap (λ o. or_diverges o w2) paginated)
            ∙ bind-returned _ _ (bind-returned _ _ sent ∙ call-returned _ _ fine)
            ∙ bind-returned _ _ (call-returned _ _ fine)
            ∙ call-returned _ _ fine,
      )

  -- When all calls pass, the parts of the job's chunks stand in the bucket, the job has a row, and `pages` is what `paginate`
  -- makes of the parts with text, joined in the order of the chunks, then `assemble` returns; the manifest and every page are
  -- read back, `find_cached_document` finds the document as it was recorded, and the job is done.
  pub assemble-stores :
      (j : Job) (i : ℕ) (page : Text)
      → get_job job.job_id w.db ≡ some j
      → get_elem? pages i ≡ some page
      → let after = assemble config codec tasks tools job w in
        (after.0 ≡ returned tt)
        × (get_manifest codec job.doc_key after.1.bucket
            ≡ found
                (manifest_of codec job.doc_key pages (length (markdown_of texts)) config.page_size))
        × (get_page codec job.doc_key (i + 1) after.1.bucket ≡ found page)
        × ((t : ℕ) × (find_cached_document job.doc_key after.1.db
              ≡ some (
                  new_document job.doc_key job.file_hash
                    (length pages)
                    job.total_chunks
                    (length (markdown_of texts))
                    config.page_size
                    config.document_ttl_days
                    t)))
        × (j' : Job) × (get_job job.job_id after.1.db ≡ some j')
        × (j'.status ≡ JobStatus.done)
  assemble-stores j i page found_job found_page =
      let (t, t', n, same) = assembled in
      let written =
        get-put_document codec job.doc_key pages (length (markdown_of texts)) config.page_size
          w.bucket i page found_page in
      let recorded =
        record_document job.doc_key job.file_hash (length pages) job.total_chunks
          (length (markdown_of texts)) config.page_size config.document_ttl_days t' w.db in
      rw same (
        refl,
        written.0,
        written.1,
        (
          t',
          find_cached_document-finish_job job.doc_key job.job_id t recorded
              ∙ find_cached_document-record_document job.doc_key job.file_hash (length pages)
                  job.total_chunks (length (markdown_of texts)) config.page_size
                  config.document_ttl_days t' w.db,
        ),
        set_done t j,
        now_done t recorded (found_after t'),
        refl,
      )
    where
      found_after :
          (t' : ℕ)
          → get_job job.job_id (
              record_document job.doc_key job.file_hash
                (length pages)
                job.total_chunks
                (length (markdown_of texts))
                config.page_size
                config.document_ttl_days
                t'
                w.db)
            ≡ some j
      found_after t' =
          get_job-record_document job.job_id job.doc_key job.file_hash (length pages)
            job.total_chunks (length (markdown_of texts)) config.page_size config.document_ttl_days
            t' w.db
          ∙ found_job

      now_done :
          (t : ℕ) (db : Database)
          → get_job job.job_id db ≡ some j
          → get_job job.job_id (finish_job job.job_id t db) ≡ some (set_done t j)
      now_done t db h =
          let mine : of_job job.job_id j ≡ true = get_job-of_job job.job_id db j h in
          rw (get_job-finish_job, h) (ground arith)
