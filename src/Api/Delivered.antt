-- ===== src/Api/Delivered.antt =====
-- From `submit` of api/index.py through the deliveries to worker.py to the page endpoint, with calls that pass.
mod Tests
use mathlib.Core.Path.{subst}
use markitdown_server.Prelude.{
  ℕ, zero, suc, ◌+◌, ◌≤◌, ◌<◌, ◌≡◌, ◌≢◌, ◌⊎◌, refl, ap, sym, ◌∙◌, inl, inr, Bool, false, Option,
  none, some, List, [], ◌∷◌, ◌++◌, map, Text, All, All-map, length, get_elem?, arith,
}
use markitdown_server.Prelude.Int.{pos}
use markitdown_server.Chunker.{PageRange, planned, page_count, plan_chunks}
use markitdown_server.Pagination.{paginate}
use markitdown_server.Storage.{
  Bytes, Codec, missing, found, get_page, get_manifest, get_bytes, source_key, put_source,
  manifest_of,
}
use markitdown_server.Storage.Bucket.{get-put_source}
use markitdown_server.Taskqueue.{ChunkTask, publish}
use markitdown_server.Cache.{cached, total_size}
use markitdown_server.Tables.{Database, JobStatus, Job, exists_row, of_job, of_chunk}
use markitdown_server.Jobstore.{new_job, get_job, chunk_indices, find_cached_document}
use markitdown_server.Jobstore.Creating.{new_chunks}
use markitdown_server.Jobstore.Invariant.{WellFormed}
use markitdown_server.Jobstore.Fresh.{
  indices_from, fresh-WellFormed, get_job-fresh, is_open-fresh, chunk_indices-fresh, open-fresh,
}
use markitdown_server.Action.{World, Result, returned}
use markitdown_server.Worker.{Config, Tools, markdown_of}
use markitdown_server.Worker.Passing.{Passing}
use markitdown_server.Worker.Converting.{HasSource, conversion}
use markitdown_server.Worker.Pipeline.{Awaits, AreDistinct, Underway, handle_all}
use markitdown_server.Worker.Reordering.{AreAmong}
use markitdown_server.Worker.Delivered.{handle_all-delivers}
use markitdown_server.Api.{Service, Outside, accepted, answer, page_response}
use markitdown_server.Api.Pages.{get_page_endpoint}
use markitdown_server.Api.Submit.{chunk_tasks, submit_file, doc_key_of, file_hash_of}
use markitdown_server.Api.Underway.{fresh-Underway}
use markitdown_server.Api.Serving.{get_page_endpoint-stored}
use markitdown_server.Api.Submitting.{submit_file-enqueues}

module _ (service : Service) (outside : Outside) (job_id : Text) (use_llm : Bool) (content : Bytes)
    (ranges : List PageRange) where
  -- The tasks that `submit` publishes.
  abbrev pub published_tasks : List ChunkTask
  published_tasks =
      chunk_tasks job_id (doc_key_of service outside content use_llm)
        (file_hash_of service outside content) (length ranges) use_llm 0 ranges

-- A worker handles the deliveries.
abbrev pub worked : Outside → Config → List ChunkTask → World → Result Unit × World
worked outside config deliveries v =
    handle_all config outside.codec outside.tasks outside.tools deliveries v

-- The document's text, from the texts of its ranges.
abbrev pub joined : (ℕ → Text) → List PageRange → Text
joined texts ranges = markdown_of (map texts (indices_from 0 ranges))

module _ (service : Service) (outside : Outside) (config : Config) (job_id url : Text)
    (use_llm : Bool) (content : Bytes) (r : PageRange) (rest : List PageRange) (texts : ℕ → Text)
    (w : World) (fine : Passing w)
    (plan : plan_chunks
        (page_count outside.tools.read_pages content)
        service.conversion.pages_per_chunk
        service.conversion.min_pages
      ≡ planned (r ∷ rest)) where
  abbrev key : Text
  key = doc_key_of service outside content use_llm

  abbrev file_hash : Text
  file_hash = file_hash_of service outside content

  abbrev ranges : List PageRange
  ranges = r ∷ rest

  abbrev markdown : Text
  markdown = joined texts ranges

  abbrev queued : List ChunkTask
  queued = published_tasks service outside job_id use_llm content ranges

  -- The worlds of the worker and of the request for a page.
  module _ (deliveries : List ChunkTask) (v u : World) (fine_v : Passing v) (fine_u : Passing u)
      (missed : (find_cached_document key w.db ≡ none)
        ⊎ (get_manifest outside.codec key w.bucket ≡ missing))
      (well : WellFormed w.db) (no_job : exists_row (of_job job_id) w.db.jobs ≡ false)
      (no_chunks : exists_row (of_chunk job_id) w.db.chunks ≡ false)
      (addressed : (get_bytes (source_key file_hash) w.bucket ≡ none)
        ⊎ (get_bytes (source_key file_hash) w.bucket ≡ some content))
      (converts : All (λ u. conversion outside.tools content u ≡ inl (texts u.chunk_index)) queued)
      (same_db : v.db ≡ (submit_file service outside job_id url use_llm content w).1.db)
      (same_bucket : v.bucket ≡ (submit_file service outside job_id url use_llm content w).1.bucket)
      (uncached : cached file_hash v.cache ≡ none)
      (fits : total_size v.cache + length content ≤ config.source_cache_max_bytes)
      (only : AreAmong deliveries queued) (all : AreAmong queued deliveries)
      (same_objects : u.bucket ≡ (worked outside config deliveries v).1.bucket) where
    under_way :
        Underway config outside.codec outside.tools content texts job_id key file_hash queued v
    under_way =
        let (t, n, submitted) =
          submit_file-enqueues service outside job_id url use_llm content ranges w fine plan missed
            no_job no_chunks in
        let stored = get-put_source file_hash content w.bucket addressed in
        fresh-Underway job_id key file_hash (length ranges) use_llm config outside.codec
          outside.tools content texts url ranges t w.db v fine_v well no_job no_chunks refl
          (same_db ∙ ap (λ x. x.1.db) submitted) converts
          (inr (
            uncached,
            ap (λ b. get_bytes (source_key file_hash) b)
                  (same_bucket ∙ ap (λ x. x.1.bucket) submitted)
                ∙ stored,
            fits,
          ))

    abbrev after : Result Unit × World
    after = worked outside config deliveries v

    all_indices : chunk_indices job_id v.db ≡ indices_from 0 ranges
    all_indices =
        let (t, n, submitted) =
          submit_file-enqueues service outside job_id url use_llm content ranges w fine plan missed
            no_job no_chunks in
        ap (λ db. chunk_indices job_id db) (same_db ∙ ap (λ x. x.1.db) submitted)
        ∙ chunk_indices-fresh job_id t key file_hash url ranges use_llm w.db no_job no_chunks

    all_delivered :
        (pages : List Text) (i : ℕ) (page : Text)
        → paginate markdown config.page_size ≡ some pages
        → get_elem? pages i ≡ some page
        → (after.0 ≡ returned tt)
          × (get_manifest outside.codec key after.1.bucket
              ≡ found (manifest_of outside.codec key pages (length markdown) config.page_size))
          × (get_page outside.codec key (i + 1) after.1.bucket ≡ found page)
          × (j : Job) × (get_job job_id after.1.db ≡ some j)
          × (j.status ≡ JobStatus.done)
    unfolding chunk_tasks
    all_delivered pages i page paginated on_page =
        subst
          (λ ns.
            paginate (markdown_of (map texts ns)) config.page_size ≡ some pages
            → (after.0 ≡ returned tt)
              × (get_manifest outside.codec key after.1.bucket
                  ≡ found (
                      manifest_of outside.codec key pages (length (markdown_of (map texts ns)))
                        config.page_size))
              × (get_page outside.codec key (i + 1) after.1.bucket ≡ found page)
              × (j : Job) × (get_job job_id after.1.db ≡ some j)
              × (j.status ≡ JobStatus.done))
          all_indices
          (λ e.
            handle_all-delivers config outside.codec outside.tasks outside.tools content texts
              job_id key file_hash _ _ deliveries v pages i page under_way only all e on_page)
          paginated

    add_one : (k : ℕ) → suc k ≡ k + 1
    add_one k = omega arith

    -- From the URL's document to its pages, when all calls pass: `submit` is given a document that the cache does not serve, with a
    -- new job id, over well-formed tables, whose source key holds nothing or this document, and whose ranges convert to `texts`. A
    -- worker whose cache has room for the source handles deliveries of the published tasks, each at least once, in any order and
    -- with any repetitions, in the tables and the bucket that `submit` left. Then every handling has returned, the job is done,
    -- and a request for page i + 1 is answered with the page i of what `paginate` makes of the texts, joined in the order
    -- of the ranges.
    pub get_page_endpoint-submitted :
        (pages : List Text) (i : ℕ) (page : Text)
        → paginate markdown config.page_size ≡ some pages
        → get_elem? pages i ≡ some page
        → (after.0 ≡ returned tt)
          × ((get_page_endpoint outside.codec key (pos (suc i)) u).0
              ≡ returned (
                  answer (
                    page_response key
                      (suc i)
                      (manifest_of outside.codec key pages (length markdown) config.page_size)
                      page)))
          × (j : Job) × (get_job job_id after.1.db ≡ some j)
          × (j.status ≡ JobStatus.done)
    get_page_endpoint-submitted pages i page paginated on_page =
        let delivered = λ (k : ℕ) (p : Text) (e : get_elem? pages k ≡ some p).
          all_delivered pages k p paginated e in
        let first = delivered i page on_page in
        let objects = λ (k : ℕ) (p : Text) (e : get_elem? pages k ≡ some p).
          ap (λ b. get_page outside.codec key (suc k) b) same_objects
          ∙ ap (λ n. get_page outside.codec key n after.1.bucket) (add_one k)
          ∙ (delivered k p e).2 in
        (
          first.0,
          get_page_endpoint-stored outside.codec key pages (length markdown) config.page_size u
                fine_u (ap (λ b. get_manifest outside.codec key b) same_objects ∙ first.1) objects
                (pos (suc i))
              ∙ (rw on_page refl),
          first.3,
          first.4,
          first.5,
        )
