-- ===== src/Api/Pages.antt =====
-- api/index.py: waiting for a job, and what the endpoints read of it and of the pages of its document.
-- `wait_for_job` takes the number of polls that it may make, which Python does not bound.
use markitdown_server.Prelude.{
  ℕ, zero, suc, Bool, true, false, ◌||◌, Option, none, some, ◌++◌, if◌then◌else◌, Text, codes,
}
use markitdown_server.Prelude.Int.{ℤ, pos, negsuc, ltb_ℤ}
use markitdown_server.Storage.{Codec, Manifest, get_manifest, get_page}
use markitdown_server.Tables.{Job, JobStatus, Document, is_terminal}
use markitdown_server.Jobstore.{Progress, get_job, job_progress}
use markitdown_server.Action.{Action, diverges, ret, ◌>>=◌, call, or_raise}
use markitdown_server.Api.{
  JobView, PageResponse, Reply, answer, document_missing, error_text, http_exception, not_found,
  page_response, read_fetched,
}

-- `job is not None and job["status"] in ("done", "failed")`
abbrev pub terminal_job : Option Job → Option Job
terminal_job none = none
terminal_job (some j) = if is_terminal j.status then some j else none

abbrev pub is_failed : JobStatus → Bool
is_failed JobStatus.failed = true
is_failed _ = false

abbrev pub job_view : Job → Progress → JobView
job_view j progress = record {
  job_id = j.job_id;
  status = j.status;
  doc_key = j.doc_key;
  progress = progress;
  error = j.error;
  created_at = j.created_at;
  updated_at = j.updated_at;
}

-- `return job`, or the next round of the loop.
abbrev pub after_poll : Action Job → Option Job → Action Job
after_poll next (some j) = ret j
after_poll next none = next

-- `_wait_for_job`, for a number of polls.
unfoldable pub wait_for_job : ℕ → Text → Action Job
wait_for_job zero job_id w = (diverges, w)
wait_for_job (suc polls) job_id w =
    (do
      job ← call (λ t w. (get_job job_id w.db, w))
      after_poll (wait_for_job polls job_id) (terminal_job job))
      w

-- `get_job_endpoint` with `_job_payload`
unfoldable pub get_job_endpoint : Text → Action (Reply JobView)
get_job_endpoint job_id = do
  job ← call (λ t w. (get_job job_id w.db, w))
  elim job [
    | none ↦ ret (http_exception 404 (codes "Job not found"))
    | some j ↦ do
      progress ← call (λ t w. (job_progress j.job_id w.db, w))
      ret (answer (job_view j progress))
  ]

-- `page < 1 or page > manifest["total_pages"]`
abbrev pub is_outside : ℤ → ℕ → Bool
is_outside page total_pages = ltb_ℤ page (pos 1) || ltb_ℤ (pos total_pages) page

module _ (codec : Codec) where
  abbrev pub read_manifest : Text → Action (Option Manifest)
  read_manifest doc_key = do
    manifest ← call (λ t w. (get_manifest codec doc_key w.bucket, w))
    or_raise (read_fetched manifest)

  abbrev pub read_page : Text → ℕ → Action (Option Text)
  read_page doc_key page = do
    content ← call (λ t w. (get_page codec doc_key page w.bucket, w))
    or_raise (read_fetched content)

  unfoldable pub first_page_payload : Text → Manifest → Action (Option PageResponse)
  first_page_payload doc_key manifest = do
    content ← read_page doc_key 1
    ret (elim content [ none ↦ none | some c ↦ some (page_response doc_key 1 manifest c) ])

  -- The rest of `get_page_endpoint` for a page from 1 on.
  abbrev pub serve_page : Text → ℕ → Manifest → Action (Reply PageResponse)
  serve_page doc_id page manifest = do
    content ← read_page doc_id page
    ret (elim content [ none ↦ not_found | some c ↦ answer (page_response doc_id page manifest c) ])

  unfoldable pub get_page_endpoint : Text → ℤ → Action (Reply PageResponse)
  get_page_endpoint doc_id page = do
    manifest ← read_manifest doc_id
    elim manifest [
      | none ↦ ret not_found
      | some m ↦
          if is_outside page m.total_pages
          then ret not_found
          else elim page [ pos n ↦ serve_page doc_id n m | negsuc n ↦ ret not_found ]
    ]

  unfoldable pub completed_job_payload : Job → Action (Reply PageResponse)
  unfolding first_page_payload
  completed_job_payload job =
      if is_failed job.status
      then ret (http_exception 400 (codes "Conversion failed: " ++ error_text job.error))
      else do
        manifest ← read_manifest job.doc_key
        elim manifest [
          | none ↦ ret document_missing
          | some m ↦ do
            payload ← first_page_payload job.doc_key m
            ret (elim payload [ none ↦ document_missing | some p ↦ answer p ])
        ]

  abbrev pub payload_of : Text → Option Manifest → Action (Option PageResponse)
  payload_of doc_key none = ret none
  payload_of doc_key (some manifest) = first_page_payload doc_key manifest

  -- The branch of `submit` for a document that is recorded.
  unfoldable pub cached_payload : Text → Option Document → Action (Option PageResponse)
  unfolding first_page_payload
  cached_payload doc_key none = ret none
  cached_payload doc_key (some d) = do manifest ← read_manifest doc_key; payload_of doc_key manifest
