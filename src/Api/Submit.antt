-- ===== src/Api/Submit.antt =====
-- api/index.py: `submit`, cut where it branches into submit_file, submit_new and enqueue, and `_submit_request`.
-- The id of the job that it makes is an argument (Python draws a random UUID).
use markitdown_server.Prelude.{
  ℕ, ◌+◌, Bool, true, false, Option, none, some, List, [], ◌∷◌, ◌++◌, ◌⊎◌, inl, inr, if◌then◌else◌,
  Text, codes, length,
}
use markitdown_server.Chunker.{PageRange, Plan, planned, value_error, page_count, plan_chunks}
use markitdown_server.Storage.{Bytes, exists, source_key}
use markitdown_server.Storage.Fingerprint.{hash_file, make_doc_key}
use markitdown_server.Taskqueue.{ChunkTask, publish}
use markitdown_server.Tables.{Database}
use markitdown_server.Jobstore.{create_job, find_cached_document}
use markitdown_server.Jobstore.History.{or_unchanged}
use markitdown_server.Action.{
  Error, Action, ret, raise, ◌>>=◌, ◌>>◌, try_except, call, publish_messages, or_raise,
}
use markitdown_server.Converter.{Downloaded, download}
use markitdown_server.Worker.{put_object, no_such_file, or_diverges}
use markitdown_server.Api.{
  ConvertRequest, Outside, Reply, Service, Submission, accepted, answer, cached, http_exception,
}
use markitdown_server.Api.Pages.{cached_payload}

-- The file at the path that `download` returns.
abbrev pub downloaded_file : Downloaded → Bytes ⊎ Error
downloaded_file d = elim d.raised [
  | some e ↦ inr e
  | none ↦ elim d.temp_file [ none ↦ inr no_such_file | some content ↦ inl content ]
]

abbrev pub integrity_error : Error
integrity_error = record {
  type_name = codes "IntegrityError";
  message = codes "UNIQUE constraint failed";
}

abbrev pub planned_ranges : Plan → List PageRange ⊎ Error
planned_ranges (planned ranges) = inl ranges
planned_ranges (value_error s) = inr (record { type_name = codes "ValueError"; message = s })

abbrev pub is_created : Option Database → Bool
is_created none = false
is_created (some db) = true

-- The comprehension over `enumerate(ranges)`, from an index on.
unfoldable pub chunk_tasks : Text → Text → Text → ℕ → Bool → ℕ → List PageRange → List ChunkTask
chunk_tasks job_id doc_key file_hash total use_llm index [] = []
chunk_tasks job_id doc_key file_hash total use_llm index ((start, end) ∷ ranges) =
    record {
      job_id = job_id;
      chunk_index = index;
      doc_key = doc_key;
      file_hash = file_hash;
      start_page = start;
      end_page = end;
      total_chunks = total;
      use_llm = use_llm;
      attempt = 1;
    }
    ∷ chunk_tasks job_id doc_key file_hash total use_llm (index + 1) ranges

-- `except ClientError: return False`
abbrev pub not_there : (Error → Bool) → Error → Action Bool
not_there is_client_error e = if is_client_error e then ret false else raise e

-- `storage.put_source`, with its two requests
abbrev pub send_source : (Error → Bool) → Text → Bytes → Action Unit
send_source is_client_error file_hash content = do
  there ←
      try_except (call (λ t w. (exists (source_key file_hash) w.bucket, w)))
        (not_there is_client_error)
  if there then ret tt else put_object (source_key file_hash) content

-- `jobstore.create_job`; a breach of a key raises.
abbrev pub insert_job : Text → Text → Text → Text → List PageRange → Bool → Action Bool
insert_job job_id doc_key file_hash url ranges use_llm = call (λ t w.
    let created = create_job job_id doc_key file_hash url ranges use_llm t w.db in
    (is_created created, record w { db = or_unchanged w.db created }))

module _ (service : Service) (outside : Outside) where
  open outside use {codec, tasks, tools, hash, markitdown_version, respond, is_client_error}

  abbrev pub download_source : Text → Action Bytes
  download_source url = do
    response ← call (λ t w. (respond url, w))
    answered ← or_diverges response
    opened ← or_raise answered
    or_raise (downloaded_file (download url service.max_download_bytes opened))

  -- Creating the job and publishing its tasks.
  unfoldable pub enqueue : Text → Text → Text → Text → List PageRange → Bool → Action Submission
  enqueue job_id doc_key file_hash url ranges use_llm = do
    created ← insert_job job_id doc_key file_hash url ranges use_llm
    if created then ret tt else raise integrity_error
    publish_messages tools.is_amqp_error (
        publish service.broker tasks
          (chunk_tasks job_id doc_key file_hash (length ranges) use_llm 0 ranges))
    ret (accepted job_id doc_key (length ranges))

  -- What `submit` does when the cache does not serve the document.
  unfoldable pub submit_new : Text → Text → Text → Text → Bool → Bytes → Action Submission
  unfolding enqueue
  submit_new job_id doc_key file_hash url use_llm content = do
    ranges ← or_raise (
        planned_ranges (
          plan_chunks (page_count tools.read_pages content) service.conversion.pages_per_chunk
            service.conversion.min_pages))
    send_source is_client_error file_hash content
    enqueue job_id doc_key file_hash url ranges use_llm

  abbrev pub file_hash_of : Bytes → Text
  file_hash_of content = hash_file hash 1048576 content

  abbrev pub doc_key_of : Bytes → Bool → Text
  doc_key_of content use_llm =
      make_doc_key hash codec.encode service.conversion markitdown_version (file_hash_of content)
        use_llm

  -- What `submit` does with the file that it has downloaded.
  unfoldable pub submit_file : Text → Text → Bool → Bytes → Action Submission
  unfolding submit_new
  submit_file job_id url use_llm content = do
    document ← call (λ t w. (find_cached_document (doc_key_of content use_llm) w.db, w))
    payload ← cached_payload codec (doc_key_of content use_llm) document
    elim payload [
      | some p ↦ ret (cached p)
      | none ↦
          submit_new job_id (doc_key_of content use_llm) (file_hash_of content) url use_llm content
    ]

  unfoldable pub submit : Text → Text → Bool → Action Submission
  submit job_id url use_llm = do
    content ← download_source url
    submit_file job_id url use_llm content

  abbrev pub default_llm : Option Bool → Bool
  default_llm none = service.convert_use_llm
  default_llm (some b) = b

  abbrev pub file_required : {A : Type 0} → Reply A
  file_required = http_exception 422 (codes "`file` (a URL) is required")

  -- `except Exception as exc: raise HTTPException(…)`
  abbrev pub submit_url : Text → Text → Bool → Action (Reply Submission)
  submit_url job_id url use_llm =
      try_except (submit job_id url use_llm >>= λ s. ret (answer s))
        (λ e. ret (http_exception 400 (codes "Error processing URL: " ++ e.message)))

  -- `_submit_request` by the file of the request, where `not request.file` refuses `None` and the empty text.
  abbrev pub submit_checked : Text → Bool → Option Text → Action (Reply Submission)
  submit_checked job_id use_llm none = ret file_required
  submit_checked job_id use_llm (some []) = ret file_required
  submit_checked job_id use_llm (some (c ∷ url)) = submit_url job_id (c ∷ url) use_llm

  unfoldable pub submit_request : Text → Option ConvertRequest → Action (Reply Submission)
  unfolding submit
  submit_request job_id none = ret file_required
  submit_request job_id (some request) =
      submit_checked job_id (default_llm request.use_llm) request.file
