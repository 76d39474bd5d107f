-- ===== src/Api.antt =====
-- api/index.py: the settings, the requests and the replies of the API, and `verify_api_key`. The operations are in Pages
-- (reading), Submit (submitting) and Endpoints.
-- `Outside` bundles what the endpoints use of other code: requests' answer to a URL
-- (`respond`; `none` where the server never finishes, as `requests.get` is given no timeout), which exceptions are botocore's ClientErrors, sha256, the codecs and pypdf.
-- FastAPI's routing and the log are left out.
pub mod Pages
pub mod Submit
pub mod Endpoints
pub mod Steps
pub mod Posting
pub mod Announcing
pub mod Submitting
pub mod Caching
pub mod Underway
pub mod Delivered
pub mod Waiting
pub mod Serving
pub mod Refusing
pub mod Resubmitting
mod Tests
use markitdown_server.Prelude.{
  ℕ, zero, suc, ◌+◌, Bool, true, false, not, ◌&&◌, ◌||◌, Option, none, some, List, [], ◌∷◌, ◌++◌,
  ◌⊎◌, inl, inr, if◌then◌else◌, Text, codes, text_eq, length,
}
use markitdown_server.Prelude.Int.{ℤ, pos, negsuc, ltb_ℤ}
use markitdown_server.Chunker.{PageRange, Plan, planned, value_error, page_count, plan_chunks}
use markitdown_server.Pagination.{Pagination, build_pagination, is_empty}
use markitdown_server.Storage.{
  Bytes, Codec, Manifest, Fetched, found, missing, undecodable, exists, source_key, get_manifest,
  get_page,
}
use markitdown_server.Storage.Fingerprint.{Hash, Conversion, hash_file, make_doc_key}
use markitdown_server.Taskqueue.{Settings, TaskCodec, ChunkTask, publish}
use markitdown_server.Tables.{Job, JobStatus, Document, Database, is_terminal}
use markitdown_server.Jobstore.{Progress, create_job, get_job, job_progress, find_cached_document}
use markitdown_server.Jobstore.History.{or_unchanged}
use markitdown_server.Action.{
  Error, World, Action, Result, diverges, ret, raise, ◌>>=◌, ◌>>◌, try_except, call,
  publish_messages, or_raise,
}
use markitdown_server.Converter.{Response, Downloaded, download}
use markitdown_server.Worker.{Tools, put_object, no_such_file, undecodable_error}

pub record Service : Type 0 where
  pub admin_api_key : Option Text
  pub convert_use_llm : Bool
  pub broker : Settings
  pub conversion : Conversion
  pub max_download_bytes : ℕ

pub record Outside : Type 1 where
  pub codec : Codec
  pub tasks : TaskCodec
  pub tools : Tools
  pub hash : Hash
  pub markitdown_version : Option Text
  pub respond : Text → Option (Response ⊎ Error)
  pub is_client_error : Error → Bool

-- What an endpoint returns, or the HTTPException that it raises.
pub data Reply (A : Type 0) : Type 0 where
  answer : A → Reply A
  http_exception : ℕ → Text → Reply A

pub record ConvertRequest : Type 0 where
  pub file : Option Text
  pub use_llm : Option Bool

pub record PageResponse : Type 0 where
  pub id : Text
  pub content : Text
  pub pagination : Pagination

pub record JobAccepted : Type 0 where
  pub job_id : Text
  pub status : JobStatus
  pub doc_key : Text
  pub total_chunks : ℕ

pub record JobView : Type 0 where
  pub job_id : Text
  pub status : JobStatus
  pub doc_key : Text
  pub progress : Progress
  pub error : Option Text
  pub created_at : ℕ
  pub updated_at : ℕ

-- What `submit` returns.
pub data Submission : Type 0 where
  cached : PageResponse → Submission
  accepted : Text → Text → ℕ → Submission

-- The value that a read of the bucket returns, `None` included, or what it raises.
abbrev pub read_fetched : {A : Type 0} → Fetched A → Option A ⊎ Error
read_fetched (found a) = inl (some a)
read_fetched missing = inl none
read_fetched undecodable = inr undecodable_error

abbrev pub page_response : Text → ℕ → Manifest → Text → PageResponse
page_response doc_key page manifest content = record {
  id = doc_key;
  content = content;
  pagination =
      build_pagination doc_key page manifest.total_pages manifest.total_length manifest.page_size;
}

-- `f"{job['error']}"`
abbrev pub error_text : Option Text → Text
error_text none = codes "None"
error_text (some e) = e

abbrev pub on_answer : {A B : Type 0} → Reply A → (A → Action (Reply B)) → Action (Reply B)
on_answer (answer a) k = k a
on_answer (http_exception status detail) k = ret (http_exception status detail)

-- `verify_api_key`: the header against ADMIN_API_KEY.
unfoldable pub verify_api_key : Option Text → Option Text → Reply Text
verify_api_key none header = http_exception 500 (codes "API key not configured on server")
verify_api_key (some []) header = http_exception 500 (codes "API key not configured on server")
verify_api_key (some (c ∷ s)) none = http_exception 401 (codes "Invalid API key")
verify_api_key (some (c ∷ s)) (some key) =
    if text_eq key (c ∷ s) then answer key else http_exception 401 (codes "Invalid API key")

-- An endpoint behind `Depends(verify_api_key)`.
abbrev pub guarded : {A : Type 0} → Service → Option Text → Action (Reply A) → Action (Reply A)
guarded service header endpoint =
    on_answer (verify_api_key service.admin_api_key header) (λ key. endpoint)

abbrev pub not_found : {A : Type 0} → Reply A
not_found = http_exception 404 (codes "Document or page not found (it may have expired).")

abbrev pub document_missing : {A : Type 0} → Reply A
document_missing = http_exception 500 (codes "Converted document is missing")
