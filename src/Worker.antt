-- ===== src/Worker.antt =====
-- worker.py: handling one delivered chunk, and assembling a finished document.
-- `Tools` stands for pypdf, markitdown and the classes of pika's exceptions. The temporary files of `convert_range` and the log are left out.
pub mod Steps
pub mod Effects
pub mod Passing
pub mod Converting
pub mod Recording
pub mod Pipeline
pub mod Repeating
pub mod Pending
pub mod Reordering
pub mod Delivery
pub mod Delivering
pub mod Delivered
pub mod Failures
pub mod Rescuing
pub mod Assembly
pub mod Redelivery
pub mod Tests
pub mod Ending
pub mod Running
use markitdown_server.Prelude.{
  ℕ, zero, suc, ◌+◌, Bool, true, false, not, ◌&&◌, ◌||◌, Option, none, some, List, [], ◌∷◌, ◌++◌,
  ◌⊎◌, inl, inr, keep_if, leb, ◌==◌, if◌then◌else◌, Text, codes, length, is_space,
}
use markitdown_server.Prelude.Int.{ℤ, pos, negsuc, eq_ℤ}
use markitdown_server.Chunker.{extract_pages}
use markitdown_server.Pagination.{newline, is_empty, paginate}
use markitdown_server.Storage.{
  Bytes, Bucket, Codec, Fetched, found, missing, undecodable, decimal, get_bytes, put_bytes,
  source_key, part_key, page_key, manifest_key, manifest_of, put_part, get_part,
}
use markitdown_server.Taskqueue.{
  Settings, TaskCodec, ChunkTask, Message, publish_retry, publish_failed,
}
use markitdown_server.Converter.{convert_file}
use markitdown_server.Cache.{Cache, CacheFile, Directory, cached, touch, store_source}
use markitdown_server.Tables.{Job, Database, is_terminal}
use markitdown_server.Jobstore.{
  get_job, start_chunk_row, start_job_row, complete_chunk, fail_chunk, fail_job, reschedule_chunk,
  finish_job, record_document, chunk_indices,
}
use markitdown_server.Action.{
  Error, CallOutcome, World, Result, returned, raised, diverges, Action, ret, raise, ◌>>=◌, ◌>>◌,
  try_except, call, statement, publish_messages, or_raise,
}

pub record Config : Type 0 where
  pub broker : Settings
  pub page_size : ℕ
  pub document_ttl_days : ℕ
  pub source_cache_max_bytes : ℕ
  pub consumer_name : Text

-- `PdfReader(...).pages`, writing some pages to a file, markitdown's conversion of a file with the client of OpenAI or without,
-- the value of OPENAI_API_KEY, and which exceptions are pika's AMQPErrors.
pub record Tools : Type 1 where
  pub Page : Type 0
  pub read_pages : Bytes → List Page ⊎ Error
  pub write_pages : List Page → Bytes
  pub markitdown : Bool → Bytes → Text ⊎ Error
  pub openai_api_key : Text
  pub is_amqp_error : Error → Bool
  pub directory : Directory

-- `f"{type(exc).__name__}: {exc}"`
abbrev pub describe : Error → Text
describe e = e.type_name ++ (codes ": " ++ e.message)

-- `f"chunk {task.chunk_index} failed after {task.attempt} attempts: {exc}"`
abbrev pub given_up : ChunkTask → Error → Text
given_up task e =
    codes "chunk "
    ++ (decimal task.chunk_index
        ++ (codes " failed after " ++ (decimal task.attempt ++ (codes " attempts: " ++ e.message))))

abbrev pub runtime_error : Text → Error
runtime_error s = record { type_name = codes "RuntimeError"; message = s }

abbrev pub undecodable_error : Error
undecodable_error = record { type_name = codes "UnicodeDecodeError"; message = [] }

abbrev pub not_subscriptable : Error
not_subscriptable = record {
  type_name = codes "TypeError";
  message = codes "'NoneType' object is not subscriptable";
}

abbrev pub client_error : Error
client_error = record { type_name = codes "ClientError"; message = codes "Not Found" }

abbrev pub no_such_file : Error
no_such_file = record { type_name = codes "FileNotFoundError"; message = [] }

-- `part and part.strip()`: some character is not white space.
unfoldable pub has_text : Text → Bool
has_text [] = false
has_text (c ∷ s) = not (is_space c) || has_text s

-- `"\n\n".join(parts)`
unfoldable pub join_parts : List Text → Text
join_parts [] = []
join_parts (p ∷ []) = p
join_parts (p ∷ q ∷ ps) = p ++ newline ∷ newline ∷ join_parts (q ∷ ps)

-- `storage.get_source`
abbrev pub get_source : Text → Action Bytes
get_source file_hash = do
  body ← call (λ t w. (get_bytes (source_key file_hash) w.bucket, w))
  or_raise (elim body [ none ↦ inr client_error | some b ↦ inl b ])

-- The content of the file at the path, when pypdf or markitdown opens it.
abbrev pub open_source : Text → Action Bytes
open_source file_hash w = elim (cached file_hash w.cache) [
  | none ↦ (raised no_such_file, w)
  | some f ↦ (returned f.content, w)
]

abbrev pub put_object : Text → Bytes → Action Unit
put_object key body = call (λ t w. (tt, record w { bucket = put_bytes key body w.bucket }))

abbrev pub or_diverges : {A : Type 0} → Option A → Action A
or_diverges none w = (diverges, w)
or_diverges (some a) w = (returned a, w)

-- What `assemble` makes of the parts.
abbrev pub markdown_of : List Text → Text
markdown_of parts = join_parts (keep_if has_text parts)

module _ (config : Config) (codec : Codec) (tasks : TaskCodec) (tools : Tools) where
  open tools use {directory, read_pages, write_pages, markitdown, openai_api_key, is_amqp_error}

  abbrev pub fetch_new : Text → Action Unit
  fetch_new file_hash = do
    content ← get_source file_hash
    call (λ t w. (
      tt,
      record w {
        cache = store_source directory config.source_cache_max_bytes file_hash t content w.cache;
      },
    ))

  -- `fetch_source`; the path that it returns is that of the hash.
  unfoldable pub fetch_source : Text → Action Unit
  fetch_source file_hash w = elim (cached file_hash w.cache) [
    | none ↦ fetch_new file_hash w
    | some f ↦ call (λ t w'. (tt, record w' { cache = touch file_hash t w'.cache })) w
  ]

  unfoldable pub convert_range : Text → ℕ → ℤ → Bool → Action Text
  unfolding fetch_source
  convert_range file_hash start end use_llm = do
    fetch_source file_hash
    source ← open_source file_hash
    if eq_ℤ end (negsuc 0)
        then or_raise (convert_file openai_api_key markitdown source use_llm)
        else do
          pages ← or_raise (read_pages source)
          or_raise (
              convert_file openai_api_key markitdown
                (write_pages (extract_pages pages (start, end))) use_llm)

  -- The `for` loop of `assemble`.
  unfoldable pub fetch_parts : Text → List ℕ → Action (List Text)
  fetch_parts doc_key [] = ret []
  fetch_parts doc_key (index ∷ indices) = do
    part ← call (λ t w. (get_part codec doc_key index w.bucket, w))
    text ← or_raise (elim part [
      | found s ↦ inl s
      | missing ↦
          inr (runtime_error (codes "chunk " ++ (decimal index ++ codes " missing from storage")))
      | undecodable ↦ inr undecodable_error
    ])
    rest ← fetch_parts doc_key indices
    ret (text ∷ rest)

  -- `storage.put_document`, a request for each page and one for the manifest.
  unfoldable pub send_pages : Text → ℕ → List Text → Action Unit
  send_pages doc_key index [] = ret tt
  send_pages doc_key index (page ∷ pages) = do
    put_object (page_key doc_key index) (codec.encode page)
    send_pages doc_key (index + 1) pages

  abbrev pub send_document : Text → List Text → ℕ → Action Unit
  send_document doc_key pages total_length = do
    send_pages doc_key 1 pages
    put_object (manifest_key doc_key)
        (codec.dumps (manifest_of codec doc_key pages total_length config.page_size))

  unfoldable pub assemble : Job → Action Unit
  unfolding fetch_parts
  assemble job = do
    indices ← call (λ t w. (chunk_indices job.job_id w.db, w))
    parts ← fetch_parts job.doc_key indices
    pages ← or_diverges (paginate (markdown_of parts) config.page_size)
    send_document job.doc_key pages (length (markdown_of parts))
    statement (λ t.
        record_document job.doc_key job.file_hash (length pages) job.total_chunks
          (length (markdown_of parts)) config.page_size config.document_ttl_days t)
    statement (finish_job job.job_id)

  -- `_handle_failure`
  unfoldable pub handle_failure : ChunkTask → Error → Action Unit
  handle_failure task e = elim (leb config.broker.max_attempts task.attempt) [
    | true ↦ do
      publish_messages is_amqp_error (publish_failed config.broker tasks task (describe e) ∷ [])
      statement (fail_chunk task.job_id task.chunk_index (describe e))
      statement (fail_job task.job_id (given_up task e) (some task.chunk_index))
    | false ↦ do
      statement (reschedule_chunk task.job_id task.chunk_index (describe e))
      publish_messages is_amqp_error (publish_retry config.broker tasks task ∷ [])
  ]

  -- The body of the first `try`.
  unfoldable pub convert_chunk : ChunkTask → Action Unit
  convert_chunk task = do
    markdown ← convert_range task.file_hash task.start_page task.end_page task.use_llm
    put_object (part_key task.doc_key task.chunk_index) (codec.encode markdown)

  -- `assemble` of what `get_job` returned
  abbrev pub assemble_found : Option Job → Action Unit
  assemble_found none = raise not_subscriptable
  assemble_found (some j) = assemble j

  -- `if remaining == 0:`
  unfoldable pub finish : ChunkTask → ℤ → Action Unit
  finish task remaining =
      if eq_ℤ remaining (pos 0)
      then try_except (call (λ t w. (get_job task.job_id w.db, w)) >>= λ job. assemble_found job)
          (λ e. statement (fail_job task.job_id (codes "assembly failed: " ++ e.message) none))
      else ret tt

  -- What `handle` does once the chunk is stored.
  unfoldable pub record_chunk : ChunkTask → Action Unit
  record_chunk task = do
    remaining ← call (λ t w.
        let completed =
          complete_chunk task.job_id task.chunk_index (part_key task.doc_key task.chunk_index) t
            w.db in
        (completed.0, record w { db = completed.1 }))
    finish task remaining

  -- The rest of `handle` once the job is known to be active.
  unfoldable pub handle_active : ChunkTask → Action Unit
  handle_active task = do
    statement (start_chunk_row task.job_id task.chunk_index config.consumer_name task.attempt)
    statement (start_job_row task.job_id)
    converted ←
        try_except (convert_chunk task >>= λ _. ret true)
          (λ e. handle_failure task e >>= λ _. ret false)
    if converted then record_chunk task else ret tt

  -- `handle`, by the job that `get_job` returned
  abbrev pub handle_found : ChunkTask → Option Job → Action Unit
  handle_found task none = ret tt
  handle_found task (some j) = if is_terminal j.status then ret tt else handle_active task

  unfoldable pub handle : ChunkTask → Action Unit
  handle task = do job ← call (λ t w. (get_job task.job_id w.db, w)); handle_found task job

  -- `on_task`; the liveness file is left out.
  unfoldable pub on_task : ChunkTask → Action Unit
  unfolding handle
  on_task task = try_except (handle task) (λ e. ret tt)
