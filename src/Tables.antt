-- ===== src/Tables.antt =====
-- The tables of migrations/001_init.sql, and the conditions by which jobstore.py selects their rows. A row's autoincremented id
-- and `lease_expires_at`, which no code writes or reads, are left out.
use markitdown_server.Prelude.{
  ℕ, Bool, true, false, not, ◌&&◌, ◌||◌, Option, List, [], ◌∷◌, ◌==◌, Text, text_eq,
}
use markitdown_server.Prelude.Int.{ℤ, negsuc}

pub data JobStatus : Type 0 where
  queued running done failed : JobStatus

pub data ChunkStatus : Type 0 where
  pending running done failed : ChunkStatus

pub record Job : Type 0 where
  pub job_id : Text
  pub doc_key : Text
  pub file_hash : Text
  pub url : Text
  pub status : JobStatus
  pub total_chunks : ℕ
  pub remaining_chunks : ℤ
  pub use_llm : ℕ
  pub error : Option Text
  pub error_chunk : Option ℕ
  pub created_at : ℕ
  pub updated_at : ℕ

pub record Chunk : Type 0 where
  pub job_id : Text
  pub chunk_index : ℕ
  pub start_page : ℕ
  pub end_page : ℤ
  pub status : ChunkStatus
  pub attempts : ℕ
  pub available_at : ℕ
  pub lease_owner : Option Text
  pub s3_key : Option Text
  pub last_error : Option Text
  pub updated_at : ℕ

pub record Document : Type 0 where
  pub doc_key : Text
  pub file_hash : Text
  pub config_fp : Text
  pub total_pages : ℕ
  pub total_chunks : ℕ
  pub total_length : ℕ
  pub page_size : ℕ
  pub created_at : ℕ
  pub expires_at : ℕ

pub record Database : Type 0 where
  pub documents : List Document
  pub jobs : List Job
  pub chunks : List Chunk

abbrev pub job_already_terminal : ℤ
job_already_terminal = negsuc 0

abbrev pub chunk_already_done : ℤ
chunk_already_done = negsuc 1

-- `status IN ('done', 'failed')`
abbrev pub is_terminal : JobStatus → Bool
is_terminal JobStatus.queued = false
is_terminal JobStatus.running = false
is_terminal JobStatus.done = true
is_terminal JobStatus.failed = true

abbrev pub is_queued : JobStatus → Bool
is_queued JobStatus.queued = true
is_queued _ = false

-- `status = 'done'` of a chunk
abbrev pub is_done : ChunkStatus → Bool
is_done ChunkStatus.done = true
is_done _ = false

-- `job_id = ?` on a job, and `job_id = ? AND chunk_index = ?` on a chunk
abbrev pub of_job : Text → Job → Bool
of_job id j = text_eq j.job_id id

abbrev pub at_chunk : Text → ℕ → Chunk → Bool
at_chunk id index c = text_eq c.job_id id && c.chunk_index == index

-- `any(p(x) for x in xs)`
abbrev pub exists_row {ℓ} : {A : Type ℓ} → (A → Bool) → List A → Bool
exists_row p [] = false
exists_row p (x ∷ xs) = p x || exists_row p xs

-- `job_id = ? AND status NOT IN ('done', 'failed')`
abbrev pub active_job : Text → Job → Bool
active_job id j = of_job id j && not (is_terminal j.status)

-- `job_id = ? AND chunk_index = ? AND status <> 'done'`
abbrev pub open_chunk : Text → ℕ → Chunk → Bool
open_chunk id index c = at_chunk id index c && not (is_done c.status)

-- A chunk of a job, and one that is not done.
abbrev pub of_chunk : Text → Chunk → Bool
of_chunk id c = text_eq c.job_id id

abbrev pub is_open : Text → Chunk → Bool
is_open id c = of_chunk id c && not (is_done c.status)
