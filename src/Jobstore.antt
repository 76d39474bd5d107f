-- ===== src/Jobstore.antt =====
-- jobstore.py over the tables of migrations/001_init.sql.
-- Each function of the source is one here: it takes the value of `now()` and the database, and
-- returns the new database. An error that `create_job` raises (a duplicate key) rolls back: `none`.
pub mod Laws
pub mod History
pub mod Assembler
mod Rows
pub mod Invariant
pub mod WellFormed
pub mod Counter
pub mod Once
pub mod Completing
pub mod Outcomes
pub mod Spared
pub mod Documents
pub mod Lasting
pub mod Ended
pub mod Creating
pub mod Fresh
mod Tests
use markitdown_server.Prelude.{
  ℕ, zero, suc, ◌+◌, ◌*◌, ◌-◌, ◌/◌, ◌%◌, Bool, true, false, not, ◌&&◌, ◌||◌, Option, none, some,
  List, [], ◌∷◌, ◌++◌, map, ltb, ◌==◌, if◌then◌else◌, Text, codes, text_eq, length, take, count_if,
  keep_if,
}
use markitdown_server.Prelude.Int.{ℤ, pos, negsuc, ◌-ℤ◌}
use markitdown_server.Sql.{update_where, select_first, returning_first, order_by}
use markitdown_server.Chunker.{PageRange}
use markitdown_server.Tables.{
  Chunk, ChunkStatus, Database, Document, Job, JobStatus, active_job, at_chunk, chunk_already_done,
  exists_row, is_done, is_open, is_queued, is_terminal, job_already_terminal, of_chunk, of_job,
  open_chunk,
}

-- `s.split(":")[-1]`: what stands behind the last colon. `seen` is what has been read since the last one.
unfoldable pub last_part : Text → Text → Text
last_part seen [] = seen
last_part seen (c ∷ s) = last_part (if c == b':' then [] else seen ++ c ∷ []) s

unfoldable pub find_cached_document : Text → Database → Option Document
find_cached_document doc_key db = select_first (λ d. text_eq d.doc_key doc_key) db.documents

-- The row that `record_document` inserts.
unfoldable pub new_document : Text → Text → ℕ → ℕ → ℕ → ℕ → ℕ → ℕ → Document
unfolding last_part
new_document doc_key file_hash total_pages total_chunks total_length page_size ttl_days created =
    record {
      doc_key = doc_key;
      file_hash = file_hash;
      config_fp = last_part [] doc_key;
      total_pages = total_pages;
      total_chunks = total_chunks;
      total_length = total_length;
      page_size = page_size;
      created_at = created;
      expires_at = created + ttl_days * 86400;
    }

-- `INSERT OR REPLACE`: a row with the same key is taken out first.
unfoldable pub record_document : Text → Text → ℕ → ℕ → ℕ → ℕ → ℕ → ℕ → Database → Database
record_document doc_key file_hash total_pages total_chunks total_length page_size ttl_days created
      db =
    record db {
      documents =
          keep_if (λ d. not (text_eq d.doc_key doc_key)) db.documents
          ++ new_document doc_key file_hash total_pages total_chunks total_length page_size ttl_days
              created
            ∷ [];
    }

abbrev pub new_job : Text → Text → Text → Text → ℕ → Bool → ℕ → Job
new_job job_id doc_key file_hash url chunks use_llm timestamp = record {
  job_id = job_id;
  doc_key = doc_key;
  file_hash = file_hash;
  url = url;
  status = JobStatus.queued;
  total_chunks = chunks;
  remaining_chunks = pos chunks;
  use_llm = if use_llm then 1 else 0;
  error = none;
  error_chunk = none;
  created_at = timestamp;
  updated_at = timestamp;
}

abbrev pub new_chunk : Text → ℕ → PageRange → ℕ → Chunk
new_chunk job_id index (start, end) timestamp = record {
  job_id = job_id;
  chunk_index = index;
  start_page = start;
  end_page = end;
  status = ChunkStatus.pending;
  attempts = 0;
  available_at = timestamp;
  lease_owner = none;
  s3_key = none;
  last_error = none;
  updated_at = timestamp;
}

-- The `for` loop of `create_job`, from a chunk index on; `none` is a breach of UNIQUE (job_id, chunk_index).
unfoldable pub insert_chunks : Text → ℕ → List PageRange → ℕ → List Chunk → Option (List Chunk)
insert_chunks job_id index [] timestamp rows = some rows
insert_chunks job_id index (r ∷ ranges) timestamp rows =
    let rest =
      insert_chunks job_id (index + 1) ranges timestamp
        (rows ++ new_chunk job_id index r timestamp ∷ []) in
    if exists_row (at_chunk job_id index) rows then none else rest

unfoldable pub create_job :
    Text → Text → Text → Text → List PageRange → Bool → ℕ → Database → Option Database
unfolding insert_chunks
create_job job_id doc_key file_hash url ranges use_llm timestamp db =
    if exists_row (of_job job_id) db.jobs
    then none
    else elim (insert_chunks job_id 0 ranges timestamp db.chunks) [
      | none ↦ none
      | some rows ↦ some (record db {
        jobs =
            db.jobs ++ new_job job_id doc_key file_hash url (length ranges) use_llm timestamp ∷ [];
        chunks = rows;
      })
    ]

unfoldable pub get_job : Text → Database → Option Job
get_job id db = select_first (of_job id) db.jobs

pub record Progress : Type 0 where
  pub completed : ℤ
  pub total : ℕ
  pub percent : ℤ

-- Python's `round(a / b)`: to the nearest, a tie to the even neighbour.
abbrev pub round_div : ℕ → ℕ → ℕ
round_div a b =
    let q = a / b in
    let twice = 2 * (a % b) in
    if ltb twice b then q else if ltb b twice then q + 1 else if q % 2 == 0 then q else q + 1

-- `round(100 * completed / total) if total else 0`; a tie rounds the same on both sides of zero.
abbrev pub percent_of : ℤ → ℕ → ℤ
percent_of (pos completed) zero = pos 0
percent_of (pos completed) (suc n) = pos (round_div (100 * completed) (suc n))
percent_of (negsuc completed) zero = pos 0
percent_of (negsuc completed) (suc n) = pos 0 -ℤ pos (round_div (100 * suc completed) (suc n))

unfoldable pub job_progress : Text → Database → Progress
unfolding get_job
job_progress id db = elim (get_job id db) [
  | none ↦ record { completed = pos 0; total = 0; percent = pos 0 }
  | some job ↦
      let completed = pos job.total_chunks -ℤ job.remaining_chunks in
      record {
        completed = completed;
        total = job.total_chunks;
        percent = percent_of completed job.total_chunks;
      }
]

abbrev pub set_done : ℕ → Job → Job
set_done now j = record j { status = JobStatus.done; updated_at = now }

unfoldable pub finish_job : Text → ℕ → Database → Database
finish_job id now db = record db { jobs = update_where (of_job id) (set_done now) db.jobs }

abbrev pub set_failed : Text → Option ℕ → ℕ → Job → Job
set_failed error chunk_index now j = record j {
  status = JobStatus.failed;
  error = some (take 2000 error);
  error_chunk = chunk_index;
  updated_at = now;
}

unfoldable pub fail_job : Text → Text → Option ℕ → ℕ → Database → Database
fail_job id error chunk_index now db = record db {
  jobs = update_where (active_job id) (set_failed error chunk_index now) db.jobs;
}

abbrev pub set_running : Text → ℕ → ℕ → Chunk → Chunk
set_running owner attempt now c = record c {
  status = ChunkStatus.running;
  lease_owner = some owner;
  attempts = attempt;
  updated_at = now;
}

-- The two statements of `start_chunk`, each a transaction of its own.
unfoldable pub start_chunk_row : Text → ℕ → Text → ℕ → ℕ → Database → Database
start_chunk_row id index owner attempt now db = record db {
  chunks = update_where (open_chunk id index) (set_running owner attempt now) db.chunks;
}

unfoldable pub start_job_row : Text → ℕ → Database → Database
start_job_row id now db = record db {
  jobs =
      update_where (λ j. of_job id j && is_queued j.status)
        (λ j. record j { status = JobStatus.running; updated_at = now }) db.jobs;
}

unfoldable pub start_chunk : Text → ℕ → Text → ℕ → ℕ → Database → Database
unfolding start_chunk_row start_job_row
start_chunk id index owner attempt timestamp db =
    start_job_row id timestamp (start_chunk_row id index owner attempt timestamp db)

-- The WHERE clause of `fail_chunk` does not ask for the status.
unfoldable pub fail_chunk : Text → ℕ → Text → ℕ → Database → Database
fail_chunk id index error now db = record db {
  chunks =
      update_where (at_chunk id index)
        (λ c. record c {
          status = ChunkStatus.failed;
          lease_owner = none;
          last_error = some (take 2000 error);
          updated_at = now;
        })
        db.chunks;
}

unfoldable pub reschedule_chunk : Text → ℕ → Text → ℕ → Database → Database
reschedule_chunk id index error now db = record db {
  chunks =
      update_where (open_chunk id index)
        (λ c. record c {
          status = ChunkStatus.pending;
          lease_owner = none;
          last_error = some (take 2000 error);
          updated_at = now;
        })
        db.chunks;
}

abbrev pub set_completed : Text → ℕ → Chunk → Chunk
set_completed s3_key now c = record c {
  status = ChunkStatus.done;
  s3_key = some s3_key;
  lease_owner = none;
  last_error = none;
  updated_at = now;
}

abbrev pub count_down : ℕ → Job → Job
count_down now j = record j {
  remaining_chunks = j.remaining_chunks -ℤ pos 1;
  status = JobStatus.running;
  updated_at = now;
}

-- The first UPDATE, `changes()`, and the second UPDATE with its RETURNING rows, in one transaction.
-- Each of the three returns leaves the `with` block normally, so the transaction is committed.
unfoldable pub complete_chunk : Text → ℕ → Text → ℕ → Database → ℤ × Database
complete_chunk id index s3_key timestamp db =
    let marked = record db {
      chunks = update_where (open_chunk id index) (set_completed s3_key timestamp) db.chunks;
    } in
    if count_if (open_chunk id index) db.chunks == 0
    then (chunk_already_done, marked)
    else let counted = record marked {
      jobs = update_where (active_job id) (count_down timestamp) db.jobs;
    } in
      elim (returning_first (active_job id) (count_down timestamp) db.jobs) [
        | none ↦ (job_already_terminal, counted)
        | some j ↦ (j.remaining_chunks, counted)
      ]

unfoldable pub chunk_indices : Text → Database → List ℕ
chunk_indices id db = order_by (map (λ c. c.chunk_index) (keep_if (of_chunk id) db.chunks))
