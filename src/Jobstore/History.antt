-- ===== src/Jobstore/History.antt =====
-- Histories of the database: the transactions that any number of producers and workers commit, one after
-- another, in any order and with any arguments. A call carries the value of `now()` that it read.
use markitdown_server.Prelude.{
  ℕ, Bool, false, Option, none, some, List, [], ◌∷◌, Text, text_eq, ◌&&◌, ◌+◌, if◌then◌else◌,
}
use markitdown_server.Prelude.Int.{pos, eq_ℤ}
use markitdown_server.Chunker.{PageRange}
use markitdown_server.Tables.{Database}
use markitdown_server.Jobstore.{
  create_job, start_chunk_row, start_job_row, complete_chunk, fail_chunk, reschedule_chunk,
  fail_job, finish_job, record_document,
}

-- The writing calls of jobstore.py, at the grain of its transactions: `start_chunk` makes two.
pub data Call : Type 0 where
  create : Text → Text → Text → Text → List PageRange → Bool → Call
  start_row : Text → ℕ → Text → ℕ → Call
  start_job : Text → Call
  complete : Text → ℕ → Text → Call
  fail_row : Text → ℕ → Text → Call
  reschedule : Text → ℕ → Text → Call
  fail : Text → Text → Option ℕ → Call
  finish : Text → Call
  record_doc : Text → Text → ℕ → ℕ → ℕ → ℕ → ℕ → Call

-- A `create_job` that raises has changed nothing.
abbrev pub or_unchanged : Database → Option Database → Database
or_unchanged db none = db
or_unchanged db (some db') = db'

unfoldable pub commit : Call → ℕ → Database → Database
commit (create id key hash url ranges llm) now db =
    or_unchanged db (create_job id key hash url ranges llm now db)
commit (start_row id index owner attempt) now db = start_chunk_row id index owner attempt now db
commit (start_job id) now db = start_job_row id now db
commit (complete id index s3_key) now db = (complete_chunk id index s3_key now db).1
commit (fail_row id index error) now db = fail_chunk id index error now db
commit (reschedule id index error) now db = reschedule_chunk id index error now db
commit (fail id error index) now db = fail_job id error index now db
commit (finish id) now db = finish_job id now db
commit (record_doc key hash pages chunks len size ttl) now db =
    record_document key hash pages chunks len size ttl now db

abbrev pub History : Type 0
History = List (Call × ℕ)

unfoldable pub run : History → Database → Database
run [] db = db
run ((c, now) ∷ h) db = run h (commit c now db)

-- Whether a call is a completion of the job that returned 0, which makes its caller the assembler.
unfoldable pub assembles : Text → Call → ℕ → Database → Bool
assembles job (complete id index s3_key) now db =
    text_eq id job && eq_ℤ (complete_chunk id index s3_key now db).0 (pos 0)
assembles job _ now db = false

-- How many calls of a history made their caller the assembler of the job.
unfoldable pub assemblies : Text → History → Database → ℕ
assemblies job [] db = 0
assemblies job ((c, now) ∷ h) db =
    (if assembles job c now db then 1 else 0) + assemblies job h (commit c now db)
