-- ===== src/Jobstore/Creating.antt =====
-- jobstore.py's `create_job` for a job id that no row has.
use markitdown_server.Prelude.{
  ℕ, ◌≡◌, refl, Bool, false, some, List, [], ◌∷◌, ◌++◌, Text, arith, length,
}
use markitdown_server.Chunker.{PageRange}
use markitdown_server.Tables.{Chunk, Database, at_chunk, of_job, of_chunk, exists_row}
use markitdown_server.Jobstore.{create_job, new_job}
pub use markitdown_server.Jobstore.Rows.{new_chunks}
use markitdown_server.Jobstore.Rows.{insert_chunks-fresh, new_chunks}

module _ (id : Text) (timestamp : ℕ) where
  no_chunk :
      (rows : List Chunk) (i : ℕ)
      → exists_row (of_chunk id) rows ≡ false
      → exists_row (at_chunk id i) rows ≡ false
  no_chunk [] i h = refl
  no_chunk (c ∷ rows) i h = ground (arith, no_chunk rows i)

  -- For an id that no job and no chunk has, `create_job` returns, and has added the job's row and one row for each range.
  pub create_job-fresh :
      (doc_key file_hash url : Text) (ranges : List PageRange) (use_llm : Bool) (db : Database)
      → exists_row (of_job id) db.jobs ≡ false
      → exists_row (of_chunk id) db.chunks ≡ false
      → create_job id doc_key file_hash url ranges use_llm timestamp db
        ≡ some (record db {
          jobs = db.jobs ++ new_job id doc_key file_hash url (length ranges) use_llm timestamp ∷ [];
          chunks = db.chunks ++ new_chunks id 0 ranges timestamp;
        })
  unfolding create_job
  create_job-fresh doc_key file_hash url ranges use_llm db no_job no_chunks =
      rw
        (
          no_job,
          insert_chunks-fresh id timestamp 0 ranges db.chunks
              (λ i le. no_chunk db.chunks i no_chunks),
        )
        refl
