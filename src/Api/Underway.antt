-- ===== src/Api/Underway.antt =====
-- The tasks that `submit` of api/index.py publishes, and the tables that they find.
use markitdown_server.Prelude.{
  ℕ, suc, ◌+◌, ◌≤◌, ◌<◌, ◌≡◌, refl, ap, sym, ◌∙◌, inl, inr, Bool, false, List, [], ◌∷◌, ◌++◌, Text,
  All, All-map, length, arith,
}
use markitdown_server.Chunker.{PageRange}
use markitdown_server.Storage.{Bytes, Codec}
use markitdown_server.Taskqueue.{ChunkTask}
use markitdown_server.Tables.{Database, exists_row, of_job, of_chunk}
use markitdown_server.Jobstore.{new_job}
use markitdown_server.Jobstore.Creating.{new_chunks}
use markitdown_server.Jobstore.Invariant.{WellFormed}
use markitdown_server.Jobstore.Fresh.{
  indices_from, fresh-WellFormed, get_job-fresh, is_open-fresh, chunk_indices-fresh, open-fresh,
}
use markitdown_server.Action.{World}
use markitdown_server.Worker.{Config, Tools}
use markitdown_server.Worker.Passing.{Passing}
use markitdown_server.Worker.Converting.{HasSource, conversion}
use markitdown_server.Worker.Pipeline.{Awaits, AreDistinct, Underway}
use markitdown_server.Api.Submit.{chunk_tasks}

module _ (id key hash : Text) (total : ℕ) (llm : Bool) where
  -- The tasks that `submit` publishes for the ranges from an index on.
  abbrev pub first_tasks : ℕ → List PageRange → List ChunkTask
  first_tasks index ranges = chunk_tasks id key hash total llm index ranges

  length-first_tasks :
      (index : ℕ) (ranges : List PageRange) → length (first_tasks index ranges) ≡ length ranges
  unfolding chunk_tasks
  length-first_tasks index [] = refl
  length-first_tasks index ((start, end) ∷ ranges) = ap suc (length-first_tasks (index + 1) ranges)

  between :
      (index : ℕ) (ranges : List PageRange) (first last : ℕ)
      → first ≤ index
      → index + length ranges ≤ last
      → All (λ u. (first ≤ u.chunk_index) × (u.chunk_index < last)) (first_tasks index ranges)
  unfolding chunk_tasks
  between index [] first last h k = tt
  between index ((start, end) ∷ ranges) first last h k =
      ((h, omega arith), between (index + 1) ranges first last (omega arith) (omega arith))

  distinct : (index : ℕ) (ranges : List PageRange) → AreDistinct (first_tasks index ranges)
  unfolding chunk_tasks
  distinct index [] = tt
  distinct index ((start, end) ∷ ranges) = (
    All-map (first_tasks (index + 1) ranges) (λ u within e. absurd (omega arith))
        (between (index + 1) ranges (index + 1) (index + 1 + length ranges) (omega arith)
          (omega arith)),
    distinct (index + 1) ranges,
  )

  own :
      (index : ℕ) (ranges : List PageRange)
      → All
          (λ u. (u.job_id ≡ id) × (u.doc_key ≡ key) × (u.file_hash ≡ hash))
          (first_tasks index ranges)
  unfolding chunk_tasks
  own index [] = tt
  own index ((start, end) ∷ ranges) = ((refl, refl, refl), own (index + 1) ranges)

  awaited :
      (index : ℕ) (ranges : List PageRange) (ts : List ChunkTask)
      → ((i : ℕ) → Awaits i (first_tasks index ranges) → Awaits i ts)
      → All (λ i. Awaits i ts) (indices_from index ranges)
  unfolding chunk_tasks
  awaited index [] ts h = tt
  awaited index ((start, end) ∷ ranges) ts h =
      (h index (inl refl), awaited (index + 1) ranges ts (λ i a. h i (inr a)))

  module _ (config : Config) (codec : Codec) (tools : Tools) (content : Bytes) (texts : ℕ → Text)
      (url : Text) (ranges : List PageRange) (t : ℕ) (db : Database) (v : World) where
    -- A job that has just been created is under way with all of its tasks.
    pub fresh-Underway :
        Passing v
        → WellFormed db
        → exists_row (of_job id) db.jobs ≡ false
        → exists_row (of_chunk id) db.chunks ≡ false
        → total ≡ length ranges
        → v.db ≡ record db {
          jobs = db.jobs ++ new_job id key hash url (length ranges) llm t ∷ [];
          chunks = db.chunks ++ new_chunks id 0 ranges t;
        }
        → All (λ u. conversion tools content u ≡ inl (texts u.chunk_index)) (first_tasks 0 ranges)
        → HasSource config hash content v
        → Underway config codec tools content texts id key hash (first_tasks 0 ranges) v
    fresh-Underway fine well no_job no_chunks counted same converts source = record {
      fine = fine;
      well = rw same (fresh-WellFormed id t key hash url ranges llm db no_job no_chunks well);
      job = new_job id key hash url (length ranges) llm t;
      has_job = rw same (get_job-fresh id t key hash url ranges llm db no_job no_chunks);
      active = refl;
      same_id = refl;
      same_key = refl;
      left = rw same (
          is_open-fresh id t key hash url ranges llm db no_job no_chunks well
          ∙ sym (length-first_tasks 0 ranges));
      each_open =
          All-map (first_tasks 0 ranges)
            (λ u within.
              rw same (
                open-fresh id t key hash url ranges llm db no_job no_chunks u.chunk_index within.1))
            (between 0 ranges 0 (length ranges) (omega arith) (omega arith));
      distinct = distinct 0 ranges;
      own = own 0 ranges;
      converts = converts;
      parts =
          rw (same, chunk_indices-fresh id t key hash url ranges llm db no_job no_chunks)
            (All-map (indices_from 0 ranges) (λ i a. inr a)
              (awaited 0 ranges (first_tasks 0 ranges) (λ i a. a)));
      source = source;
    }
