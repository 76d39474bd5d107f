-- ===== src/Jobstore/Invariant.antt =====
-- The invariant of the tables, and updates that keep it.
use mathlib.Core.Path.{subst}
use markitdown_server.Prelude.{
  ℕ, ◌≤◌, ◌≡◌, ◌∙◌, inl, inr, Bool, true, false, ◌&&◌, Option, none, some, List, count_if,
  Bool-cases, Text,
}
use markitdown_server.Prelude.Int.{pos}
use markitdown_server.Sql.{update_where, select_first, count_if-update_where}
use markitdown_server.Tables.{
  Job, Chunk, Database, is_terminal, is_done, of_job, at_chunk, of_chunk, is_open,
}
use markitdown_server.Jobstore.{get_job}
use markitdown_server.Jobstore.Laws.{HasUniqueJobs, updated, select-updated, count-updated}
use markitdown_server.Jobstore.History.{Call, fail_row}

-- The counter of an active job is the number of its chunks that are not done.
abbrev pub Counted : Text → Option Job → List Chunk → Type 0
Counted id none chunks = count_if (of_chunk id) chunks ≡ 0
Counted id (some j) chunks =
    is_terminal j.status ≡ false → j.remaining_chunks ≡ pos (count_if (is_open id) chunks)

-- The keys of both tables, chunks only of jobs that exist, and counters that are right.
pub record WellFormed (db : Database) : Type 0 where
  pub unique_jobs : HasUniqueJobs db
  pub unique_chunks : (id : Text) (i : ℕ) → count_if (at_chunk id i) db.chunks ≤ 1
  pub counted : (id : Text) → Counted id (get_job id db) db.chunks

-- A call that marks a chunk failed finds it not done already.
abbrev pub IsCareful : Call → Database → Type 0
IsCareful (fail_row id index error) db =
    count_if (λ c. at_chunk id index c && is_done c.status) db.chunks ≡ 0
IsCareful _ db = Unit

-- An update of the chunks that keeps the keys and what is open.
module _ (p : Chunk → Bool) (f : Chunk → Chunk) (db : Database) (w : WellFormed db)
    (keeps : (c : Chunk) → ((f c).job_id ≡ c.job_id) × ((f c).chunk_index ≡ c.chunk_index))
    (same_open : (id : Text)
      → count_if (is_open id) (update_where p f db.chunks) ≡ count_if (is_open id) db.chunks) where
  unique-kept : (id : Text) (i : ℕ) → count_if (at_chunk id i) (update_where p f db.chunks) ≤ 1
  unique-kept id i =
      rw
        (count_if-update_where (at_chunk id i) p f db.chunks (λ c _. rw ((keeps c).0, (keeps c).1)))
        (w.unique_chunks id i)

  rows-kept :
      (id : Text) (o : Option Job)
      → Counted id o db.chunks
      → Counted id o (update_where p f db.chunks)
  rows-kept id none h =
      rw (count_if-update_where (of_chunk id) p f db.chunks (λ c _. rw (keeps c).0)) h
  rows-kept id (some j) h = λ active. rw (same_open id) (h active)

  pub chunks-updated-WellFormed : WellFormed (record db { chunks = update_where p f db.chunks })
  chunks-updated-WellFormed = record {
    unique_jobs = w.unique_jobs;
    unique_chunks = unique-kept;
    counted =
        λ id. unfold get_job in rows-kept id (select_first (of_job id) db.jobs) (w.counted id);
  }

-- An update of the jobs that keeps the counter of an active job, and makes no job active.
module _ (p : Job → Bool) (f : Job → Job) (db : Database) (w : WellFormed db)
    (same_id : (j : Job) → (f j).job_id ≡ j.job_id)
    (same_count : (j : Job)
      → p j ≡ true
      → is_terminal (f j).status ≡ false
      → (is_terminal j.status ≡ false) × ((f j).remaining_chunks ≡ j.remaining_chunks)) where
  updated-Counted :
      (id : Text) (o : Option Job) → Counted id o db.chunks → Counted id (updated p f o) db.chunks
  updated-Counted id none h = h
  updated-Counted id (some j) h = elim (Bool-cases (p j)) [
    | inl e ↦ rw e (λ active. (same_count j e active).1 ∙ h (same_count j e active).0)
    | inr e ↦ rw e h
  ]

  jobs-kept :
      (id : Text) → Counted id (select_first (of_job id) (update_where p f db.jobs)) db.chunks
  jobs-kept id =
      rw (select-updated id p f same_id db.jobs)
        (updated-Counted id (select_first (of_job id) db.jobs) (unfold get_job in w.counted id))

  pub jobs-updated-WellFormed : WellFormed (record db { jobs = update_where p f db.jobs })
  jobs-updated-WellFormed = record {
    unique_jobs = λ id. rw (count-updated id p f same_id db.jobs) (w.unique_jobs id);
    unique_chunks = w.unique_chunks;
    counted = λ id. unfold get_job in jobs-kept id;
  }

pub counter :
    (db : Database) (id : Text) (j : Job)
    → WellFormed db
    → get_job id db ≡ some j
    → is_terminal j.status ≡ false
    → j.remaining_chunks ≡ pos (count_if (is_open id) db.chunks)
counter db id j w e = subst (λ o. Counted id o db.chunks) e (w.counted id)
