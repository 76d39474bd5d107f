-- ===== src/Jobstore/WellFormed.antt =====
-- The transactions of jobstore.py and the invariant of the tables.
use markitdown_server.Prelude.{
  ℕ, ◌+◌, ◌≤◌, ◌≡◌, refl, ap, ◌∙◌, inl, inr, Bool, true, false, ◌&&◌, Option, none, some, List, [],
  ◌∷◌, ◌++◌, arith, if◌then◌else◌, count_if, Bool-cases, Option-cases, Text, text_eq, text_eq_iff,
  ◌==◌, length,
}
use markitdown_server.Sql.{
  update_where, select_first, select_first-append, count_if-update_where, count_if-append,
  count_if_mono,
}
use markitdown_server.Chunker.{PageRange}
use markitdown_server.Tables.{
  Job, JobStatus, Chunk, Database, is_terminal, is_queued, of_job, at_chunk, active_job, open_chunk,
  of_chunk, is_open, exists_row,
}
use markitdown_server.Jobstore.{
  set_done, set_failed, set_running, set_completed, count_down, get_job, finish_job, fail_job,
  start_job_row, start_chunk_row, fail_chunk, reschedule_chunk, complete_chunk, create_job, new_job,
  insert_chunks, record_document,
}
use markitdown_server.Jobstore.Laws.{
  updated, get_job-complete_chunk, get_job-of_job, chunks-complete_chunk,
}
use markitdown_server.Jobstore.Rows.{
  count-completed, count-failed, new_chunks, insert_chunks-append, insert_chunks_unique,
  count-new_chunks,
}
use markitdown_server.Jobstore.History.{
  Call, create, start_row, start_job, complete, fail_row, reschedule, fail, finish, record_doc,
  commit, or_unchanged,
}
use markitdown_server.Jobstore.Assembler.{commit-HasUniqueJobs, exists_row-none, append_unique_job}
use markitdown_server.Jobstore.Invariant.{
  WellFormed, Counted, IsCareful, chunks-updated-WellFormed, jobs-updated-WellFormed,
}

module _ (db : Database) (w : WellFormed db) where
  at_most_one_open : (id : Text) (index : ℕ) → count_if (open_chunk id index) db.chunks ≤ 1
  at_most_one_open id index = omega (
    arith,
    count_if_mono (at_chunk id index) (open_chunk id index) db.chunks (λ c h. ground arith),
    w.unique_chunks id index,
  )

  module _ (id : Text) (index : ℕ) (s3_key : Text) (now : ℕ) (job : Text) where
    of_chunk-completed :
        count_if
          (of_chunk job)
          (update_where (open_chunk id index) (set_completed s3_key now) db.chunks)
        ≡ count_if (of_chunk job) db.chunks
    of_chunk-completed =
        count_if-update_where (of_chunk job) (open_chunk id index) (set_completed s3_key now)
          db.chunks (λ c _. refl)

    Counted-down :
        (o : Option Job)
        → ((j : Job) → o ≡ some j → of_job job j ≡ true)
        → Counted job o db.chunks
        → (count_if (open_chunk id index) db.chunks == 0) ≡ false
        → Counted job
            (updated (active_job id) (count_down now) o)
            (update_where (open_chunk id index) (set_completed s3_key now) db.chunks)
    Counted-down none own h some_open = rw of_chunk-completed h
    Counted-down (some j) own h some_open = ground (
      arith,
      own j refl,
      text_eq_iff j.job_id job,
      text_eq_iff j.job_id id,
      text_eq_iff id job,
      at_most_one_open id index,
      count-completed job id index s3_key now db.chunks,
    )

    not-Counted :
        (o : Option Job)
        → Counted job o db.chunks
        → (count_if (open_chunk id index) db.chunks == 0) ≡ true
        → Counted job o (update_where (open_chunk id index) (set_completed s3_key now) db.chunks)
    not-Counted none h none_open = rw of_chunk-completed h
    not-Counted (some j) h none_open =
        ground (arith, count-completed job id index s3_key now db.chunks)

    complete-Counted :
        Counted job
          (get_job job (complete_chunk id index s3_key now db).1)
          (complete_chunk id index s3_key now db).1.chunks
    complete-Counted =
        rw
          (
            chunks-complete_chunk id index s3_key now db,
            get_job-complete_chunk id index s3_key now db job,
          )
          (elim (Bool-cases (count_if (open_chunk id index) db.chunks == 0)) [
            | inl e ↦ rw e (not-Counted (get_job job db) (w.counted job) e)
            | inr e ↦ rw e (Counted-down (get_job job db) (get_job-of_job job db) (w.counted job) e)
          ])

  complete-WellFormed :
      (id : Text) (index : ℕ) (s3_key : Text) (now : ℕ)
      → WellFormed (complete_chunk id index s3_key now db).1
  complete-WellFormed id index s3_key now = record {
    unique_jobs =
        unfold commit in commit-HasUniqueJobs (complete id index s3_key) now db w.unique_jobs;
    unique_chunks = λ job i. rw (chunks-complete_chunk id index s3_key now db) (
        rw
          (count_if-update_where (at_chunk job i) (open_chunk id index) (set_completed s3_key now)
            db.chunks (λ c _. refl))
          (w.unique_chunks job i));
    counted = complete-Counted id index s3_key now;
  }

  module _ (id key hash url : Text) (ranges : List PageRange) (llm : Bool) (now : ℕ)
      (other : Text) where
    count-added :
        (count_if (is_open other) (db.chunks ++ new_chunks id 0 ranges now)
          ≡ count_if (is_open other) db.chunks + (if text_eq id other then length ranges else 0))
        × (count_if (of_chunk other) (db.chunks ++ new_chunks id 0 ranges now)
            ≡ count_if (of_chunk other) db.chunks + (if text_eq id other then length ranges else 0))
    count-added =
        let (open_added, all_added) = count-new_chunks id now other 0 ranges in
        (
          count_if-append (is_open other) db.chunks (new_chunks id 0 ranges now)
              ∙ ap (λ (n : ℕ). count_if (is_open other) db.chunks + n) open_added,
          count_if-append (of_chunk other) db.chunks (new_chunks id 0 ranges now)
              ∙ ap (λ (n : ℕ). count_if (of_chunk other) db.chunks + n) all_added,
        )

    open-le-all : count_if (is_open other) db.chunks ≤ count_if (of_chunk other) db.chunks
    open-le-all = count_if_mono (of_chunk other) (is_open other) db.chunks (λ c h. ground arith)

    -- The new job is counted, and the job that was there is still.
    created-Counted :
        (o : Option Job)
        → (text_eq id other ≡ true → o ≡ none)
        → Counted other o db.chunks
        → Counted other
            (elim o [
              | none ↦
                  select_first (of_job other) (new_job id key hash url (length ranges) llm now ∷ [])
              | some j ↦ some j
            ])
            (db.chunks ++ new_chunks id 0 ranges now)
    created-Counted none absent h = elim (Bool-cases (text_eq id other)) [
      | inl e ↦ rw e (λ active. ground (arith, count-added, open-le-all))
      | inr e ↦ rw e (ground (arith, count-added))
    ]
    created-Counted (some j) absent h = ground (arith, count-added)

  created :
      (id key hash url : Text) (ranges : List PageRange) (llm : Bool) (now : ℕ) (rows : List Chunk)
      → exists_row (of_job id) db.jobs ≡ false
      → insert_chunks id 0 ranges now db.chunks ≡ some rows
      → WellFormed (record db {
        jobs = db.jobs ++ new_job id key hash url (length ranges) llm now ∷ [];
        chunks = rows;
      })
  created id key hash url ranges llm now rows e inserted = record {
    unique_jobs =
        append_unique_job db.jobs (new_job id key hash url (length ranges) llm now) e w.unique_jobs;
    unique_chunks = insert_chunks_unique id now 0 ranges db.chunks rows inserted w.unique_chunks;
    counted = λ other. rw (insert_chunks-append id now 0 ranges db.chunks rows inserted) (
        unfold get_job in
        rw
          (select_first-append (of_job other) db.jobs
            (new_job id key hash url (length ranges) llm now ∷ []))
          (created-Counted id key hash url ranges llm now other
            (select_first (of_job other) db.jobs)
            (λ same. rw (← (text_eq_iff id other).0 same) (exists_row-none id db.jobs e))
            (w.counted other)));
  }

  create-WellFormed :
      (id key hash url : Text) (ranges : List PageRange) (llm : Bool) (now : ℕ)
      → WellFormed (or_unchanged db (create_job id key hash url ranges llm now db))
  create-WellFormed id key hash url ranges llm now =
      unfold create_job in
      elim (Bool-cases (exists_row (of_job id) db.jobs)) [
        | inl e ↦ rw e w
        | inr e ↦ elim (Option-cases (insert_chunks id 0 ranges now db.chunks)) [
          | inl none_left ↦ rw (e, none_left) w
          | inr (rows, inserted) ↦
              rw (e, inserted) (created id key hash url ranges llm now rows e inserted)
        ]
      ]

queued_is_active : (s : JobStatus) → is_queued s ≡ true → is_terminal s ≡ false
queued_is_active s h = ground arith

-- Every transaction keeps the tables well formed, except one that marks a chunk failed which is done.
pub commit-WellFormed :
    (c : Call) (now : ℕ) (db : Database)
    → WellFormed db
    → IsCareful c db
    → WellFormed (commit c now db)
unfolding commit
commit-WellFormed (create id key hash url ranges llm) now db w h =
    create-WellFormed db w id key hash url ranges llm now
commit-WellFormed (start_row id index owner attempt) now db w h =
    unfold start_chunk_row in
    chunks-updated-WellFormed (open_chunk id index) (set_running owner attempt now) db w
      (λ c. (refl, refl))
      (λ other.
        count_if-update_where (is_open other) (open_chunk id index) (set_running owner attempt now)
          db.chunks (λ c e. ground arith))
commit-WellFormed (start_job id) now db w h =
    unfold start_job_row in
    jobs-updated-WellFormed (λ j. of_job id j && is_queued j.status)
      (λ j. record j { status = JobStatus.running; updated_at = now }) db w (λ j. refl)
      (λ j e active. (queued_is_active j.status (ground arith), refl))
commit-WellFormed (complete id index s3_key) now db w h =
    complete-WellFormed db w id index s3_key now
commit-WellFormed (fail_row id index error) now db w h =
    unfold fail_chunk in
    chunks-updated-WellFormed (at_chunk id index) _ db w (λ c. (refl, refl))
      (λ other. count-failed other id index _ db.chunks (λ c. (refl, refl)) h)
commit-WellFormed (reschedule id index error) now db w h =
    unfold reschedule_chunk in
    chunks-updated-WellFormed (open_chunk id index) _ db w (λ c. (refl, refl))
      (λ other.
        count_if-update_where (is_open other) (open_chunk id index) _ db.chunks
          (λ c e. ground arith))
commit-WellFormed (fail id error index) now db w h =
    unfold fail_job in
    jobs-updated-WellFormed (active_job id) (set_failed error index now) db w (λ j. refl)
      (λ j e active. cc)
commit-WellFormed (finish id) now db w h =
    unfold finish_job in
    jobs-updated-WellFormed (of_job id) (set_done now) db w (λ j. refl) (λ j e active. cc)
commit-WellFormed (record_doc key hash pages chunks len size ttl) now db w h =
    unfold record_document in
    record {
      unique_jobs = w.unique_jobs;
      unique_chunks = w.unique_chunks;
      counted = λ id. unfold get_job in w.counted id;
    }
