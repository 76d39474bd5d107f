-- ===== src/Jobstore/Lasting.antt =====
-- jobstore.py never removes the row of a job.
use markitdown_server.Prelude.{
  ℕ, ◌≡◌, refl, ap, ◌∙◌, inl, inr, Bool, true, Option, none, some, List, [], ◌∷◌, ◌++◌, arith,
  Bool-cases, Option-cases, Text, length, ◌==◌, ◌&&◌, count_if, text_eq_refl,
}
use markitdown_server.Chunker.{PageRange}
use markitdown_server.Sql.{update_where, select_first}
use markitdown_server.Tables.{
  Chunk, Job, JobStatus, Database, of_job, active_job, open_chunk, is_queued, exists_row,
}
use markitdown_server.Jobstore.{
  create_job, insert_chunks, new_job, get_job, set_done, set_failed, count_down, start_chunk_row,
  start_job_row, complete_chunk, fail_chunk, reschedule_chunk, fail_job, finish_job,
  record_document,
}
use markitdown_server.Jobstore.Laws.{exists_row-append, jobs-complete_chunk}
use markitdown_server.Jobstore.History.{
  Call, History, commit, run, or_unchanged, create, start_row, start_job, complete, fail_row,
  reschedule, fail, finish, record_doc,
}

-- The job has a row.
abbrev pub HasJob : Text → Database → Type 0
HasJob id db = exists_row (of_job id) db.jobs ≡ true

pub HasJob-get_job :
    (id : Text) (db : Database) → HasJob id db → (j : Job) × (get_job id db ≡ some j)
unfolding get_job
HasJob-get_job id db h = in_rows db.jobs h
  where
    in_rows :
        (jobs : List Job)
        → exists_row (of_job id) jobs ≡ true
        → (j : Job) × (select_first (of_job id) jobs ≡ some j)
    in_rows [] h = cc
    in_rows (j ∷ jobs) h = elim (Bool-cases (of_job id j)) [
      | inl e ↦ (j, rw e refl)
      | inr e ↦ rw e (in_rows jobs (ground arith))
    ]

exists_row-update_where :
    (id : Text) (p : Job → Bool) (f : Job → Job) (jobs : List Job)
    → ((j : Job) → (f j).job_id ≡ j.job_id)
    → exists_row (of_job id) (update_where p f jobs) ≡ exists_row (of_job id) jobs
exists_row-update_where id p f [] h = refl
exists_row-update_where id p f (j ∷ jobs) h = elim (Bool-cases (p j)) [
  | inl e ↦ rw (e, h j, exists_row-update_where id p f jobs h) refl
  | inr e ↦ rw (e, exists_row-update_where id p f jobs h) refl
]

create_keeps :
    (job id key hash url : Text) (ranges : List PageRange) (llm : Bool) (now : ℕ) (db : Database)
    → HasJob job db
    → HasJob job (or_unchanged db (create_job id key hash url ranges llm now db))
unfolding create_job
create_keeps job id key hash url ranges llm now db h =
    elim (Bool-cases (exists_row (of_job id) db.jobs)) [
      | inl e ↦ rw e h
      | inr e ↦ elim (Option-cases (insert_chunks id 0 ranges now db.chunks)) [
        | inl none_left ↦ rw (e, none_left) h
        | inr (rows, inserted) ↦
            rw (e, inserted)
              (ground (
                arith,
                h,
                exists_row-append (of_job job) db.jobs
                    (new_job id key hash url (length ranges) llm now ∷ []),
              ))
      ]
    ]

-- `create_job` that returns has written the row of its job.
pub create_job-HasJob :
    (id key hash url : Text) (ranges : List PageRange) (llm : Bool) (now : ℕ) (db after : Database)
    → create_job id key hash url ranges llm now db ≡ some after
    → HasJob id after
unfolding create_job
create_job-HasJob id key hash url ranges llm now db after =
    elim (Bool-cases (exists_row (of_job id) db.jobs)) [
      | inl e ↦ rw e (λ h. absurd (nothing h))
      | inr e ↦ elim (Option-cases (insert_chunks id 0 ranges now db.chunks)) [
        | inl none_left ↦ rw (e, none_left) (λ h. absurd (nothing h))
        | inr (rows, inserted) ↦ rw (e, inserted) (λ h. created rows h)
      ]
    ]
  where
    nothing : ◌≡◌ {A = Option Database} none (some after) → ⊥
    nothing h = cc

    created :
        (rows : List Chunk)
        → some (record db {
          jobs = db.jobs ++ new_job id key hash url (length ranges) llm now ∷ [];
          chunks = rows;
        })
          ≡ some after
        → HasJob id after
    created rows h =
        let same : db.jobs ++ new_job id key hash url (length ranges) llm now ∷ [] ≡ after.jobs =
          ap (λ o. jobs_of o) h in
        ground (
          arith,
          same,
          text_eq_refl id,
          exists_row-append (of_job id) db.jobs
              (new_job id key hash url (length ranges) llm now ∷ []),
        )
      where
        jobs_of : Option Database → List Job
        jobs_of none = []
        jobs_of (some d) = d.jobs

module _ (job : Text) where
  updated_keeps :
      (p : Job → Bool) (f : Job → Job) (db : Database)
      → ((j : Job) → (f j).job_id ≡ j.job_id)
      → HasJob job db
      → HasJob job (record db { jobs = update_where p f db.jobs })
  updated_keeps p f db same h = exists_row-update_where job p f db.jobs same ∙ h

  complete_keeps :
      (id : Text) (index : ℕ) (s3_key : Text) (now : ℕ) (db : Database)
      → HasJob job db
      → HasJob job (complete_chunk id index s3_key now db).1
  complete_keeps id index s3_key now db h =
      ap (λ jobs. exists_row (of_job job) jobs) (jobs-complete_chunk id index s3_key now db)
      ∙ elim (Bool-cases (count_if (open_chunk id index) db.chunks == 0)) [
        | inl e ↦ rw e h
        | inr e ↦ rw e (updated_keeps (active_job id) (count_down now) db (λ j. refl) h)
      ]

  pub commit_keeps_job :
      (c : Call) (now : ℕ) (db : Database) → HasJob job db → HasJob job (commit c now db)
  unfolding commit
  commit_keeps_job (create id key hash url ranges llm) now db h =
      create_keeps job id key hash url ranges llm now db h
  commit_keeps_job (start_row id index owner attempt) now db h = unfold start_chunk_row in h
  commit_keeps_job (start_job id) now db h =
      unfold start_job_row in
      updated_keeps (λ j. of_job id j && is_queued j.status)
        (λ j. record j { status = JobStatus.running; updated_at = now }) db (λ j. refl) h
  commit_keeps_job (complete id index s3_key) now db h = complete_keeps id index s3_key now db h
  commit_keeps_job (fail_row id index error) now db h = unfold fail_chunk in h
  commit_keeps_job (reschedule id index error) now db h = unfold reschedule_chunk in h
  commit_keeps_job (fail id error index) now db h =
      unfold fail_job in updated_keeps (active_job id) (set_failed error index now) db (λ j. refl) h
  commit_keeps_job (finish id) now db h =
      unfold finish_job in updated_keeps (of_job id) (set_done now) db (λ j. refl) h
  commit_keeps_job (record_doc key hash pages chunks len size ttl) now db h =
      unfold record_document in h

  -- The row of a job stays, whatever is committed.
  pub run_keeps_job : (h : History) (db : Database) → HasJob job db → HasJob job (run h db)
  unfolding run
  run_keeps_job [] db has = has
  run_keeps_job ((c, t) ∷ h) db has = run_keeps_job h (commit c t db) (commit_keeps_job c t db has)
