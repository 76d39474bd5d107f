-- ===== src/Jobstore/Ended.antt =====
-- jobstore.py: a job that is done or failed stays so.
use markitdown_server.Prelude.{
  ℕ, ◌≡◌, refl, ap, sym, ◌∙◌, inl, inr, Bool, true, false, Option, none, some, List, [], ◌∷◌, ◌++◌,
  ◌&&◌, arith, Bool-cases, Option-cases, Text, length, ◌==◌, count_if,
}
use markitdown_server.Chunker.{PageRange}
use markitdown_server.Sql.{update_where, select_first, select_first-append}
use markitdown_server.Tables.{
  Job, JobStatus, Database, of_job, active_job, open_chunk, is_queued, is_terminal, exists_row,
}
use markitdown_server.Jobstore.{
  create_job, insert_chunks, new_job, get_job, set_done, set_failed, count_down, start_chunk_row,
  start_job_row, complete_chunk, fail_chunk, reschedule_chunk, fail_job, finish_job,
  record_document,
}
use markitdown_server.Jobstore.Laws.{updated, select-updated, get_job-complete_chunk}
use markitdown_server.Jobstore.History.{
  Call, History, commit, run, or_unchanged, create, start_row, start_job, complete, fail_row,
  reschedule, fail, finish, record_doc,
}

abbrev over : Option Job → Bool
over none = false
over (some j) = is_terminal j.status

-- The job has a row, and is done or failed.
abbrev pub HasEnded : Text → Database → Type 0
HasEnded id db = over (get_job id db) ≡ true

pub HasEnded-job :
    (id : Text) (db : Database) (j : Job)
    → get_job id db ≡ some j
    → is_terminal j.status ≡ true
    → HasEnded id db
HasEnded-job id db j found ended = ap over found ∙ ended

pub job-HasEnded :
    (id : Text) (db : Database)
    → HasEnded id db
    → (j : Job) × (get_job id db ≡ some j) × (is_terminal j.status ≡ true)
job-HasEnded id db h = elim (Option-cases (get_job id db)) [
  | inl e ↦ absurd (nothing (sym (ap over e) ∙ h))
  | inr (j, e) ↦ (j, e, sym (ap over e) ∙ h)
]
  where
    nothing : false ≡ true → ⊥
    nothing h = cc

over-updated :
    (p : Job → Bool) (f : Job → Job) (o : Option Job)
    → ((j : Job) → p j ≡ true → is_terminal j.status ≡ true → is_terminal (f j).status ≡ true)
    → over o ≡ true
    → over (updated p f o) ≡ true
over-updated p f none h e = e
over-updated p f (some j) h e = elim (Bool-cases (p j)) [
  | inl yes_p ↦ rw yes_p (h j yes_p e)
  | inr no_p ↦ rw no_p e
]

module _ (job : Text) where
  updated_stays :
      (p : Job → Bool) (f : Job → Job) (db : Database)
      → ((j : Job) → (f j).job_id ≡ j.job_id)
      → ((j : Job) → p j ≡ true → is_terminal j.status ≡ true → is_terminal (f j).status ≡ true)
      → HasEnded job db
      → HasEnded job (record db { jobs = update_where p f db.jobs })
  unfolding get_job
  updated_stays p f db same ends h =
      ap over (select-updated job p f same db.jobs)
      ∙ over-updated p f (select_first (of_job job) db.jobs) ends h

  appended_stays :
      (jobs : List Job) (j : Job)
      → over (select_first (of_job job) jobs) ≡ true
      → over (select_first (of_job job) (jobs ++ j ∷ [])) ≡ true
  appended_stays jobs j h =
      ap over (select_first-append (of_job job) jobs (j ∷ []))
      ∙ first_stays (select_first (of_job job) jobs) h
    where
      first_stays :
          (o : Option Job)
          → over o ≡ true
          → over (elim o [ none ↦ select_first (of_job job) (j ∷ []) | some x ↦ some x ]) ≡ true
      first_stays none h = absurd (nothing h)
        where
          nothing : false ≡ true → ⊥
          nothing h = cc
      first_stays (some x) h = h

  created_stays :
      (id key hash url : Text) (ranges : List PageRange) (llm : Bool) (now : ℕ) (db : Database)
      → HasEnded job db
      → HasEnded job (or_unchanged db (create_job id key hash url ranges llm now db))
  unfolding create_job get_job
  created_stays id key hash url ranges llm now db h =
      elim (Bool-cases (exists_row (of_job id) db.jobs)) [
        | inl e ↦ rw e h
        | inr e ↦ elim (Option-cases (insert_chunks id 0 ranges now db.chunks)) [
          | inl none_left ↦ rw (e, none_left) h
          | inr (rows, inserted) ↦
              rw (e, inserted)
                (appended_stays db.jobs (new_job id key hash url (length ranges) llm now) h)
        ]
      ]

  completed_stays :
      (id : Text) (index : ℕ) (s3_key : Text) (now : ℕ) (db : Database)
      → HasEnded job db
      → HasEnded job (complete_chunk id index s3_key now db).1
  completed_stays id index s3_key now db h =
      ap over (get_job-complete_chunk id index s3_key now db job)
      ∙ elim (Bool-cases (count_if (open_chunk id index) db.chunks == 0)) [
        | inl e ↦ rw e h
        | inr e ↦ rw e (
            over-updated (active_job id) (count_down now) (get_job job db) (λ j a t. ground arith)
              h)
      ]

  commit-HasEnded :
      (c : Call) (now : ℕ) (db : Database) → HasEnded job db → HasEnded job (commit c now db)
  unfolding commit
  commit-HasEnded (create id key hash url ranges llm) now db h =
      created_stays id key hash url ranges llm now db h
  commit-HasEnded (start_row id index owner attempt) now db h = unfold start_chunk_row get_job in h
  commit-HasEnded (start_job id) now db h =
      unfold start_job_row in
      updated_stays (λ j. of_job id j && is_queued j.status)
        (λ j. record j { status = JobStatus.running; updated_at = now }) db (λ j. refl)
        (λ j q t. queued_or_over id j q t) h
    where
      queued_or_over :
          (id : Text) (j : Job)
          → (of_job id j && is_queued j.status) ≡ true
          → is_terminal j.status ≡ true
          → is_terminal JobStatus.running ≡ true
      queued_or_over id j q t = ground arith
  commit-HasEnded (complete id index s3_key) now db h = completed_stays id index s3_key now db h
  commit-HasEnded (fail_row id index error) now db h = unfold fail_chunk get_job in h
  commit-HasEnded (reschedule id index error) now db h = unfold reschedule_chunk get_job in h
  commit-HasEnded (fail id error index) now db h =
      unfold fail_job in
      updated_stays (active_job id) (set_failed error index now) db (λ j. refl) (λ j a t. refl) h
  commit-HasEnded (finish id) now db h =
      unfold finish_job in updated_stays (of_job id) (set_done now) db (λ j. refl) (λ j a t. refl) h
  commit-HasEnded (record_doc key hash pages chunks len size ttl) now db h =
      unfold record_document get_job in h

  -- A job that is done or failed stays done or failed, whatever any number of workers and producers commit afterwards.
  pub run-HasEnded : (h : History) (db : Database) → HasEnded job db → HasEnded job (run h db)
  unfolding run
  run-HasEnded [] db ended = ended
  run-HasEnded ((c, t) ∷ h) db ended = run-HasEnded h (commit c t db) (commit-HasEnded c t db ended)
