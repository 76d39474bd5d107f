-- ===== src/Jobstore/Laws.antt =====
-- How each function of jobstore.py changes the row of a job.
use markitdown_server.Prelude.{
  [], ◌∷◌, ◌++◌, ◌||◌, ℕ, ◌≤◌, ◌≡◌, refl, ap, ◌∙◌, inl, inr, Bool, true, Option, none, some, List,
  arith, if◌then◌else◌, count_if, Option-cases, Text, text_eq, ◌==◌,
}
use markitdown_server.Prelude.Int.{ℤ, pos, ◌-ℤ◌}
use markitdown_server.Sql.{
  update_where, select_first, returning_first, count_if-update_where, select_first-update_where,
  returning_first-select_first, select_first-passes,
}
use markitdown_server.Tables.{
  Job, Database, is_terminal, of_job, active_job, open_chunk, job_already_terminal,
  chunk_already_done,
}
use markitdown_server.Jobstore.{count_down, get_job, complete_chunk, set_completed, exists_row}

pub exists_row-append {ℓ} :
    {A : Type ℓ} (p : A → Bool) (xs ys : List A)
    → exists_row p (xs ++ ys) ≡ (exists_row p xs || exists_row p ys)
exists_row-append p [] ys = refl
exists_row-append p (x ∷ xs) ys = ground (arith, exists_row-append p xs ys)

-- The PRIMARY KEY of the jobs.
abbrev pub HasUniqueJobs : Database → Type 0
HasUniqueJobs db = (id : Text) → count_if (of_job id) db.jobs ≤ 1

-- The row of a job after an update of the rows that pass a test.
abbrev pub updated : (Job → Bool) → (Job → Job) → Option Job → Option Job
updated p f none = none
updated p f (some j) = some (if p j then f j else j)

module _ (id : Text) (p : Job → Bool) (f : Job → Job)
    (keeps : (j : Job) → (f j).job_id ≡ j.job_id) where
  of_job-keeps : (j : Job) → of_job id (f j) ≡ of_job id j
  of_job-keeps j = ap (λ t. text_eq t id) (keeps j)

  pub select-updated :
      (jobs : List Job)
      → select_first (of_job id) (update_where p f jobs)
        ≡ updated p f (select_first (of_job id) jobs)
  select-updated jobs =
      select_first-update_where (of_job id) p f jobs of_job-keeps
      ∙ as_updated (select_first (of_job id) jobs)
    where
      as_updated :
          (o : Option Job)
          → ◌≡◌ {A = Option Job}
              (elim o [ none ↦ none | some x ↦ some (if p x then f x else x) ])
              (updated p f o)
      as_updated none = refl
      as_updated (some x) = refl

  pub count-updated :
      (jobs : List Job) → count_if (of_job id) (update_where p f jobs) ≡ count_if (of_job id) jobs
  count-updated jobs = count_if-update_where (of_job id) p f jobs (λ j _. of_job-keeps j)

active_job-of_job : (id : Text) (j : Job) → active_job id j ≡ true → of_job id j ≡ true
active_job-of_job id j h = ground arith

module _ (id : Text) (index : ℕ) (s3_key : Text) (now : ℕ) (db : Database) where
  -- What `complete_chunk` returns, by the chunk rows that it marks and the job's row.
  abbrev pub completion : Option Job → ℤ
  completion none = job_already_terminal
  completion (some j) =
      if is_terminal j.status then job_already_terminal else j.remaining_chunks -ℤ pos 1

  returned :
      HasUniqueJobs db
      → returning_first (active_job id) (count_down now) db.jobs
        ≡ elim (select_first (of_job id) db.jobs) [
          | none ↦ none
          | some x ↦ if active_job id x then some (count_down now x) else none
        ]
  returned unique =
      returning_first-select_first (active_job id) (of_job id) (count_down now)
        (active_job-of_job id) db.jobs (unique id)

  pub complete_chunk-result :
      HasUniqueJobs db
      → (complete_chunk id index s3_key now db).0 ≡ (
          if count_if (open_chunk id index) db.chunks == 0
          then chunk_already_done
          else completion (get_job id db))
  complete_chunk-result unique = elim (Option-cases (select_first (of_job id) db.jobs)) [
    | inl e ↦ unfold complete_chunk get_job in ground (arith, returned unique)
    | inr (j, e) ↦
        unfold complete_chunk get_job in
        ground (arith, returned unique, select_first-passes (of_job id) db.jobs j)
  ]

  pub get_job-complete_chunk :
      (other : Text)
      → get_job other (complete_chunk id index s3_key now db).1 ≡ (
          if count_if (open_chunk id index) db.chunks == 0
          then get_job other db
          else updated (active_job id) (count_down now) (get_job other db))
  get_job-complete_chunk other =
      unfold complete_chunk get_job in
      ground (arith, select-updated other (active_job id) (count_down now) (λ j. refl) db.jobs)

  pub jobs-complete_chunk : (complete_chunk id index s3_key now db).1.jobs ≡ (
      if count_if (open_chunk id index) db.chunks == 0
      then db.jobs
      else update_where (active_job id) (count_down now) db.jobs)
  unfolding complete_chunk
  jobs-complete_chunk = ground arith

  pub chunks-complete_chunk :
      (complete_chunk id index s3_key now db).1.chunks
      ≡ update_where (open_chunk id index) (set_completed s3_key now) db.chunks
  unfolding complete_chunk
  chunks-complete_chunk = ground arith

-- The row that `get_job` returns is the job's.
pub get_job-of_job :
    (id : Text) (db : Database) (j : Job) → get_job id db ≡ some j → of_job id j ≡ true
unfolding get_job
get_job-of_job id db j e = select_first-passes (of_job id) db.jobs j e
