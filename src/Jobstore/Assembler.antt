-- ===== src/Jobstore/Assembler.antt =====
-- The callers of jobstore.py's `complete_chunk` that are told to assemble a job.
use markitdown_server.Prelude.{
  ◌&&◌, ℕ, zero, suc, ◌+◌, ◌≤◌, ◌≡◌, refl, ap, inl, inr, Bool, false, Option, none, some, List, [],
  ◌∷◌, ◌++◌, arith, if◌then◌else◌, count_if, Bool-cases, Option-cases, Text, text_eq, text_eq_iff,
  length,
}
use markitdown_server.Prelude.Int.{ℤ, pos, negsuc, ◌-ℤ◌, eq_ℤ}
use markitdown_server.Sql.{update_where, select_first, select_first-append, count_if-append}
use markitdown_server.Tables.{Job, Database, of_job, active_job, exists_row, is_queued, JobStatus}
use markitdown_server.Jobstore.{
  count_down, get_job, create_job, new_job, insert_chunks, complete_chunk, start_chunk_row,
  start_job_row, fail_chunk, reschedule_chunk, fail_job, finish_job, record_document, PageRange,
  set_failed, set_done,
}
use markitdown_server.Jobstore.Laws.{
  get_job-of_job, HasUniqueJobs, updated, select-updated, count-updated, complete_chunk-result,
  get_job-complete_chunk, jobs-complete_chunk,
}
use markitdown_server.Jobstore.History.{
  Call, create, start_row, start_job, complete, fail_row, reschedule, fail, finish, record_doc,
  commit, History, assembles, assemblies, or_unchanged,
}

-- How often zero can still be returned: once, unless the counter has come down to it. A job that has not
-- been created yet counts as one that has not.
abbrev pub positive : ℤ → ℕ
positive (pos zero) = 0
positive (pos (suc n)) = 1
positive (negsuc n) = 0

abbrev pub chances : Option Job → ℕ
chances none = 1
chances (some j) = positive j.remaining_chunks

chances-updated :
    (p : Job → Bool) (f : Job → Job) (o : Option Job)
    → ((j : Job) → (f j).remaining_chunks ≡ j.remaining_chunks)
    → chances (updated p f o) ≡ chances o
chances-updated p f none h = refl
chances-updated p f (some j) h = elim (Bool-cases (p j)) [
  | inl e ↦ rw e (ap positive (h j))
  | inr e ↦ rw e
]

pub exists_row-none :
    (id : Text) (jobs : List Job)
    → exists_row (of_job id) jobs ≡ false
    → select_first (of_job id) jobs ≡ none
exists_row-none id [] h = refl
exists_row-none id (j ∷ jobs) h = ground (arith, exists_row-none id jobs)

exists_row-count :
    (id : Text) (jobs : List Job)
    → exists_row (of_job id) jobs ≡ false
    → count_if (of_job id) jobs ≡ 0
exists_row-count id [] h = refl
exists_row-count id (j ∷ jobs) h = ground (arith, exists_row-count id jobs)

chances-le-one : (o : Option Job) → chances o ≤ 1
chances-le-one none = omega arith
chances-le-one (some j) = positive-le-one j.remaining_chunks
  where
    positive-le-one : (z : ℤ) → positive z ≤ 1
    positive-le-one (pos zero) = omega arith
    positive-le-one (pos (suc n)) = omega arith
    positive-le-one (negsuc n) = omega arith

module _ (job : Text) where
  -- An update of the jobs that keeps the counters takes no chance away and gives none.
  update_keeps_chances :
      (p : Job → Bool) (f : Job → Job) (db : Database)
      → ((j : Job) → (f j).job_id ≡ j.job_id)
      → ((j : Job) → (f j).remaining_chunks ≡ j.remaining_chunks)
      → chances (select_first (of_job job) (update_where p f db.jobs)) ≤ chances (get_job job db)
  update_keeps_chances p f db same_id same_count =
      unfold get_job in
      rw
        (
          select-updated job p f same_id db.jobs,
          chances-updated p f (select_first (of_job job) db.jobs) same_count,
        )
        (omega arith)

  chances-append :
      (jobs : List Job) (j : Job)
      → chances (select_first (of_job job) (jobs ++ j ∷ []))
        ≤ chances (select_first (of_job job) jobs)
  chances-append jobs j = elim (Option-cases (select_first (of_job job) jobs)) [
    | inl e ↦
        rw (select_first-append (of_job job) jobs (j ∷ []), e)
          (chances-le-one (select_first (of_job job) (j ∷ [])))
    | inr (x, e) ↦ rw (select_first-append (of_job job) jobs (j ∷ []), e) (omega arith)
  ]

  create_keeps_chances :
      (id key hash url : Text) (ranges : List PageRange) (llm : Bool) (now : ℕ) (db : Database)
      → chances (get_job job (or_unchanged db (create_job id key hash url ranges llm now db)))
        ≤ chances (get_job job db)
  create_keeps_chances id key hash url ranges llm now db =
      unfold create_job get_job in
      elim (Bool-cases (exists_row (of_job id) db.jobs)) [
        | inl e ↦ rw e (omega arith)
        | inr e ↦ elim (Option-cases (insert_chunks id 0 ranges now db.chunks)) [
          | inl none_left ↦ rw (e, none_left) (omega arith)
          | inr (rows, inserted) ↦
              rw (e, inserted)
                (chances-append db.jobs (new_job id key hash url (length ranges) llm now))
        ]
      ]

  spent :
      (z : ℤ) → (if eq_ℤ (z -ℤ pos 1) (pos 0) then 1 else 0) + positive (z -ℤ pos 1) ≤ positive z
  spent z = ground arith

  complete_spends :
      (id : Text) (index : ℕ) (s3_key : Text) (now : ℕ) (db : Database)
      → HasUniqueJobs db
      → (if text_eq id job && eq_ℤ (complete_chunk id index s3_key now db).0 (pos 0) then 1 else 0)
          + chances (get_job job (complete_chunk id index s3_key now db).1)
        ≤ chances (get_job job db)
  complete_spends id index s3_key now db u =
      rw
        (
          complete_chunk-result id index s3_key now db u,
          get_job-complete_chunk id index s3_key now db job,
        )
        (elim (Option-cases (get_job job db)) [
          | inl e ↦ ground (arith, text_eq_iff id job)
          | inr (j, e) ↦
              ground (arith, text_eq_iff id job, spent j.remaining_chunks, get_job-of_job id db j)
        ])

  -- Each zero that is returned costs a chance, and no call gives one.
  budget :
      (c : Call) (now : ℕ) (db : Database)
      → HasUniqueJobs db
      → (if assembles job c now db then 1 else 0) + chances (get_job job (commit c now db))
        ≤ chances (get_job job db)
  unfolding assembles commit
  budget (create id key hash url ranges llm) now db u =
      omega (arith, create_keeps_chances id key hash url ranges llm now db)
  budget (start_row id index owner attempt) now db u = unfold start_chunk_row get_job in omega arith
  budget (start_job id) now db u =
      unfold start_job_row get_job in
      omega (
        arith,
        update_keeps_chances (λ j. of_job id j && is_queued j.status)
            (λ j. record j { status = JobStatus.running; updated_at = now }) db (λ j. refl)
            (λ j. refl),
      )
  budget (complete id index s3_key) now db u = complete_spends id index s3_key now db u
  budget (fail_row id index error) now db u = unfold fail_chunk get_job in omega arith
  budget (reschedule id index error) now db u = unfold reschedule_chunk get_job in omega arith
  budget (fail id error index) now db u =
      unfold fail_job get_job in
      omega (
        arith,
        update_keeps_chances (active_job id) (set_failed error index now) db (λ j. refl)
            (λ j. refl),
      )
  budget (finish id) now db u =
      unfold finish_job get_job in
      omega (arith, update_keeps_chances (of_job id) (set_done now) db (λ j. refl) (λ j. refl))
  budget (record_doc key hash pages chunks len size ttl) now db u =
      unfold record_document get_job in omega arith

pub append_unique_job :
    (jobs : List Job) (j : Job)
    → exists_row (of_job j.job_id) jobs ≡ false
    → ((id : Text) → count_if (of_job id) jobs ≤ 1)
    → (id : Text) → count_if (of_job id) (jobs ++ j ∷ []) ≤ 1
append_unique_job jobs j e u id =
    rw (count_if-append (of_job id) jobs (j ∷ []))
      (ground (arith, u id, text_eq_iff j.job_id id, exists_row-count j.job_id jobs e))

create-HasUniqueJobs :
    (id key hash url : Text) (ranges : List PageRange) (llm : Bool) (now : ℕ) (db : Database)
    → HasUniqueJobs db
    → HasUniqueJobs (or_unchanged db (create_job id key hash url ranges llm now db))
create-HasUniqueJobs id key hash url ranges llm now db u other =
    unfold create_job in
    elim (Bool-cases (exists_row (of_job id) db.jobs)) [
      | inl e ↦ rw e (u other)
      | inr e ↦ elim (Option-cases (insert_chunks id 0 ranges now db.chunks)) [
        | inl none_left ↦ rw (e, none_left) (u other)
        | inr (rows, inserted) ↦
            rw (e, inserted)
              (append_unique_job db.jobs (new_job id key hash url (length ranges) llm now) e u
                other)
      ]
    ]

pub commit-HasUniqueJobs :
    (c : Call) (now : ℕ) (db : Database) → HasUniqueJobs db → HasUniqueJobs (commit c now db)
unfolding commit
commit-HasUniqueJobs (create id key hash url ranges llm) now db u =
    create-HasUniqueJobs id key hash url ranges llm now db u
commit-HasUniqueJobs (start_row id index owner attempt) now db u = unfold start_chunk_row in u
commit-HasUniqueJobs (start_job id) now db u =
    unfold start_job_row in
    λ other.
      rw
        (count-updated other (λ j. of_job id j && is_queued j.status)
          (λ j. record j { status = JobStatus.running; updated_at = now }) (λ j. refl) db.jobs)
        (u other)
commit-HasUniqueJobs (complete id index s3_key) now db u = λ other.
    rw (jobs-complete_chunk id index s3_key now db) (
      ground
        (arith, count-updated other (active_job id) (count_down now) (λ j. refl) db.jobs, u other))
commit-HasUniqueJobs (fail_row id index error) now db u = unfold fail_chunk in u
commit-HasUniqueJobs (reschedule id index error) now db u = unfold reschedule_chunk in u
commit-HasUniqueJobs (fail id error index) now db u =
    unfold fail_job in
    λ other.
      rw (count-updated other (active_job id) (set_failed error index now) (λ j. refl) db.jobs)
        (u other)
commit-HasUniqueJobs (finish id) now db u =
    unfold finish_job in
    λ other. rw (count-updated other (of_job id) (set_done now) (λ j. refl) db.jobs) (u other)
commit-HasUniqueJobs (record_doc key hash pages chunks len size ttl) now db u =
    unfold record_document in u

chances_bound :
    (job : Text) (history : History) (db : Database)
    → HasUniqueJobs db
    → assemblies job history db ≤ chances (get_job job db)
unfolding assemblies
chances_bound job [] db u = omega arith
chances_bound job ((c, now) ∷ h) db u = omega (
  arith,
  budget job c now db u,
  chances_bound job h (commit c now db) (commit-HasUniqueJobs c now db u),
)

-- In every history of calls, by any callers in any order, `complete_chunk` returns 0 for a job at most once,
-- whatever chunks are completed twice, failed or rescheduled: at most one caller is told to assemble it.
-- The jobs of the database at the start obey their primary key.
pub assemblies-le-one :
    (job : Text) (history : History) (db : Database)
    → HasUniqueJobs db
    → assemblies job history db ≤ 1
assemblies-le-one job history db u =
    omega (arith, chances_bound job history db u, chances-le-one (get_job job db))
