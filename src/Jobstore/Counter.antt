-- ===== src/Jobstore/Counter.antt =====
-- The counter `remaining_chunks` over whole histories.
use mathlib.Core.Path.{subst}
use markitdown_server.Prelude.{
  ◌-◌, ℕ, suc, ◌≤◌, ◌≡◌, refl, ap, ◌∙◌, inl, inr, Bool, true, false, ◌&&◌, Option, none, some, List,
  [], ◌∷◌, arith, count_if, Bool-cases, Option-cases, Text, text_eq, text_eq_iff, ◌==◌, ◌⊎◌,
  text_eq_refl, length,
}
use markitdown_server.Prelude.Int.{ℤ, pos, eq_ℤ}
use markitdown_server.Sql.{update_where, select_first, select_first-append}
use markitdown_server.Chunker.{PageRange}
use markitdown_server.Tables.{
  Job, JobStatus, Database, is_terminal, is_queued, of_job, active_job, open_chunk, is_open,
  exists_row,
}
use markitdown_server.Jobstore.{
  get_job, complete_chunk, set_done, set_failed, count_down, start_job_row, start_chunk_row,
  fail_chunk, reschedule_chunk, fail_job, finish_job, create_job, record_document, insert_chunks,
  new_job,
}
use markitdown_server.Jobstore.Laws.{
  updated, select-updated, completion, complete_chunk-result, get_job-complete_chunk,
  get_job-of_job, chunks-complete_chunk,
}
use markitdown_server.Jobstore.Rows.{count-completed}
use markitdown_server.Jobstore.History.{
  Call, create, start_row, start_job, complete, fail_row, reschedule, fail, finish, record_doc,
  commit, History, run, assembles, or_unchanged,
}
use markitdown_server.Jobstore.Invariant.{counter, WellFormed, IsCareful}
use markitdown_server.Jobstore.WellFormed.{commit-WellFormed}

-- Every call of a history that marks a chunk failed finds it not done already.
abbrev pub AllCareful : History → Database → Type 0
AllCareful [] db = Unit
AllCareful ((c, now) ∷ h) db = IsCareful c db × AllCareful h (commit c now db)

-- Every history of calls, in which no chunk is marked failed that is done, keeps the tables well formed:
-- the counter of each active job stays the number of its chunks that are not done.
pub run-WellFormed :
    (h : History) (db : Database) → WellFormed db → AllCareful h db → WellFormed (run h db)
unfolding run
run-WellFormed [] db w careful = w
run-WellFormed ((c, now) ∷ h) db w careful =
    run-WellFormed h (commit c now db) (commit-WellFormed c now db w careful.0) careful.1

-- Who is returned 0 by `complete_chunk`, over well-formed tables, has completed the last chunk: no chunk of the job
-- is left that is not done.
complete_chunk-last :
    (id : Text) (index : ℕ) (s3_key : Text) (now : ℕ) (db : Database)
    → WellFormed db
    → (complete_chunk id index s3_key now db).0 ≡ pos 0
    → count_if (is_open id) (complete_chunk id index s3_key now db).1.chunks ≡ 0
complete_chunk-last id index s3_key now db w h = elim (Option-cases (get_job id db)) [
  | inl e ↦ ground (arith, complete_chunk-result id index s3_key now db w.unique_jobs)
  | inr (j, e) ↦ rw (chunks-complete_chunk id index s3_key now db) (
      ground (
        arith,
        complete_chunk-result id index s3_key now db w.unique_jobs,
        text_eq_refl id,
        counter db id j w e,
        count-completed id id index s3_key now db.chunks,
      ))
]

-- A job that is there and active.
abbrev pub IsActive : Option Job → Type 0
IsActive none = ⊥
IsActive (some j) = is_terminal j.status ≡ false

-- A call that neither fails nor finishes the job.
abbrev pub IsQuiet : Text → Call → Type 0
IsQuiet job (fail id error index) = text_eq id job ≡ false
IsQuiet job (finish id) = text_eq id job ≡ false
IsQuiet job _ = Unit

abbrev pub AllQuiet : Text → History → Type 0
AllQuiet job [] = Unit
AllQuiet job ((c, now) ∷ h) = IsQuiet job c × AllQuiet job h

abbrev remaining : Option Job → ℤ
remaining none = pos 0
remaining (some j) = j.remaining_chunks

-- The job stays active, and each count down is returned.
abbrev pub CountsDown : Option Job → Option Job → Bool → Type 0
CountsDown o none b = ⊥
CountsDown none (some j') b = ⊥
CountsDown (some j) (some j') b =
    (is_terminal j'.status ≡ false)
    × ((j'.remaining_chunks ≡ j.remaining_chunks) × (b ≡ false)
        ⊎ (n : ℕ) × (j.remaining_chunks ≡ pos (suc n))
          × (j'.remaining_chunks ≡ pos n)
          × (b ≡ (n == 0)))

CountsDown-refl : (o : Option Job) → IsActive o → CountsDown o o false
CountsDown-refl none h = h
CountsDown-refl (some j) h = (h, inl (refl, refl))

CountsDown-updated :
    (p : Job → Bool) (f : Job → Job) (o : Option Job)
    → ((j : Job)
        → o ≡ some j
        → p j ≡ true
        → (is_terminal (f j).status ≡ false) × ((f j).remaining_chunks ≡ j.remaining_chunks))
    → IsActive o
    → CountsDown o (updated p f o) false
CountsDown-updated p f none k h = h
CountsDown-updated p f (some j) k h = elim (Bool-cases (p j)) [
  | inl e ↦ rw e ((k j refl e).0, inl ((k j refl e).1, refl))
  | inr e ↦ rw e (h, inl (refl, refl))
]

and_false : (b : Bool) → (b && false) ≡ false
and_false b = ground arith

module _ (job : Text) (now : ℕ) (db : Database) (w : WellFormed db)
    (active : IsActive (get_job job db)) where
  select-CountsDown :
      (p : Job → Bool) (f : Job → Job)
      → ((j : Job) → (f j).job_id ≡ j.job_id)
      → ((j : Job)
          → get_job job db ≡ some j
          → p j ≡ true
          → (is_terminal (f j).status ≡ false) × ((f j).remaining_chunks ≡ j.remaining_chunks))
      → CountsDown (get_job job db) (select_first (of_job job) (update_where p f db.jobs)) false
  select-CountsDown p f same k =
      rw (select-updated job p f same db.jobs)
        (unfold get_job in CountsDown-updated p f (select_first (of_job job) db.jobs) k active)

  other_job :
      (id : Text) (j : Job)
      → text_eq id job ≡ false
      → get_job job db ≡ some j
      → of_job id j ≡ true
      → ⊥
  other_job id j ne e found = ground (
    arith,
    get_job-of_job job db j e,
    text_eq_iff j.job_id job,
    text_eq_iff j.job_id id,
    text_eq_iff id job,
  )

  -- The row of the job, when a row of some chunk has been marked.
  counted_row :
      (id : Text) (index : ℕ) (s3_key : Text) (j : Job)
      → get_job job db ≡ some j
      → (count_if (open_chunk id index) db.chunks == 0) ≡ false
      → CountsDown
          (some j)
          (updated (active_job id) (count_down now) (some j))
          (text_eq id job && eq_ℤ (completion id index s3_key now db (get_job id db)) (pos 0))
  counted_row id index s3_key j found marked =
      let live : is_terminal j.status ≡ false = subst IsActive found active in
      elim (Bool-cases (text_eq id job)) [
        | inl same ↦
            let at_id : get_job id db ≡ some j =
              ap (λ t. get_job t db) ((text_eq_iff id job).0 same) ∙ found in
            let counts : active_job id j ≡ true = ground (arith, get_job-of_job id db j at_id) in
            let left : ℕ = count_if (is_open job) db.chunks in
            let counted : j.remaining_chunks ≡ pos left = counter db job j w found live in
            let positive : 1 ≤ left =
              ground (arith, count-completed job id index s3_key now db.chunks) in
            rw (at_id, counts, same, live)
              (refl, inr (left - 1, ground arith, ground arith, ground arith))
        | inr other ↦
            let passes : active_job id j ≡ false = ground (
              arith,
              get_job-of_job job db j found,
              text_eq_iff j.job_id job,
              text_eq_iff j.job_id id,
              text_eq_iff id job,
            ) in
            rw (passes, other) (live, inl (refl, refl))
      ]

  complete-CountsDown :
      (id : Text) (index : ℕ) (s3_key : Text)
      → CountsDown
          (get_job job db)
          (get_job job (complete_chunk id index s3_key now db).1)
          (text_eq id job && eq_ℤ (complete_chunk id index s3_key now db).0 (pos 0))
  complete-CountsDown id index s3_key =
      rw
        (
          complete_chunk-result id index s3_key now db w.unique_jobs,
          get_job-complete_chunk id index s3_key now db job,
        )
        (elim (Bool-cases (count_if (open_chunk id index) db.chunks == 0)) [
          | inl e ↦ rw (e, and_false (text_eq id job)) (CountsDown-refl (get_job job db) active)
          | inr e ↦ rw e (elim (Option-cases (get_job job db)) [
            | inl absent ↦ absurd (subst IsActive absent active)
            | inr (j, found) ↦ rw found (counted_row id index s3_key j found e)
          ])
        ])

  kept :
      (new o : Option Job)
      → IsActive o
      → CountsDown o (elim o [ none ↦ new | some j ↦ some j ]) false
  kept new none h = absurd h
  kept new (some j) h = (h, inl (refl, refl))

  create-CountsDown :
      (id key hash url : Text) (ranges : List PageRange) (llm : Bool)
      → CountsDown
          (get_job job db)
          (get_job job (or_unchanged db (create_job id key hash url ranges llm now db)))
          false
  create-CountsDown id key hash url ranges llm =
      unfold create_job in
      elim (Bool-cases (exists_row (of_job id) db.jobs)) [
        | inl e ↦ rw e (CountsDown-refl (get_job job db) active)
        | inr e ↦ elim (Option-cases (insert_chunks id 0 ranges now db.chunks)) [
          | inl none_left ↦ rw (e, none_left) (CountsDown-refl (get_job job db) active)
          | inr (rows, inserted) ↦
              rw (e, inserted)
                (unfold get_job in
                  rw
                    (select_first-append (of_job job) db.jobs
                      (new_job id key hash url (length ranges) llm now ∷ []))
                    (kept _ (select_first (of_job job) db.jobs) (unfold get_job in active)))
        ]
      ]

  pub commit-CountsDown :
      (c : Call)
      → IsQuiet job c
      → CountsDown (get_job job db) (get_job job (commit c now db)) (assembles job c now db)
  unfolding commit assembles
  commit-CountsDown (create id key hash url ranges llm) q =
      create-CountsDown id key hash url ranges llm
  commit-CountsDown (start_row id index owner attempt) q =
      unfold start_chunk_row get_job in CountsDown-refl (get_job job db) active
  commit-CountsDown (start_job id) q =
      unfold start_job_row get_job in
      select-CountsDown (λ j. of_job id j && is_queued j.status)
        (λ j. record j { status = JobStatus.running; updated_at = now }) (λ j. refl)
        (λ j e p. (refl, refl))
  commit-CountsDown (complete id index s3_key) q = complete-CountsDown id index s3_key
  commit-CountsDown (fail_row id index error) q =
      unfold fail_chunk get_job in CountsDown-refl (get_job job db) active
  commit-CountsDown (reschedule id index error) q =
      unfold reschedule_chunk get_job in CountsDown-refl (get_job job db) active
  commit-CountsDown (fail id error index) q =
      unfold fail_job get_job in
      select-CountsDown (active_job id) (set_failed error index now) (λ j. refl)
        (λ j e p. absurd (other_job id j q e (ground arith)))
  commit-CountsDown (finish id) q =
      unfold finish_job get_job in
      select-CountsDown (of_job id) (set_done now) (λ j. refl)
        (λ j e p. absurd (other_job id j q e p))
  commit-CountsDown (record_doc key hash pages chunks len size ttl) q =
      unfold record_document get_job in CountsDown-refl (get_job job db) active
