-- ===== src/Jobstore/Completing.antt =====
-- jobstore.py: starting a chunk and completing it, over well-formed tables.
use markitdown_server.Prelude.{
  ℕ, ◌+◌, ◌≡◌, ◌≢◌, refl, ap, sym, ◌∙◌, Bool, false, ◌&&◌, some, List, [], ◌∷◌, arith, count_if,
  keep_if, map, Text, text_eq_refl, if◌then◌else◌,
}
use markitdown_server.Prelude.Int.{ℤ, pos}
use markitdown_server.Sql.{update_where, count_if-update_where, order_by}
use markitdown_server.Tables.{
  Job, JobStatus, Chunk, Database, is_terminal, is_queued, of_job, open_chunk, of_chunk, is_open,
  chunk_already_done,
}
use markitdown_server.Jobstore.{
  get_job, start_chunk_row, start_job_row, complete_chunk, set_running, set_completed, count_down,
  chunk_indices,
}
use markitdown_server.Jobstore.History.{commit, start_row, start_job, complete}
use markitdown_server.Jobstore.Laws.{
  select-updated, complete_chunk-result, get_job-complete_chunk, get_job-of_job,
  chunks-complete_chunk,
}
use markitdown_server.Jobstore.Outcomes.{none-left-open, complete_chunk-none}
use markitdown_server.Jobstore.Rows.{count-completed}
use markitdown_server.Jobstore.Invariant.{WellFormed, counter}
use markitdown_server.Jobstore.WellFormed.{commit-WellFormed}

-- An update that keeps the keys of the chunks keeps their indices.
indices-update_where :
    (id : Text) (p : Chunk → Bool) (f : Chunk → Chunk) (rows : List Chunk)
    → ((c : Chunk) → ((f c).job_id ≡ c.job_id) × ((f c).chunk_index ≡ c.chunk_index))
    → map (λ c. c.chunk_index) (keep_if (of_chunk id) (update_where p f rows))
      ≡ map (λ c. c.chunk_index) (keep_if (of_chunk id) rows)
indices-update_where id p f [] h = refl
indices-update_where id p f (c ∷ rows) h = ground (arith, h c, indices-update_where id p f rows h)

none-open :
    (id : Text) (index : ℕ) (s3_key : Text) (now : ℕ) (rows : List Chunk)
    → (other : ℕ) → other ≢ index
    → count_if
        (open_chunk id other)
        (update_where (open_chunk id index) (set_completed s3_key now) rows)
      ≡ count_if (open_chunk id other) rows
none-open id index s3_key now rows other ne =
    count_if-update_where (open_chunk id other) (open_chunk id index) (set_completed s3_key now)
      rows (λ c e. ground arith)

-- The tables once `start_chunk` has marked the chunk and the job.
abbrev pub started : Text → ℕ → Text → ℕ → ℕ → ℕ → Database → Database
started id index owner attempt t t' db =
    start_job_row id t' (start_chunk_row id index owner attempt t db)

-- The row of a job once a chunk of it is started.
abbrev pub running : ℕ → Job → Job
running now j =
    if is_queued j.status then record j { status = JobStatus.running; updated_at = now } else j

pub get_job-started :
    (id : Text) (index : ℕ) (owner : Text) (attempt t t' : ℕ) (db : Database) (j : Job)
    → get_job id db ≡ some j
    → get_job id (started id index owner attempt t t' db) ≡ some (running t' j)
unfolding get_job start_job_row start_chunk_row
get_job-started id index owner attempt t t' db j found =
    select-updated id (λ j. of_job id j && is_queued j.status)
      (λ j. record j { status = JobStatus.running; updated_at = t' }) (λ j. refl) db.jobs
    ∙ (rw found (ground (arith, get_job-of_job id db j found)))

module _ (id : Text) (index : ℕ) (owner s3_key : Text) (attempt t t' t'' : ℕ) (db : Database) where
  abbrev begun : Database
  begun = started id index owner attempt t t' db

  abbrev pub completed : ℤ × Database
  completed = complete_chunk id index s3_key t'' (started id index owner attempt t t' db)

  chunks-started :
      begun.chunks ≡ update_where (open_chunk id index) (set_running owner attempt t) db.chunks
  chunks-started = unfold start_job_row start_chunk_row in refl

  pub started-WellFormed : WellFormed db → WellFormed begun
  started-WellFormed w =
      let chunk_started = commit-WellFormed (start_row id index owner attempt) t db w tt in
      unfold commit in
      commit-WellFormed (start_job id) t' (commit (start_row id index owner attempt) t db)
        chunk_started tt

  pub completed-WellFormed : WellFormed db → WellFormed completed.1
  completed-WellFormed w =
      unfold commit in
      commit-WellFormed (complete id index s3_key) t'' begun (started-WellFormed w) tt

  pub chunk_indices-started : chunk_indices id begun ≡ chunk_indices id db
  unfolding chunk_indices
  chunk_indices-started = ap order_by same
    where
      same :
          map (λ c. c.chunk_index) (keep_if (of_chunk id) begun.chunks)
          ≡ map (λ c. c.chunk_index) (keep_if (of_chunk id) db.chunks)
      same = rw chunks-started (
          indices-update_where id (open_chunk id index) (set_running owner attempt t) db.chunks
            (λ c. (refl, refl)))

  pub chunk_indices-completed : chunk_indices id completed.1 ≡ chunk_indices id db
  unfolding chunk_indices
  chunk_indices-completed = ap order_by same
    where
      same :
          map (λ c. c.chunk_index) (keep_if (of_chunk id) completed.1.chunks)
          ≡ map (λ c. c.chunk_index) (keep_if (of_chunk id) db.chunks)
      same =
          rw (chunks-complete_chunk id index s3_key t'' begun, chunks-started)
            (indices-update_where id (open_chunk id index) (set_completed s3_key t'') _
                (λ c. (refl, refl))
              ∙ indices-update_where id (open_chunk id index) (set_running owner attempt t)
                  db.chunks (λ c. (refl, refl)))

  pub open-started :
      (other : ℕ)
      → count_if (open_chunk id other) begun.chunks ≡ count_if (open_chunk id other) db.chunks
  open-started other = rw chunks-started (
      count_if-update_where (open_chunk id other) (open_chunk id index)
        (set_running owner attempt t) db.chunks (λ c e. ground arith))

  pub is_open-started : count_if (is_open id) begun.chunks ≡ count_if (is_open id) db.chunks
  is_open-started = rw chunks-started (
      count_if-update_where (is_open id) (open_chunk id index) (set_running owner attempt t)
        db.chunks (λ c e. ground arith))

  -- The chunk itself is not open any more.
  pub open-completed_self : count_if (open_chunk id index) completed.1.chunks ≡ 0
  open-completed_self =
      rw (chunks-complete_chunk id index s3_key t'' begun)
        (none-left-open id index s3_key t'' begun.chunks)

  -- A chunk that is done already is started and completed without an effect on the chunks that are open.
  pub completed-again :
      count_if (open_chunk id index) db.chunks ≡ 0 → completed ≡ (chunk_already_done, begun)
  completed-again none_open =
      complete_chunk-none id index s3_key t'' begun (open-started index ∙ none_open)

  -- The other chunks stay as open as they were.
  pub open-completed :
      (other : ℕ)
      → other ≢ index
      → count_if (open_chunk id other) completed.1.chunks ≡ count_if (open_chunk id other) db.chunks
  open-completed other ne =
      rw (chunks-complete_chunk id index s3_key t'' begun)
        (none-open id index s3_key t'' begun.chunks other ne ∙ open-started other)

  module _ (w : WellFormed db) (j : Job) (found : get_job id db ≡ some j)
      (active : is_terminal j.status ≡ false)
      (one_open : count_if (open_chunk id index) db.chunks ≡ 1) where
    pub is_open-completed :
        count_if (is_open id) completed.1.chunks + 1 ≡ count_if (is_open id) db.chunks
    is_open-completed = rw (chunks-complete_chunk id index s3_key t'' begun) (
        ground (
          arith,
          count-completed id id index s3_key t'' begun.chunks,
          text_eq_refl id,
          open-started index,
          is_open-started,
        ))

    running_active : is_terminal (running t' j).status ≡ false
    running_active = ground arith

    -- What `complete_chunk` returns is how many chunks of the job are left.
    pub completed-remaining : completed.0 ≡ pos (count_if (is_open id) completed.1.chunks)
    completed-remaining =
        complete_chunk-result id index s3_key t'' begun (started-WellFormed w).unique_jobs
        ∙ (rw (one, get_job-started id index owner attempt t t' db j found, running_active, left)
            (ground arith))
      where
        one : count_if (open_chunk id index) begun.chunks ≡ 1
        one = open-started index ∙ one_open

        left : (running t' j).remaining_chunks ≡ pos (count_if (is_open id) completed.1.chunks + 1)
        left =
            counter begun id (running t' j) (started-WellFormed w)
              (get_job-started id index owner attempt t t' db j found) running_active
            ∙ ap pos (is_open-started ∙ sym is_open-completed)

    -- The job stays active, and keeps its document.
    pub get_job-completed :
        (j' : Job) × (get_job id completed.1 ≡ some j')
        × (is_terminal j'.status ≡ false)
        × (j'.job_id ≡ j.job_id)
        × (j'.doc_key ≡ j.doc_key)
    get_job-completed = (
      count_down t'' (running t' j),
      get_job-complete_chunk id index s3_key t'' begun id
          ∙ (rw
              (
                open-started index ∙ one_open,
                get_job-started id index owner attempt t t' db j found,
              )
              (ground (
                arith,
                get_job-of_job id begun (running t' j)
                    (get_job-started id index owner attempt t t' db j found),
                running_active,
              ))),
      refl,
      ground arith,
      ground arith,
    )
