-- ===== src/Jobstore/Outcomes.antt =====
-- What the functions of jobstore.py do to one job, called one after another.
use markitdown_server.Prelude.{
  ℕ, ◌≤◌, ◌≡◌, refl, ap, ◌∙◌, true, false, Option, some, List, [], ◌∷◌, arith, count_if, Text, ◌==◌,
  take,
}
use markitdown_server.Prelude.Int.{pos, ◌-ℤ◌}
use markitdown_server.Sql.{count_if_mono, update_where}
use markitdown_server.Tables.{
  Job, JobStatus, Chunk, Database, is_terminal, is_done, of_job, at_chunk, active_job, open_chunk,
  chunk_already_done,
}
use markitdown_server.Jobstore.{
  set_done, set_failed, set_completed, count_down, get_job, complete_chunk, fail_chunk, fail_job,
  finish_job,
}
use markitdown_server.Jobstore.History.{commit, complete, fail_row}
use markitdown_server.Jobstore.Assembler.{commit-HasUniqueJobs}
use markitdown_server.Jobstore.Laws.{
  HasUniqueJobs, updated, select-updated, complete_chunk-result, get_job-complete_chunk,
  get_job-of_job, chunks-complete_chunk,
}

-- An update of the rows that pass a test, when none does.
update-none :
    (id : Text) (index : ℕ) (f : Chunk → Chunk) (rows : List Chunk)
    → count_if (open_chunk id index) rows ≡ 0
    → update_where (open_chunk id index) f rows ≡ rows
update-none id index f [] h = refl
update-none id index f (c ∷ rows) h = ground (arith, update-none id index f rows)

pub none-left-open :
    (id : Text) (index : ℕ) (s3_key : Text) (now : ℕ) (rows : List Chunk)
    → count_if
        (open_chunk id index)
        (update_where (open_chunk id index) (set_completed s3_key now) rows)
      ≡ 0
none-left-open id index s3_key now [] = refl
none-left-open id index s3_key now (c ∷ rows) =
    ground (arith, none-left-open id index s3_key now rows)

pub complete_chunk-none :
    (id : Text) (index : ℕ) (s3_key : Text) (now : ℕ) (db : Database)
    → count_if (open_chunk id index) db.chunks ≡ 0
    → complete_chunk id index s3_key now db ≡ (chunk_already_done, db)
unfolding complete_chunk
complete_chunk-none id index s3_key now db h = rw h (
    ap (λ rows. (chunk_already_done, record db { chunks = rows }))
      (update-none id index (set_completed s3_key now) db.chunks h))

-- What `complete_chunk` leaves of the rows that `fail_chunk` reopens.
reopened :
    (id : Text) (index : ℕ) (s3_key : Text) (now : ℕ) (f : Chunk → Chunk) (rows : List Chunk)
    → ((c : Chunk)
        → ((f c).job_id ≡ c.job_id)
          × ((f c).chunk_index ≡ c.chunk_index)
          × (is_done (f c).status ≡ false))
    → count_if (open_chunk id index) (
        update_where
          (at_chunk id index)
          f
          (update_where (open_chunk id index) (set_completed s3_key now) rows))
      ≡ count_if (at_chunk id index) rows
reopened id index s3_key now f [] h = refl
reopened id index s3_key now f (c ∷ rows) h =
    ground (arith, h (set_completed s3_key now c), h c, reopened id index s3_key now f rows h)

get_job-fail_chunk :
    (id : Text) (index : ℕ) (error : Text) (now : ℕ) (db : Database) (job : Text)
    → get_job job (fail_chunk id index error now db) ≡ get_job job db
get_job-fail_chunk id index error now db job = unfold fail_chunk get_job in refl

count-reopened :
    (id : Text) (index : ℕ) (s3_key error : Text) (now : ℕ) (db : Database)
    → count_if
        (open_chunk id index)
        (fail_chunk id index error now (complete_chunk id index s3_key now db).1).chunks
      ≡ count_if (at_chunk id index) db.chunks
unfolding fail_chunk
count-reopened id index s3_key error now db =
    rw (chunks-complete_chunk id index s3_key now db)
      (reopened id index s3_key now _ db.chunks (λ c. (refl, refl, refl)))

-- `fail_chunk` does not spare a chunk that is done: where a job that is active has a chunk that is not done, completing the chunk,
-- failing it (as a second delivery of its message does) and completing it again counts the job down twice for one chunk.
pub complete_chunk-fail_chunk :
    (id : Text) (index : ℕ) (s3_key error : Text) (now : ℕ) (db : Database) (j : Job)
    → HasUniqueJobs db
    → get_job id db ≡ some j
    → is_terminal j.status ≡ false
    → 1 ≤ count_if (open_chunk id index) db.chunks
    → (complete_chunk id index s3_key now
        (fail_chunk id index error now (complete_chunk id index s3_key now db).1)).0
      ≡ j.remaining_chunks -ℤ pos 1 -ℤ pos 1
complete_chunk-fail_chunk id index s3_key error now db j u found active some_open =
    complete_chunk-result id index s3_key now failed unique
    ∙ (rw (get_job-fail_chunk id index error now done id, open_again, first)
        (ground (arith, get_job-of_job id db j found)))
  where
    done : Database
    done = (complete_chunk id index s3_key now db).1

    failed : Database
    failed = fail_chunk id index error now done

    unique : HasUniqueJobs failed
    unique =
        unfold commit in
        commit-HasUniqueJobs (fail_row id index error) now done
          (commit-HasUniqueJobs (complete id index s3_key) now db u)

    first : get_job id done ≡ some (count_down now j)
    first =
        get_job-complete_chunk id index s3_key now db id
        ∙ (rw found (ground (arith, get_job-of_job id db j found)))

    open-le-at : count_if (open_chunk id index) db.chunks ≤ count_if (at_chunk id index) db.chunks
    open-le-at =
        count_if_mono (at_chunk id index) (open_chunk id index) db.chunks (λ c h. ground arith)

    open_again : (count_if (open_chunk id index) failed.chunks == 0) ≡ false
    open_again = rw (count-reopened id index s3_key error now db) (ground (arith, open-le-at))

pub get_job-finish_job :
    (id : Text) (now : ℕ) (db : Database)
    → get_job id (finish_job id now db) ≡ updated (of_job id) (set_done now) (get_job id db)
get_job-finish_job id now db =
    unfold get_job finish_job in select-updated id (of_job id) (set_done now) (λ j. refl) db.jobs

pub get_job-fail_job :
    (id error : Text) (index : Option ℕ) (now : ℕ) (db : Database)
    → get_job id (fail_job id error index now db)
      ≡ updated (active_job id) (set_failed error index now) (get_job id db)
get_job-fail_job id error index now db =
    unfold get_job fail_job in
    select-updated id (active_job id) (set_failed error index now) (λ j. refl) db.jobs

-- `finish_job` does not ask for the status: an active job that is failed and then finished is done, with the error still
-- set.
pub finish_job-failed :
    (id error : Text) (index : Option ℕ) (now later : ℕ) (db : Database) (j : Job)
    → get_job id db ≡ some j
    → is_terminal j.status ≡ false
    → (j' : Job) × (get_job id (finish_job id later (fail_job id error index now db)) ≡ some j')
      × (j'.status ≡ JobStatus.done)
      × (j'.error ≡ some (take 2000 error))
finish_job-failed id error index now later db j found active =
    let mine : of_job id j ≡ true = get_job-of_job id db j found in
    (set_done later (set_failed error index now j), in_turn mine, refl, refl)
  where
    in_turn :
        of_job id j ≡ true
        → get_job id (finish_job id later (fail_job id error index now db))
          ≡ some (set_done later (set_failed error index now j))
    in_turn mine = rw (get_job-finish_job, get_job-fail_job, found) (ground arith)
