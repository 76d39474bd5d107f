-- ===== src/Jobstore/Tests.antt =====
-- Runs of jobstore.py after its tests, and the theorems at concrete databases.
use markitdown_server.Prelude.{
  ◌≤◌, ◌≡◌, refl, false, none, some, [], ◌∷◌, Text, codes, text_eq, arith,
}
use markitdown_server.Prelude.Int.{pos, ◌-ℤ◌}
use markitdown_server.Jobstore.Ended.{HasEnded, run-HasEnded}
use markitdown_server.Jobstore.History.{
  start_job, finish, Call, create, start_row, complete, reschedule, History, commit, run,
  assemblies,
}
use markitdown_server.Tables.{Job, Database, chunk_already_done, job_already_terminal}
use markitdown_server.Jobstore.{
  create_job, insert_chunks, complete_chunk, fail_chunk, fail_job, get_job, job_progress,
  chunk_indices, new_job, record_document, find_cached_document, start_chunk_row, reschedule_chunk,
  new_document, JobStatus,
}
use markitdown_server.Jobstore.Invariant.{WellFormed}
use markitdown_server.Jobstore.Assembler.{assemblies-le-one}
use markitdown_server.Jobstore.WellFormed.{commit-WellFormed}
use markitdown_server.Jobstore.Counter.{run-WellFormed}
use markitdown_server.Jobstore.Once.{assemblies-eq-one}
use markitdown_server.Jobstore.Outcomes.{complete_chunk-fail_chunk}
use markitdown_server.Jobstore.Spared.{complete_chunk-again}

abbrev empty : Database
empty = record { documents = []; jobs = []; chunks = [] }

abbrev job : Text
job = codes "j"

abbrev create_two : Call
create_two =
    create job (codes "h:fp") (codes "h") (codes "http://x") ((0, pos 20) ∷ (20, pos 40) ∷ []) false

abbrev created : Database
created = commit create_two 7 empty

-- Both chunks are converted, the first of them twice, the second after a retry.
abbrev busy : History
busy =
    (start_row job 0 (codes "w") 1, 8)
    ∷ (complete job 0 (codes "p0"), 9)
    ∷ (complete job 0 (codes "p0"), 10)
    ∷ (reschedule job 1 (codes "boom"), 11)
    ∷ (complete job 1 (codes "p1"), 12)
    ∷ []

test_create :
    (chunk_indices job created ≡ 0 ∷ 1 ∷ []) × ((job_progress job created).percent ≡ pos 0)
unfolding commit create_job insert_chunks chunk_indices job_progress get_job text_eq
test_create = (refl, refl)

test_progress : (job_progress job (commit (complete job 1 (codes "p1")) 9 created)).percent ≡ pos 50
unfolding commit create_job insert_chunks complete_chunk job_progress get_job text_eq
test_progress = refl

test_counts_down :
    ((complete_chunk job 0 (codes "p0") 9 created).0 ≡ pos 1)
    × ((complete_chunk job 1 (codes "p1") 9 (complete_chunk job 0 (codes "p0") 9 created).1).0
        ≡ pos 0)
unfolding commit create_job insert_chunks complete_chunk text_eq
test_counts_down = (refl, refl)

test_failed_job :
    (complete_chunk job 0 (codes "p0") 9 (fail_job job (codes "boom") none 8 created)).0
    ≡ job_already_terminal
unfolding commit create_job insert_chunks complete_chunk fail_job text_eq
test_failed_job = refl

-- The row keeps the part of the key behind the colon.
test_document :
    find_cached_document
      (codes "h:fp")
      (record_document (codes "h:fp") (codes "h") 3 2 90 40 7 100 empty)
    ≡ some (record {
      doc_key = codes "h:fp";
      file_hash = codes "h";
      config_fp = codes "fp";
      total_pages = 3;
      total_chunks = 2;
      total_length = 90;
      page_size = 40;
      created_at = 100;
      expires_at = 604900;
    })
unfolding find_cached_document record_document text_eq new_document
test_document = refl

empty-WellFormed : WellFormed empty
empty-WellFormed = record {
  unique_jobs = λ id. omega arith;
  unique_chunks = λ id i. omega arith;
  counted = λ id. unfold get_job in refl;
}

created-WellFormed : WellFormed created
created-WellFormed = commit-WellFormed create_two 7 empty empty-WellFormed tt

assemblies-le-one_example : assemblies job busy created ≤ 1
assemblies-le-one_example = assemblies-le-one job busy created created-WellFormed.unique_jobs

run-WellFormed_example : WellFormed (run busy created)
run-WellFormed_example =
    run-WellFormed busy created created-WellFormed (tt, (tt, (tt, (tt, (tt, tt)))))

assemblies-eq-one_example : assemblies job busy created ≡ 1
unfolding commit create_job insert_chunks get_job run start_chunk_row reschedule_chunk
    complete_chunk text_eq
assemblies-eq-one_example =
    assemblies-eq-one job busy created created-WellFormed (tt, (tt, (tt, (tt, (tt, tt)))))
      (tt, (tt, (tt, (tt, (tt, tt))))) refl (omega arith) refl

-- A redelivered copy of the message is taken up and fails, and the other chunk is completed, between two completions.
abbrev meanwhile : History
meanwhile =
    (start_row job 0 (codes "w") 2, 10)
    ∷ (reschedule job 0 (codes "lost"), 11)
    ∷ (complete job 1 (codes "p1"), 12)
    ∷ []

complete_chunk-again_example :
    let after = run meanwhile (complete_chunk job 0 (codes "p0") 9 created).1 in
    complete_chunk job 0 (codes "q") 13 after ≡ (chunk_already_done, after)
complete_chunk-again_example =
    complete_chunk-again job 0 meanwhile (codes "p0") (codes "q") 9 13 created (tt, (tt, (tt, tt)))

abbrev the_job : Job
the_job = new_job job (codes "h:fp") (codes "h") (codes "http://x") 2 false 7

complete_chunk-fail_chunk_example :
    (complete_chunk job 0
      (codes "p0")
      9
      (fail_chunk job 0 (codes "boom") 9 (complete_chunk job 0 (codes "p0") 9 created).1)).0
    ≡ pos 2 -ℤ pos 1 -ℤ pos 1
unfolding commit create_job insert_chunks get_job text_eq
complete_chunk-fail_chunk_example =
    complete_chunk-fail_chunk job 0 (codes "p0") (codes "boom") 9 created the_job
      created-WellFormed.unique_jobs refl refl (omega arith)

abbrev ended_db : Database
ended_db = record {
  documents = [];
  jobs = record (new_job (codes "e") [] [] [] 1 false 0) { status = JobStatus.failed } ∷ [];
  chunks = [];
}

run-HasEnded_example :
    HasEnded (codes "e") (run ((start_job (codes "e"), 3) ∷ (finish (codes "e"), 4) ∷ []) ended_db)
unfolding get_job text_eq
run-HasEnded_example =
    run-HasEnded (codes "e") ((start_job (codes "e"), 3) ∷ (finish (codes "e"), 4) ∷ []) ended_db
      refl
