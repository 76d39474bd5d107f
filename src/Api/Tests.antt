-- ===== src/Api/Tests.antt =====
-- Tests of the endpoints, and the theorems at concrete inputs.
use mathlib.Core.List.{append_assoc, append-nil}
use markitdown_server.Prelude.{
  text_eq_refl, zero, suc, ℕ, ◌+◌, ◌%◌, ◌≡◌, ◌++◌, refl, inl, false, true, none, some, List, [],
  ◌∷◌, ◌⊎◌, codes, text_eq, length, Text, arith, All, map, get_elem?,
}
use markitdown_server.Prelude.Int.{pos, negsuc}
use markitdown_server.Chunker.{
  PageRange, planned, page_count, plan_chunks, plan_pages, split_ranges, range_step,
}
use markitdown_server.Storage.{
  Bytes, put_source, manifest_of, Manifest, get_bytes, part_key, get_part,
}
use markitdown_server.Storage.Tests.{plain_codec}
use markitdown_server.Storage.Fingerprint.{Hash, is_hex}
use markitdown_server.Taskqueue.{Message, publish}
use markitdown_server.Taskqueue.Tests.{plain_tasks, settings}
use markitdown_server.Tables.{Job, JobStatus, is_terminal}
use markitdown_server.Jobstore.{
  new_job, get_job, find_cached_document, finish_job, new_chunk, chunk_indices,
}
use markitdown_server.Jobstore.Creating.{new_chunks}
use markitdown_server.Jobstore.History.{run, commit, finish}
use markitdown_server.Jobstore.Lasting.{HasJob}
use markitdown_server.Action.{World, passes, returned}
use markitdown_server.Worker.{assemble, markdown_of}
use markitdown_server.Worker.Tests.{
  config, tools, running_job, world, stored_world, text_page, stored_parts, text_paginated,
}
use markitdown_server.Worker.Passing.{quiet, PartsAre}
use markitdown_server.Api.{Service, Outside, accepted, cached, answer, page_response}
use markitdown_server.Api.Pages.{wait_for_job, get_page_endpoint, completed_job_payload}
use markitdown_server.Api.Submit.{submit, submit_file, submit_request, doc_key_of, file_hash_of}
use markitdown_server.Api.Posting.{IsTaskOf}
use markitdown_server.Api.Announcing.{submit-announces}
use markitdown_server.Api.Submitting.{first_task, submit_file-enqueues}
use markitdown_server.Api.Waiting.{polled, wait_for_job-returns}
use markitdown_server.Api.Serving.{get_page_endpoint-assemble}
use markitdown_server.Api.Refusing.{submit_request-replies, IsAnswered}
use markitdown_server.Api.Resubmitting.{submit_file-assembled}

-- A hash that keeps everything.
pub digits_hex : (s : Bytes) → All (λ c. is_hex c ≡ true) (map (λ c. 97 + c % 6) s)
digits_hex [] = tt
digits_hex (c ∷ s) = (ground arith, digits_hex s)

abbrev pub plain_hash : Hash
plain_hash = record {
  State = Bytes;
  new_state = [];
  update = λ s b. s ++ b;
  hexdigest = λ s. map (λ c. 97 + c % 6) s;
  update-append = λ s a b. append_assoc s a b;
  update-empty = λ s. append-nil s;
  hexdigest_hex = digits_hex;
}

abbrev pub service : Service
service = record {
  admin_api_key = some (codes "k");
  convert_use_llm = false;
  broker = settings;
  conversion = record {
    openai_model = codes "m";
    page_size = pos 10;
    pages_per_chunk = pos 2;
    min_pages = pos 4;
  };
  max_download_bytes = 100;
}

abbrev pub outside : Outside
outside = record {
  codec = plain_codec;
  tasks = plain_tasks;
  tools = tools;
  hash = plain_hash;
  markitdown_version = some (codes "1");
  respond = λ url. some (inl (record { status_code = 200; chunks = inl (codes "text") ∷ [] }));
  is_client_error = λ e. false;
}

abbrev pub two_ranges : List PageRange
two_ranges = (0, pos 2) ∷ (2, pos 4) ∷ []

pub planned_two :
    plan_chunks (page_count tools.read_pages (codes "text")) (pos 2) (pos 4) ≡ planned two_ranges
unfolding plan_chunks page_count plan_pages split_ranges range_step
planned_two = refl

submit-announces_example :
    let after = (submit service outside (codes "n") (codes "u") false world).1 in
    (ms : List Message) × (after.published ≡ [] ++ ms)
    × All (IsTaskOf settings plain_tasks (codes "n")) ms
    × ((ms ≡ []) ⊎ HasJob (codes "n") after.db)
submit-announces_example = submit-announces service outside (codes "n") (codes "u") false world

not_recorded :
    find_cached_document (doc_key_of service outside (codes "text") false) world.db ≡ none
unfolding find_cached_document
not_recorded = refl

submit_file-enqueues_example :
    (t n : ℕ) × (submit_file service outside (codes "n") (codes "u") false (codes "text") world ≡ (
      returned (accepted (codes "n") (doc_key_of service outside (codes "text") false) 2),
      record world {
        db = record world.db {
          jobs =
              running_job
              ∷ new_job
                  (codes "n")
                  (doc_key_of service outside (codes "text") false)
                  (file_hash_of service outside (codes "text"))
                  (codes "u")
                  2
                  false
                  t
              ∷ [];
          chunks = new_chunks (codes "n") 0 two_ranges t;
        };
        bucket =
            put_source (file_hash_of service outside (codes "text")) (codes "text") world.bucket;
        published = publish settings plain_tasks (
            map
              (first_task
                (doc_key_of service outside (codes "text") false)
                (file_hash_of service outside (codes "text"))
                2
                false)
              (new_chunks (codes "n") 0 two_ranges t));
        calls = n;
      },
    ))
unfolding text_eq
submit_file-enqueues_example =
    submit_file-enqueues service outside (codes "n") (codes "u") false (codes "text") two_ranges
      world (λ n. (refl, refl)) planned_two (inl not_recorded) refl refl

-- A job that another worker finishes between the first poll and the second.
abbrev finished_later : World
finished_later = record world {
  schedule = λ n. record {
    now = n;
    others = elim n [
      | zero ↦ quiet
      | suc m ↦ record quiet { transactions = (finish (codes "j"), 5) ∷ [] }
    ];
    outcome = passes;
  };
}

abbrev done_job : Job
done_job = record running_job { status = JobStatus.done; updated_at = 5 }

finished : get_job (codes "j") (polled 2 finished_later).db ≡ some done_job
unfolding get_job run commit finish_job text_eq
finished = refl

wait_for_job-returns_example :
    (n : ℕ) × (j' : Job) × (wait_for_job 3 (codes "j") finished_later
      ≡ (returned j', polled n finished_later))
    × (get_job (codes "j") (polled n finished_later).db ≡ some j')
    × (is_terminal j'.status ≡ true)
wait_for_job-returns_example =
    wait_for_job-returns (codes "j") 3 1 finished_later done_job (λ n. refl) finished refl
      (omega arith)

abbrev text_manifest : Text → Manifest
text_manifest key = manifest_of plain_codec key text_page (length (markdown_of text_page)) 10

get_page_endpoint-assemble_example :
    let after = (assemble config plain_codec plain_tasks tools running_job stored_world).1 in
    ((get_page_endpoint plain_codec (codes "d") (pos 1) after).0
      ≡ returned (answer (page_response (codes "d") 1 (text_manifest (codes "d")) (codes "text"))))
    × (p : Text) × (get_elem? text_page 0 ≡ some p)
    × ((completed_job_payload plain_codec done_job after).0
        ≡ returned (answer (page_response (codes "d") 1 (text_manifest (codes "d")) p)))
get_page_endpoint-assemble_example =
    get_page_endpoint-assemble config plain_codec plain_tasks tools running_job text_page text_page
      stored_world (λ n. (refl, refl)) stored_parts text_paginated (pos 1) done_job refl refl

submit_request-replies_example :
    IsAnswered outside
      (codes "u")
      (submit_request service outside
        (codes "n")
        (some (record { file = some (codes "u"); use_llm = none }))
        world).0
submit_request-replies_example =
    submit_request-replies service outside (codes "n")
      (some (record { file = some (codes "u"); use_llm = none })) world

-- A job for the text, whose only part is stored.
abbrev text_key : Text
text_key = doc_key_of service outside (codes "text") false

abbrev text_job : Job
text_job = record running_job { doc_key = text_key }

abbrev parts_world : World
parts_world = record world {
  db = record {
    documents = [];
    jobs = text_job ∷ [];
    chunks = new_chunk (codes "j") 0 (0, negsuc 0) 1 ∷ [];
  };
  bucket = (part_key text_key 0, codes "text") ∷ [];
}

text_part :
    PartsAre plain_codec text_key parts_world.bucket
      (chunk_indices (codes "j") parts_world.db)
      text_page
unfolding chunk_indices get_part get_bytes text_eq
text_part = (rw (text_eq_refl (part_key text_key 0)) refl, tt)

found_text_job : get_job (codes "j") parts_world.db ≡ some text_job
unfolding get_job text_eq
found_text_job = refl

submit_file-assembled_example :
    let after = (assemble config plain_codec plain_tasks tools text_job parts_world).1 in
    (p : Text) × (get_elem? text_page 0 ≡ some p)
    × (submit_file service outside (codes "n") (codes "u") false (codes "text") after ≡ (
      returned (cached (page_response text_key 1 (text_manifest text_key) p)),
      record after { calls = after.calls + 1 + 1 + 1 },
    ))
submit_file-assembled_example =
    submit_file-assembled config service outside text_job text_page text_page parts_world
      (λ n. (refl, refl)) text_part text_paginated text_job (codes "n") (codes "u") false
      (codes "text") found_text_job refl
