-- ===== src/Worker/Tests.antt =====
-- Tests of the worker, and the theorems at concrete inputs.
use markitdown_server.Prelude.{
  ℕ, ◌+◌, ◌≡◌, ◌++◌, refl, inl, inr, false, [], ◌∷◌, codes, text_eq, List, some, length, Text,
  arith, count_if, true,
}
use markitdown_server.Storage.Tests.{plain_codec}
use markitdown_server.Taskqueue.Tests.{plain_tasks, settings, third_try}
use markitdown_server.Tables.{Job, JobStatus, open_chunk, is_terminal}
use markitdown_server.Jobstore.{
  new_job, get_job, new_chunk, new_document, chunk_indices, find_cached_document, set_completed,
}
use markitdown_server.Action.{World, passes, lost, Error, returned}
use markitdown_server.Worker.{
  Config, Tools, handle, has_text, join_parts, negsuc, pos, assemble, describe, markdown_of,
  on_task, record_chunk,
}
use markitdown_server.Worker.Passing.{PartsAre, quiet}
use markitdown_server.Worker.Assembly.{assemble-stores}
use markitdown_server.Worker.Rescuing.{handle-retries, handle-gives_up}
use markitdown_server.Worker.Converting.{HasSource}
use markitdown_server.Converter.{convert_file}
use markitdown_server.Cache.{cached, total_size}
use markitdown_server.Taskqueue.{publish_retry, publish_failed, ChunkTask}
use markitdown_server.Storage.{
  found, get_manifest, get_page, get_part, get_bytes, part_key, source_key, manifest_of, digits,
  decimal, decimal05,
}
use markitdown_server.Pagination.{
  paginate, add_blocks, add_block, hard_split, place, close, split_blocks, flush, cut_page,
}
use markitdown_server.Worker.Ending.{on_task-returns}
use markitdown_server.Worker.Redelivery.{record_chunk-again}
use markitdown_server.Worker.Effects.{Sends, handle-Sends}

abbrev pub config : Config
config = record {
  broker = settings;
  page_size = 10;
  document_ttl_days = 1;
  source_cache_max_bytes = 100;
  consumer_name = codes "w";
}

-- A tool for which a file is its pages and a conversion copies the file.
abbrev pub tools : Tools
tools = record {
  Page = ℕ;
  read_pages = λ bs. inl bs;
  write_pages = λ ps. ps;
  markitdown = λ with_client bs. inl bs;
  openai_api_key = [];
  is_amqp_error = λ e. false;
  directory = record { lists = true; removes = λ f. true };
}

-- A job of two chunks whose source is stored, and a schedule on which all calls pass.
abbrev pub running_job : Job
running_job = new_job (codes "j") (codes "d") (codes "h") [] 2 false 1

abbrev pub world : World
world = record {
  db = record { documents = []; jobs = running_job ∷ []; chunks = [] };
  bucket = (codes "src/h", codes "text") ∷ [];
  published = [];
  cache = [];
  schedule = λ n. record { now = n; others = quiet; outcome = passes };
  calls = 0;
}

abbrev failed_world : World
failed_world = record world {
  db = record {
    documents = [];
    jobs = record running_job { status = JobStatus.failed } ∷ [];
    chunks = [];
  };
}

abbrev connection_error : Error
connection_error = record {
  type_name = codes "OperationalError";
  message = codes "connection lost";
}

abbrev broken_world : World
broken_world = record world {
  schedule = λ n. record { now = n; others = quiet; outcome = lost connection_error };
}

has_text_blank : has_text (32 ∷ 10 ∷ 160 ∷ []) ≡ false
unfolding has_text
has_text_blank = refl

join_parts_two : join_parts (codes "a" ∷ codes "b" ∷ []) ≡ 97 ∷ 10 ∷ 10 ∷ 98 ∷ []
unfolding join_parts
join_parts_two = refl

handle-Sends_example :
    Sends config plain_tasks third_try world
      (handle config plain_codec plain_tasks tools third_try world).1
handle-Sends_example = handle-Sends config plain_codec plain_tasks tools third_try world

-- A job whose only chunk is stored.
abbrev pub text_page : List Text
text_page = codes "text" ∷ []

abbrev pub stored_world : World
stored_world = record world {
  db = record {
    documents = [];
    jobs = running_job ∷ [];
    chunks = new_chunk (codes "j") 0 (0, negsuc 0) 1 ∷ [];
  };
  bucket = (codes "parts/d/00000.md", codes "text") ∷ [];
}

pub stored_parts :
    PartsAre plain_codec
      (codes "d")
      stored_world.bucket
      (chunk_indices (codes "j") stored_world.db)
      text_page
unfolding chunk_indices get_part get_bytes part_key decimal05 decimal digits text_eq
stored_parts = (refl, tt)

pub text_paginated : paginate (markdown_of text_page) 10 ≡ some text_page
unfolding paginate add_blocks add_block hard_split place close split_blocks has_text join_parts
    flush cut_page
text_paginated = refl

pub found_running : get_job (codes "j") stored_world.db ≡ some running_job
unfolding get_job text_eq
found_running = refl

assemble-stores_example :
    let after = assemble config plain_codec plain_tasks tools running_job stored_world in
    (after.0 ≡ returned tt)
    × (get_manifest plain_codec (codes "d") after.1.bucket
        ≡ found (manifest_of plain_codec (codes "d") text_page (length (markdown_of text_page)) 10))
    × (get_page plain_codec (codes "d") 1 after.1.bucket ≡ found (codes "text"))
    × ((t : ℕ) × (find_cached_document (codes "d") after.1.db
          ≡ some
              (new_document (codes "d") (codes "h") 1 2 (length (markdown_of text_page)) 10 1 t)))
    × (j' : Job) × (get_job (codes "j") after.1.db ≡ some j')
    × (j'.status ≡ JobStatus.done)
assemble-stores_example =
    assemble-stores config plain_codec plain_tasks tools running_job text_page text_page
      stored_world (λ n. (refl, refl)) stored_parts text_paginated running_job 0 (codes "text")
      found_running refl

abbrev first_try : ChunkTask
first_try = record third_try { attempt = 1 }

abbrev failing_tools : Tools
failing_tools = record tools { markitdown = λ with_client bs. inr connection_error }

has_source : HasSource config (codes "h") (codes "text") world
unfolding cached get_bytes source_key total_size text_eq
has_source = inr (refl, refl, omega arith)

found_world : get_job (codes "j") world.db ≡ some running_job
unfolding get_job text_eq
found_world = refl

handle-retries_example :
    let after = handle config plain_codec plain_tasks failing_tools first_try world in
    (after.0 ≡ returned tt)
    × (after.1.published ≡ [] ++ publish_retry settings plain_tasks first_try ∷ [])
    × (j' : Job) × (get_job (codes "j") after.1.db ≡ some j')
    × (is_terminal j'.status ≡ false)
    × (j'.remaining_chunks ≡ running_job.remaining_chunks)
unfolding convert_file
handle-retries_example =
    handle-retries config plain_codec plain_tasks failing_tools (codes "text") first_try world
      (λ n. (refl, refl)) has_source running_job connection_error found_world refl refl
      (omega arith)

handle-gives_up_example :
    let after = handle config plain_codec plain_tasks failing_tools third_try world in
    (after.0 ≡ returned tt)
    × (after.1.published
        ≡ [] ++ publish_failed settings plain_tasks third_try (describe connection_error) ∷ [])
    × (j' : Job) × (get_job (codes "j") after.1.db ≡ some j')
    × (j'.status ≡ JobStatus.failed)
    × (j'.error_chunk ≡ some 1)
unfolding convert_file
handle-gives_up_example =
    handle-gives_up config plain_codec plain_tasks failing_tools (codes "text") third_try world
      (λ n. (refl, refl)) has_source running_job connection_error found_world refl refl
      (omega arith)

-- A job whose chunks are all done, but which nobody has assembled.
abbrev stuck_world : World
stuck_world = record world {
  db = record {
    documents = [];
    jobs = record running_job { remaining_chunks = pos 0; status = JobStatus.running } ∷ [];
    chunks = set_completed (codes "parts/j") 2 (new_chunk (codes "j") 1 (0, negsuc 0) 1) ∷ [];
  };
}

no_open_chunk : count_if (open_chunk (codes "j") 1) stuck_world.db.chunks ≡ 0
unfolding text_eq
no_open_chunk = refl

record_chunk-again_example :
    record_chunk config plain_codec plain_tasks tools first_try stuck_world
    ≡ (returned tt, record stuck_world { calls = stuck_world.calls + 1 })
record_chunk-again_example =
    record_chunk-again config plain_codec plain_tasks tools first_try stuck_world
      (λ n. (refl, refl)) no_open_chunk

on_task-returns_example :
    (on_task config plain_codec plain_tasks tools third_try broken_world).0 ≡ returned tt
on_task-returns_example =
    on_task-returns config plain_codec plain_tasks tools (omega arith) third_try broken_world
