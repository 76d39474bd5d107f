-- ===== src/Api/Delivered/Tests.antt =====
-- A text of four characters, taken for pages, from its submission to its page.
use markitdown_server.Prelude.{
  ℕ, zero, suc, ◌+◌, ◌≡◌, ◌++◌, ◌≤◌, refl, inl, false, some, none, List, [], ◌∷◌, Text, codes,
  length, arith, All, inr,
}
use markitdown_server.Prelude.Int.{pos}
use markitdown_server.Chunker.{extract_pages}
use markitdown_server.Pagination.{
  paginate, add_blocks, add_block, hard_split, place, close, split_blocks, flush, cut_page,
}
use markitdown_server.Storage.{manifest_of, get_bytes, source_key}
use markitdown_server.Storage.Tests.{plain_codec}
use markitdown_server.Taskqueue.{ChunkTask}
use markitdown_server.Converter.{convert_file}
use markitdown_server.Cache.{cached, total_size}
use markitdown_server.Tables.{Database, Job, JobStatus}
use markitdown_server.Jobstore.{get_job, find_cached_document}
use markitdown_server.Jobstore.Invariant.{WellFormed}
use markitdown_server.Action.{World, Result, returned}
use markitdown_server.Worker.{has_text, join_parts}
use markitdown_server.Worker.Converting.{conversion}
use markitdown_server.Worker.Reordering.{AreAmong}
use markitdown_server.Worker.Tests.{config, tools, world}
use markitdown_server.Api.{answer, page_response}
use markitdown_server.Api.Pages.{get_page_endpoint}
use markitdown_server.Api.Submit.{submit_file, chunk_tasks, doc_key_of, file_hash_of}
use markitdown_server.Api.Tests.{service, outside, two_ranges, planned_two}
use markitdown_server.Api.Delivered.{worked, joined, published_tasks, get_page_endpoint-submitted}

abbrev empty : Database
empty = record { documents = []; jobs = []; chunks = [] }

empty-WellFormed : WellFormed empty
empty-WellFormed = record {
  unique_jobs = λ id. omega arith;
  unique_chunks = λ id i. omega arith;
  counted = λ id. unfold get_job in refl;
}

abbrev start : World
start = record world { db = empty; bucket = [] }

abbrev texts : ℕ → Text
texts zero = codes "te"
texts (suc i) = codes "xt"

-- The tables and the bucket that `submit` left, in the world of a worker.
abbrev for_worker : World
for_worker =
    let after =
      (submit_file service outside (codes "n") (codes "u") false (codes "text") start).1 in
    record start { db = after.db; bucket = after.bucket }

abbrev text_page : Text
text_page = codes "te" ++ 10 ∷ 10 ∷ codes "xt"

abbrev tasks : List ChunkTask
tasks = published_tasks service outside (codes "n") false (codes "text") two_ranges

abbrev key : Text
key = doc_key_of service outside (codes "text") false

converted : All (λ u. conversion tools (codes "text") u ≡ inl (texts u.chunk_index)) tasks
unfolding chunk_tasks convert_file extract_pages
converted = (refl, (refl, tt))

not_recorded : find_cached_document key start.db ≡ none
unfolding find_cached_document
not_recorded = refl

nothing_stored :
    get_bytes (source_key (file_hash_of service outside (codes "text"))) start.bucket ≡ none
unfolding get_bytes
nothing_stored = refl

room : total_size start.cache + length (codes "text") ≤ config.source_cache_max_bytes
unfolding total_size
room = omega arith

nothing_cached : cached (file_hash_of service outside (codes "text")) start.cache ≡ none
unfolding cached
nothing_cached = refl

one_page : paginate (joined texts two_ranges) 10 ≡ some (text_page ∷ [])
unfolding paginate add_blocks add_block hard_split place close split_blocks has_text join_parts
    flush cut_page
one_page = refl

abbrev backwards : List ChunkTask → List ChunkTask
backwards [] = []
backwards (t ∷ ts) = backwards ts ++ t ∷ []

-- The second chunk comes first, and both come twice.
abbrev deliveries : List ChunkTask
deliveries = backwards tasks ++ tasks

only : AreAmong deliveries tasks
unfolding chunk_tasks
only = (inr (inl refl), (inl refl, (inl refl, (inr (inl refl), tt))))

all : AreAmong tasks deliveries
unfolding chunk_tasks
all = (inr (inl refl), (inl refl, tt))

abbrev after : Result Unit × World
after = worked outside config deliveries for_worker

get_page_endpoint-submitted_example :
    (after.0 ≡ returned tt)
    × ((get_page_endpoint plain_codec key (pos 1) (record start { bucket = after.1.bucket })).0
        ≡ returned (
            answer (
              page_response key 1
                (manifest_of plain_codec key (text_page ∷ []) (length (joined texts two_ranges)) 10)
                text_page)))
    × (j : Job) × (get_job (codes "n") after.1.db ≡ some j)
    × (j.status ≡ JobStatus.done)
get_page_endpoint-submitted_example =
    get_page_endpoint-submitted service outside config (codes "n") (codes "u") false (codes "text")
      (0, pos 2) ((2, pos 4) ∷ []) texts start (λ n. (refl, refl)) planned_two deliveries for_worker
      (record start { bucket = after.1.bucket }) (λ n. (refl, refl)) (λ n. (refl, refl))
      (inl not_recorded) empty-WellFormed refl refl (inl nothing_stored) converted refl refl
      nothing_cached room only all refl (text_page ∷ []) 0 text_page one_page refl
