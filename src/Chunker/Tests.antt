-- ===== src/Chunker/Tests.antt =====
-- Runs of chunker.py at the inputs of its tests, and its theorems at concrete documents.
use markitdown_server.Prelude.{ℕ, ◌≡◌, refl, none, some, List, [], ◌∷◌, map, concat}
use markitdown_server.Prelude.Int.{pos}
use markitdown_server.Chunker.{
  PageRange, whole_file, planned, plan_chunks, extract_pages, plan_pages, split_ranges, range_step,
}
use markitdown_server.Chunker.Partition.{extract-plan_chunks}

test_remainder :
    plan_chunks (some 45) (pos 20) (pos 40)
    ≡ planned ((0, pos 20) ∷ (20, pos 40) ∷ (40, pos 45) ∷ [])
unfolding plan_chunks plan_pages split_ranges range_step
test_remainder = refl

test_small_pdf : plan_chunks (some 39) (pos 20) (pos 40) ≡ planned (whole_file ∷ [])
unfolding plan_chunks plan_pages
test_small_pdf = refl

test_non_pdf : plan_chunks none (pos 20) (pos 40) ≡ planned (whole_file ∷ [])
unfolding plan_chunks plan_pages
test_non_pdf = refl

abbrev five_pages : List ℕ
five_pages = 11 ∷ 12 ∷ 13 ∷ 14 ∷ 15 ∷ []

abbrev five_ranges : List PageRange
five_ranges = (0, pos 2) ∷ (2, pos 4) ∷ (4, pos 5) ∷ []

five_plan : plan_chunks (some 5) (pos 2) (pos 3) ≡ planned five_ranges
unfolding plan_chunks plan_pages split_ranges range_step
five_plan = refl

extract-plan_chunks_example :
    concat (map (λ r. extract_pages five_pages r) five_ranges) ≡ five_pages
extract-plan_chunks_example = extract-plan_chunks five_pages (pos 2) (pos 3) five_plan
