-- ===== src/Chunker.antt =====
-- chunker.py: planning the page ranges of a document, and taking one range out of it.
-- A page range is a pair of a first page and an exclusive end, an `int` that may be -1. The fuel of
-- `range_step` bounds the rounds of Python's `range`; `plan_chunks` gives as many as there are pages.
mod Slices
pub mod Partition
mod Tests
use markitdown_server.Prelude.{
  ℕ, zero, suc, ◌+◌, ◌-◌, ◌≡◌, refl, Option, none, some, List, [], ◌∷◌, map, min, ltb, Text, codes,
  if◌then◌else◌, take, drop, length, ◌⊎◌, inl, inr,
}
use markitdown_server.Prelude.Int.{ℤ, pos, negsuc, ltb_ℤ, eq_ℤ}

abbrev pub PageRange : Type 0
PageRange = ℕ × ℤ

abbrev pub whole_file : PageRange
whole_file = (0, negsuc 0)

-- What `plan_chunks` returns, or the message of the `ValueError` that it raises.
pub data Plan : Type 0 where
  planned : List PageRange → Plan
  value_error : Text → Plan

-- `range(start, stop, step)`
unfoldable pub range_step : ℕ → ℕ → ℕ → ℕ → List ℕ
range_step zero start stop step = []
range_step (suc fuel) start stop step =
    let rest = range_step fuel (start + step) stop step in
    if ltb start stop then start ∷ rest else []

-- The element of the comprehension at one `start`.
abbrev pub chunk_at : ℕ → ℕ → ℕ → PageRange
chunk_at pages pages_per_chunk start = (start, pos (min (start + pages_per_chunk) pages))

unfoldable pub split_ranges : ℕ → ℕ → List PageRange
split_ranges pages pages_per_chunk =
    map (chunk_at pages pages_per_chunk) (range_step pages 0 pages pages_per_chunk)

-- The rest of `plan_chunks`, behind its check of `pages_per_chunk`.
unfoldable pub plan_pages : Option ℕ → ℕ → ℤ → List PageRange
plan_pages none pages_per_chunk min_pages = whole_file ∷ []
plan_pages (some pages) pages_per_chunk min_pages =
    if ltb_ℤ (pos pages) min_pages then whole_file ∷ [] else split_ranges pages pages_per_chunk

-- `page_count`, where pypdf reads the pages of the file or raises.
unfoldable pub page_count : {F P E : Type 0} → (F → List P ⊎ E) → F → Option ℕ
page_count read_pages file = elim (read_pages file) [
  | inl pages ↦ some (length pages)
  | inr e ↦ none
]

unfoldable pub plan_chunks : Option ℕ → ℤ → ℤ → Plan
plan_chunks pages (negsuc n) min_pages = value_error (codes "pages_per_chunk must be >= 1")
plan_chunks pages (pos zero) min_pages = value_error (codes "pages_per_chunk must be >= 1")
plan_chunks pages (pos (suc n)) min_pages = planned (plan_pages pages (suc n) min_pages)

-- `reader.pages[start:end]`; a negative end counts from the back.
unfoldable pub slice {ℓ} : {A : Type ℓ} → ℕ → ℤ → List A → List A
slice start (pos end) pages = drop start (take end pages)
slice start (negsuc n) pages = drop start (take (length pages - suc n) pages)

-- The pages of the file that `extract_pages` returns, for a source with the given pages.
unfoldable pub extract_pages {ℓ} : {A : Type ℓ} → List A → PageRange → List A
unfolding slice
extract_pages pages (start, end) = if eq_ℤ end (negsuc 0) then pages else slice start end pages
