-- ===== src/Chunker/Partition.antt =====
-- The ranges that chunker.py plans, against the pages of the document.
use markitdown_server.Prelude.{
  ℕ, zero, suc, ◌+◌, ◌*◌, ◌≤◌, ◌<◌, ◌≡◌, inl, inr, some, List, [], ◌∷◌, map, min, ltb, get_elem?,
  length, concat, arith, append-nil, Bool-cases, All, true, false,
}
use markitdown_server.Prelude.Int.{ℤ, pos, negsuc, ltb_ℤ}
use markitdown_server.Chunker.{
  PageRange, whole_file, planned, range_step, chunk_at, split_ranges, plan_pages, plan_chunks,
  extract_pages,
}
use markitdown_server.Chunker.Slices.{concat-extract}

module _ {ℓ} {A : Type ℓ} (pages : List A) where
  extract-whole_file : concat (map (λ r. extract_pages pages r) (whole_file ∷ [])) ≡ pages
  unfolding extract_pages
  extract-whole_file = append-nil pages

  extract-split_ranges :
      (n : ℕ)
      → concat (map (λ r. extract_pages pages r) (split_ranges (length pages) (suc n))) ≡ pages
  unfolding split_ranges
  extract-split_ranges n = concat-extract (length pages) 0 (suc n) pages (omega arith) (grind arith)

  -- Whatever the settings, if the plan of a readable document is not refused, then the page ranges of
  -- the plan, extracted in order and joined, are exactly the pages of the document: no page is lost,
  -- repeated or moved.
  pub extract-plan_chunks :
      (pages_per_chunk min_pages : ℤ) {ranges : List PageRange}
      → plan_chunks (some (length pages)) pages_per_chunk min_pages ≡ planned ranges
      → concat (map (λ r. extract_pages pages r) ranges) ≡ pages
  unfolding plan_chunks plan_pages
  extract-plan_chunks (negsuc n) m h = cc
  extract-plan_chunks (pos zero) m h = cc
  extract-plan_chunks (pos (suc n)) m h = elim (Bool-cases (ltb_ℤ (pos (length pages)) m)) [
    | inl small ↦ ground (arith, extract-whole_file)
    | inr large ↦ ground (arith, extract-split_ranges n)
  ]

-- A range of pages that holds at least one page, at most `pages_per_chunk`, and none past the end.
abbrev pub FitsChunk : ℕ → ℕ → PageRange → Type 0
FitsChunk pages pages_per_chunk (start, pos end) =
    (start < end) × (end ≤ pages) × (end ≤ start + pages_per_chunk)
FitsChunk pages pages_per_chunk (start, negsuc n) = ⊥

range_step-FitsChunk :
    (fuel start pages step : ℕ)
    → 0 < step
    → All (FitsChunk pages step) (map (chunk_at pages step) (range_step fuel start pages step))
unfolding range_step
range_step-FitsChunk zero start pages step h = tt
range_step-FitsChunk (suc fuel) start pages step h = elim (Bool-cases (ltb start pages)) [
  | inl e ↦ rw e (
    (ground arith, omega arith, omega arith),
    range_step-FitsChunk fuel (start + step) pages step h,
  )
  | inr e ↦ rw e tt
]

get-range_step :
    (fuel start pages step i : ℕ)
    → 0 < step
    → pages ≤ start + fuel * step
    → start + i * step < pages
    → get_elem? (map (chunk_at pages step) (range_step fuel start pages step)) i
      ≡ some (chunk_at pages step (start + i * step))
unfolding range_step
get-range_step zero start pages step i p h k = absurd (omega arith)
get-range_step (suc fuel) start pages step zero p h k =
    let e : ltb start pages ≡ true = ground arith in
    let same : start + 0 * step ≡ start = omega arith in rw (e, same)
get-range_step (suc fuel) start pages step (suc j) p h k =
    let e : ltb start pages ≡ true = ground arith in
    let same : start + suc j * step ≡ start + step + j * step = omega arith in
    rw (e, same) (get-range_step fuel (start + step) pages step j p (omega arith) (omega arith))

module _ (pages n : ℕ) (min_pages : ℤ) (large : ltb_ℤ (pos pages) min_pages ≡ false) where
  split_plan :
      plan_chunks (some pages) (pos (suc n)) min_pages ≡ planned (split_ranges pages (suc n))
  unfolding plan_chunks plan_pages
  split_plan = rw large

  -- A document that is not below the threshold, with a chunk size of one or more, is split: every range
  -- of the plan holds at least one page and at most `pages_per_chunk`, and ends within the document.
  pub plan_chunks-FitsChunk :
      (ranges : List PageRange)
      → plan_chunks (some pages) (pos (suc n)) min_pages ≡ planned ranges
      → All (FitsChunk pages (suc n)) ranges
  plan_chunks-FitsChunk ranges h =
      let e : split_ranges pages (suc n) ≡ ranges = cc split_plan in
      rw (← e) (unfold split_ranges in range_step-FitsChunk pages 0 pages (suc n) (omega arith))

  -- Chunk number `i` of a split document, where page `i * pages_per_chunk` exists, begins at that page and
  -- ends `pages_per_chunk` pages later or at the end of the document: the chunk index is the page order.
  pub get-plan_chunks :
      (i : ℕ) (ranges : List PageRange)
      → plan_chunks (some pages) (pos (suc n)) min_pages ≡ planned ranges
      → i * suc n < pages
      → get_elem? ranges i ≡ some (i * suc n, pos (min (i * suc n + suc n) pages))
  get-plan_chunks i ranges h k =
      let e : split_ranges pages (suc n) ≡ ranges = cc split_plan in
      let from_zero : 0 + i * suc n ≡ i * suc n = omega arith in
      rw (← e, ← from_zero)
        (unfold split_ranges in
          get-range_step pages 0 pages (suc n) i (omega arith) (grind arith) (omega arith))
