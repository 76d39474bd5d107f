-- ===== src/Pagination/Links.antt =====
-- The page numbers that `build_pagination` links to, and the loop at a page size of zero.
use markitdown_server.Prelude.{
  ℕ, zero, suc, ◌≤◌, ◌≡◌, ◌↔◌, true, some, none, Text, arith, length, ltb,
}
use markitdown_server.Pagination.{Paging, build_pagination, hard_split, cut_page}

-- For a page of a document, there is no next page exactly when the page is the last, and no previous page exactly when
-- it is the first.
pub build_pagination_ends :
    (doc_id : Text) (page total_pages total_length page_size : ℕ)
    → 1 ≤ page
    → page ≤ total_pages
    → let p = build_pagination doc_id page total_pages total_length page_size in
      ((p.next_page ≡ none) ↔ (page ≡ total_pages)) × ((p.prev_page ≡ none) ↔ (page ≡ 1))
unfolding build_pagination
build_pagination_ends doc_id page total len size low high =
    ((λ h. ground arith, λ h. ground arith), (λ h. ground arith, λ h. ground arith))

-- The page that `next_page` names, of a page that exists, exists too, and its `prev_page` names the page again.
pub build_pagination_links :
    (doc_id : Text) (page next total_pages total_length page_size : ℕ)
    → 1 ≤ page
    → (build_pagination doc_id page total_pages total_length page_size).next_page ≡ some next
    → (next ≤ total_pages)
      × ((build_pagination doc_id next total_pages total_length page_size).prev_page ≡ some page)
unfolding build_pagination
build_pagination_links doc_id page next total len size low h = (ground arith, ground arith)

-- At a page size of zero the `while` loop over a block that is not empty never ends, whatever fuel it is given.
pub hard_split-zero :
    (fuel : ℕ) (s : Paging) (block : Text) → 1 ≤ length block → hard_split fuel 0 s block ≡ none
unfolding hard_split
hard_split-zero zero s block h = let e : ltb 0 (length block) ≡ true = ground arith in rw e
hard_split-zero (suc fuel) s block h =
    let e : ltb 0 (length block) ≡ true = ground arith in
    rw (e, hard_split) (hard_split-zero fuel (cut_page 0 s block) block h)
