-- ===== src/Pagination/Tests.antt =====
-- Runs of pagination.py, and its theorems at concrete texts.
use markitdown_server.Prelude.{
  ◌≡◌, ◌⊎◌, refl, some, [], ◌∷◌, Text, codes, concat, All, Returns, arith,
}
use markitdown_server.Pagination.{
  paginate, split_blocks, add_blocks, add_block, hard_split, cut_page, flush, place, close,
}
use markitdown_server.Pagination.Blocks.{join_blocks}
use markitdown_server.Pagination.Bounds.{IsPage, paginate-IsPage}
use markitdown_server.Pagination.Content.{visible, visible-paginate}
use markitdown_server.Pagination.Paragraphs.{join_blocks-paginate}

abbrev two_paragraphs : Text
two_paragraphs = codes "abc\n\nde"

-- Both paragraphs fit one page of nine characters.
test_one_page : paginate two_paragraphs 9 ≡ some (two_paragraphs ∷ [])
unfolding paginate add_blocks add_block hard_split place close split_blocks
test_one_page = refl

test_two_pages : paginate two_paragraphs 5 ≡ some (codes "abc" ∷ codes "de" ∷ [])
unfolding paginate add_blocks add_block hard_split place close split_blocks
test_two_pages = refl

-- A paragraph longer than a page is split hard.
test_hard_split : paginate two_paragraphs 2 ≡ some (codes "ab" ∷ codes "c" ∷ codes "de" ∷ [])
unfolding paginate add_blocks add_block hard_split cut_page flush place close split_blocks
test_hard_split = refl

-- A leading blank line is lost.
test_leading_blank : paginate (codes "\n\nab") 5 ≡ some (codes "ab" ∷ [])
unfolding paginate add_blocks add_block hard_split place close split_blocks
test_leading_blank = refl

paginate-IsPage_example :
    Returns (paginate two_paragraphs 2) (λ pages. All (IsPage 2) pages ⊎ (pages ≡ [] ∷ []))
paginate-IsPage_example = paginate-IsPage 2 (omega arith) two_paragraphs

visible-paginate_example :
    Returns (paginate two_paragraphs 2) (λ pages. visible (concat pages) ≡ visible two_paragraphs)
visible-paginate_example = visible-paginate two_paragraphs 2 (omega arith)

fitting_blocks : All (IsPage 5) (split_blocks two_paragraphs)
unfolding split_blocks
fitting_blocks = omega arith

join_blocks-paginate_example :
    Returns (paginate two_paragraphs 5) (λ pages. join_blocks pages ≡ two_paragraphs)
join_blocks-paginate_example = join_blocks-paginate 5 two_paragraphs fitting_blocks
