-- ===== src/Pagination.antt =====
-- pagination.py: splitting markdown into pages, and the page numbers of a response.
-- A `str` is the list of its code points. The `while` loop takes fuel; a block gives as much as it has
-- characters. `page_size` is a natural number: at 0 Python's loop does not end, and the model has none.
pub mod Blocks
pub mod Bounds
pub mod Content
pub mod Paragraphs
pub mod Links
mod Tests
use markitdown_server.Prelude.{
  ℕ, zero, suc, ◌+◌, ◌-◌, Bool, true, false, not, ◌&&◌, ◌||◌, Option, none, some, List, [], ◌∷◌,
  ◌++◌, ltb, ◌==◌, if◌then◌else◌, Text, length, take, drop, ◌>>=◌,
}

abbrev pub newline : ℕ
newline = 10

abbrev pub is_empty {ℓ} : {A : Type ℓ} → List A → Bool
is_empty [] = true
is_empty (x ∷ xs) = false

-- A character put in front of the first block.
abbrev pub push : ℕ → List Text → List Text
push c [] = (c ∷ []) ∷ []
push c (b ∷ bs) = (c ∷ b) ∷ bs

-- `content.split("\n\n")`
unfoldable pub split_blocks : Text → List Text
split_blocks [] = [] ∷ []
split_blocks (a ∷ []) = (a ∷ []) ∷ []
split_blocks (a ∷ b ∷ s) = elim (a == newline && b == newline) [
  | true ↦ [] ∷ split_blocks s
  | false ↦ push a (split_blocks (b ∷ s))
]

-- The variables of the `for` loop.
pub record Paging : Type 0 where
  pub pages : List Text
  pub current : Text

abbrev pub start : Paging
start = record { pages = []; current = [] }

-- `pages.append(current)` before a hard split, if there is something to append
unfoldable pub flush : Paging → Paging
flush s =
    if is_empty s.current then s else record { pages = s.pages ++ s.current ∷ []; current = [] }

-- One round of the `while` loop.
unfoldable pub cut_page : ℕ → Paging → Text → Paging
unfolding flush
cut_page page_size s block =
    let flushed = flush s in record flushed { pages = flushed.pages ++ take page_size block ∷ [] }

-- `while len(block) > page_size`; `none` means that the fuel ran out.
unfoldable pub hard_split : ℕ → ℕ → Paging → Text → Option (Paging × Text)
hard_split zero page_size s block = if ltb page_size (length block) then none else some (s, block)
hard_split (suc fuel) page_size s block = elim (ltb page_size (length block)) [
  | true ↦ hard_split fuel page_size (cut_page page_size s block) (drop page_size block)
  | false ↦ some (s, block)
]

abbrev pub candidate : Text → Text → Text
candidate current block = if is_empty current then block else current ++ newline ∷ newline ∷ block

-- The rest of a round of the `for` loop: the block joins the current page or begins the next.
unfoldable pub place : ℕ → Paging → Text → Paging
place page_size s block =
    if ltb page_size (length (candidate s.current block))
    then record { pages = s.pages ++ s.current ∷ []; current = block }
    else record s { current = candidate s.current block }

unfoldable pub add_block : ℕ → Paging → Text → Option Paging
add_block page_size s block = do
  (s', rest) ← hard_split (length block) page_size s block
  some (place page_size s' rest)

unfoldable pub add_blocks : ℕ → Paging → List Text → Option Paging
add_blocks page_size s [] = some s
add_blocks page_size s (b ∷ bs) = do s' ← add_block page_size s b; add_blocks page_size s' bs

-- `if current or not pages: pages.append(current)`
unfoldable pub close : Paging → List Text
close s =
    if not (is_empty s.current) || is_empty s.pages then s.pages ++ s.current ∷ [] else s.pages

unfoldable pub paginate : Text → ℕ → Option (List Text)
paginate content page_size =
    if is_empty content
    then some ([] ∷ [])
    else do s ← add_blocks page_size start (split_blocks content); some (close s)

pub record Pagination : Type 0 where
  pub id : Text
  pub page : ℕ
  pub page_size : ℕ
  pub total_pages : ℕ
  pub total_length : ℕ
  pub has_next : Bool
  pub has_prev : Bool
  pub next_page : Option ℕ
  pub prev_page : Option ℕ

unfoldable pub build_pagination : Text → ℕ → ℕ → ℕ → ℕ → Pagination
build_pagination doc_id page total_pages total_length page_size =
    let has_next = ltb page total_pages in
    let has_prev = ltb 1 page in
    record {
      id = doc_id;
      page = page;
      page_size = page_size;
      total_pages = total_pages;
      total_length = total_length;
      has_next = has_next;
      has_prev = has_prev;
      next_page = if has_next then some (page + 1) else none;
      prev_page = if has_prev then some (page - 1) else none;
    }
