-- ===== src/Pagination/Bounds.antt =====
-- The sizes of the pages of pagination.py's `paginate`, and its fuel.
use markitdown_server.Prelude.{
  ℕ, zero, suc, ◌≤◌, ◌<◌, ◌≡◌, refl, ◌⊎◌, inl, inr, true, false, List, [], ◌∷◌, ◌++◌, ltb, Text,
  length, take, drop, arith, All, All-append, Returns, Returns-bind, Bool-cases, length-take,
  length-drop,
}
use markitdown_server.Pagination.{
  Paging, start, flush, cut_page, hard_split, candidate, place, add_block, add_blocks, close,
  paginate, split_blocks,
}

-- A page that holds something, and at most `n` characters.
abbrev pub IsPage : ℕ → Text → Type 0
IsPage n page = (1 ≤ length page) × (length page ≤ n)

-- What holds between the rounds of both loops.
pub record Fits (n : ℕ) (s : Paging) : Type 0 where
  pub pages : All (IsPage n) s.pages
  pub current : length s.current ≤ n

module _ (n : ℕ) (room : 0 < n) where
  -- A page appended to good pages, and a current page that fits.
  append-Fits :
      (pages : List Text) (page current : Text)
      → All (IsPage n) pages
      → IsPage n page
      → length current ≤ n
      → Fits n (record { pages = pages ++ page ∷ []; current = current })
  append-Fits pages page current h p c = record {
    pages = All-append (IsPage n) pages (page ∷ []) h (p, tt);
    current = c;
  }

  flush_fields-Fits :
      (pages : List Text) (current : Text)
      → All (IsPage n) pages
      → length current ≤ n
      → Fits n (flush (record { pages = pages; current = current }))
  unfolding flush
  flush_fields-Fits pages [] h c = record { pages = h; current = c }
  flush_fields-Fits pages (x ∷ current) h c =
      append-Fits pages (x ∷ current) [] h (omega arith, c) (omega arith)

  flush-Fits : (s : Paging) → Fits n s → Fits n (flush s)
  flush-Fits s h = flush_fields-Fits s.pages s.current h.pages h.current

  cut_page-Fits :
      (s : Paging) (block : Text) → Fits n s → n < length block → Fits n (cut_page n s block)
  unfolding cut_page
  cut_page-Fits s block h long = record {
    pages =
        All-append (IsPage n) (flush s).pages (take n block ∷ []) (flush-Fits s h).pages
          ((omega (arith, length-take n block), omega (arith, length-take n block)), tt);
    current = (flush-Fits s h).current;
  }

  -- With as much fuel as the block has characters the loop ends, and what is left fits a page.
  hard_split-Fits :
      (fuel : ℕ) (s : Paging) (block : Text)
      → length block ≤ fuel
      → Fits n s
      → Returns (hard_split fuel n s block) (λ r. Fits n r.0 × (length r.1 ≤ n))
  unfolding hard_split
  hard_split-Fits zero s block h f =
      let e : ltb n (length block) ≡ false = ground arith in rw (e, Returns) (f, omega arith)
  hard_split-Fits (suc fuel) s block h f = elim (Bool-cases (ltb n (length block))) [
    | inl long ↦
        rw (long, Returns)
          (hard_split-Fits fuel (cut_page n s block) (drop n block)
            (omega (arith, length-drop n block)) (cut_page-Fits s block f (ground arith)))
    | inr short ↦ rw (short, Returns) (f, ground arith)
  ]

  -- Only a page that holds something can be too full for one more block that fits.
  over_page :
      (current block : Text)
      → length block ≤ n
      → ltb n (length (candidate current block)) ≡ true
      → 1 ≤ length current
  over_page [] block short over = absurd (ground arith)
  over_page (x ∷ current) block short over = omega arith

  place-Fits : (s : Paging) (block : Text) → Fits n s → length block ≤ n → Fits n (place n s block)
  unfolding place
  place-Fits s block f short = elim (Bool-cases (ltb n (length (candidate s.current block)))) [
    | inl over ↦ rw over (
        append-Fits s.pages s.current block f.pages
          (over_page s.current block short over, f.current) short)
    | inr under ↦ rw under (record { pages = f.pages; current = ground arith })
  ]

  add_block-Fits : (s : Paging) (block : Text) → Fits n s → Returns (add_block n s block) (Fits n)
  unfolding add_block
  add_block-Fits s block f =
      Returns-bind (λ r. Fits n r.0 × (length r.1 ≤ n)) (Fits n)
        (hard_split (length block) n s block) _
        (hard_split-Fits (length block) s block (omega arith) f) (λ r h. place-Fits r.0 r.1 h.0 h.1)

  add_blocks-Fits : (bs : List Text) (s : Paging) → Fits n s → Returns (add_blocks n s bs) (Fits n)
  unfolding add_blocks
  add_blocks-Fits [] s f = f
  add_blocks-Fits (b ∷ bs) s f =
      Returns-bind (Fits n) (Fits n) (add_block n s b) _ (add_block-Fits s b f)
        (λ s' f'. add_blocks-Fits bs s' f')

  close_fields-Fits :
      (pages : List Text) (current : Text)
      → All (IsPage n) pages
      → length current ≤ n
      → All (IsPage n) (close (record { pages = pages; current = current }))
        ⊎ (close (record { pages = pages; current = current }) ≡ [] ∷ [])
  unfolding close
  close_fields-Fits [] [] h c = inr refl
  close_fields-Fits (p ∷ pages) [] h c = inl h
  close_fields-Fits pages (x ∷ current) h c =
      inl (append-Fits pages (x ∷ current) [] h (omega arith, c) (omega arith)).pages

  close-Fits : (s : Paging) → Fits n s → All (IsPage n) (close s) ⊎ (close s ≡ [] ∷ [])
  close-Fits s f = close_fields-Fits s.pages s.current f.pages f.current

  -- With a page size of one or more, `paginate` returns: all its pages hold at least one character and
  -- at most `page_size`, or there is a single page, the empty one.
  pub paginate-IsPage :
      (content : Text)
      → Returns (paginate content n) (λ pages. All (IsPage n) pages ⊎ (pages ≡ [] ∷ []))
  unfolding paginate
  paginate-IsPage [] = inr refl
  paginate-IsPage (c ∷ content) =
      Returns-bind (Fits n) (λ pages. All (IsPage n) pages ⊎ (pages ≡ [] ∷ []))
        (add_blocks n start (split_blocks (c ∷ content))) _
        (add_blocks-Fits (split_blocks (c ∷ content)) start
          (record { pages = tt; current = omega arith }))
        close-Fits
