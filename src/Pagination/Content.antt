-- ===== src/Pagination/Content.antt =====
-- The text of the pages of pagination.py's `paginate`, and that of its argument.
use markitdown_server.Prelude.{
  ℕ, zero, suc, ◌≡◌, refl, ap, sym, ◌∙◌, not, inl, inr, some, List, [], ◌∷◌, ◌++◌, Text, arith,
  Bool-cases, ◌==◌, append_assoc, append-nil, keep_if, concat, length, take, drop, ltb,
  take-append-drop, >>=-eq-some, ◌≤◌, none, Option, ◌⊎◌, All, Returns, Returns, Option, All, ◌⊎◌,
}
use markitdown_server.Pagination.Bounds.{IsPage, paginate-IsPage}
use markitdown_server.Pagination.Blocks.{join_blocks, join_blocks-split_blocks}
use markitdown_server.Pagination.{
  Paging, start, newline, flush, cut_page, hard_split, candidate, place, add_block, add_blocks,
  close, paginate, split_blocks,
}

-- The text without its line breaks.
unfoldable pub visible : Text → Text
visible = keep_if (λ c. not (c == newline))

visible-append : (s t : Text) → visible (s ++ t) ≡ visible s ++ visible t
unfolding visible
visible-append [] t = refl
visible-append (c ∷ s) t = ground (arith, visible-append s t)

visible-concat-append :
    (xs ys : List Text) → visible (concat (xs ++ ys)) ≡ visible (concat xs) ++ visible (concat ys)
visible-concat-append [] ys = unfold visible in refl
visible-concat-append (x ∷ xs) ys = simp (visible-append, visible-concat-append xs ys, append_assoc)

-- What the loop has taken in so far.
taken : Paging → Text
unfolding visible
taken s = visible (concat s.pages) ++ visible s.current

ruleset visible_laws = (visible-append, visible-concat-append, append_assoc, append-nil)

flush-taken : (s : Paging) → visible (concat (flush s).pages) ≡ taken s
flush-taken s = on_fields s.pages s.current
  where
    on_fields :
        (pages : List Text) (current : Text)
        → visible (concat (flush (record { pages = pages; current = current })).pages)
          ≡ taken (record { pages = pages; current = current })
    on_fields pages [] =
        unfold flush taken in unfold visible in sym (append-nil (visible (concat pages)))
    on_fields pages (x ∷ current) = unfold flush taken in simp visible_laws

flush-current : (s : Paging) → (flush s).current ≡ []
flush-current s = on_field s.pages s.current
  where
    on_field :
        (pages : List Text) (current : Text)
        → (flush (record { pages = pages; current = current })).current ≡ []
    on_field pages [] = unfold flush in refl
    on_field pages (x ∷ current) = unfold flush in refl

cut_page-taken :
    (n : ℕ) (s : Paging) (block : Text)
    → taken (cut_page n s block) ++ visible (drop n block) ≡ taken s ++ visible block
cut_page-taken n s block =
    let halves : visible (take n block) ++ visible (drop n block) ≡ visible block =
      sym (visible-append (take n block) (drop n block)) ∙ ap visible (take-append-drop n block) in
    unfold cut_page taken in
    rw (flush-current, visible-concat-append, flush-taken)
      (simp (append-nil, append_assoc)
        (ap (λ t. visible (concat s.pages) ++ (visible s.current ++ t)) halves))

hard_split-taken :
    (fuel n : ℕ) (s : Paging) (block : Text)
    → (r : Paging × Text) → hard_split fuel n s block ≡ some r
    → taken r.0 ++ visible r.1 ≡ taken s ++ visible block
hard_split-taken zero n s block r e = unfold hard_split in ground arith
hard_split-taken (suc fuel) n s block r e = elim (Bool-cases (ltb n (length block))) [
  | inl long ↦
      let more : hard_split fuel n (cut_page n s block) (drop n block) ≡ some r =
        unfold hard_split in rw (long, hard_split) at e in
      hard_split-taken fuel n (cut_page n s block) (drop n block) r more ∙ cut_page-taken n s block
  | inr short ↦
      let done : some (s, block) ≡ some r = unfold hard_split in rw (short, hard_split) at e in cc
]

visible-candidate :
    (current block : Text) → visible (candidate current block) ≡ visible current ++ visible block
visible-candidate [] block = unfold visible in refl
visible-candidate (x ∷ current) block = rw visible-append (unfold visible in refl)

place-taken :
    (n : ℕ) (s : Paging) (block : Text) → taken (place n s block) ≡ taken s ++ visible block
place-taken n s block = elim (Bool-cases (ltb n (length (candidate s.current block)))) [
  | inl over ↦ unfold place taken in rw over (simp visible_laws)
  | inr under ↦
      unfold place taken in rw under (simp (visible-candidate s.current block, visible_laws))
]

add_block-taken :
    (n : ℕ) (s : Paging) (block : Text) (s' : Paging)
    → add_block n s block ≡ some s'
    → taken s' ≡ taken s ++ visible block
unfolding add_block
add_block-taken n s block s' e =
    let ((split, rest), cut, placed) = >>=-eq-some (hard_split (length block) n s block) _ e in
    let same : place n split rest ≡ s' = cc in
    rw (← same)
      (place-taken n split rest ∙ hard_split-taken (length block) n s block (split, rest) cut)

add_blocks-taken :
    (n : ℕ) (bs : List Text) (s s' : Paging)
    → add_blocks n s bs ≡ some s'
    → taken s' ≡ taken s ++ visible (concat bs)
unfolding add_blocks
add_blocks-taken n [] s s' e =
    let same : s ≡ s' = cc in rw (← same) (unfold visible in sym (append-nil (taken s)))
add_blocks-taken n (b ∷ bs) s s' e =
    let (t, first, others) = >>=-eq-some (add_block n s b) _ e in
    rw (add_blocks-taken n bs t s' others, add_block-taken n s b t first) (simp visible_laws)

close-taken : (s : Paging) → visible (concat (close s)) ≡ taken s
close-taken s = on_fields s.pages s.current
  where
    on_fields :
        (pages : List Text) (current : Text)
        → visible (concat (close (record { pages = pages; current = current })))
          ≡ taken (record { pages = pages; current = current })
    on_fields [] [] = unfold close taken visible in refl
    on_fields (p ∷ pages) [] =
        unfold close taken in unfold visible in sym (append-nil (visible (concat (p ∷ pages))))
    on_fields pages (x ∷ current) = unfold close taken in simp visible_laws

visible-join_blocks : (bs : List Text) → visible (concat bs) ≡ visible (join_blocks bs)
visible-join_blocks [] = unfold join_blocks in refl
visible-join_blocks (b ∷ []) = unfold join_blocks in simp append-nil
visible-join_blocks (b ∷ c ∷ bs) =
    visible-append b (concat (c ∷ bs))
    ∙ ap (λ t. visible b ++ t) (visible-join_blocks (c ∷ bs))
    ∙ behind (join_blocks (c ∷ bs)) refl
  where
    behind :
        (t : Text)
        → join_blocks (c ∷ bs) ≡ t
        → visible b ++ visible t ≡ visible (join_blocks (b ∷ c ∷ bs))
    behind t e = unfold join_blocks in rw (e, visible-append b _) (unfold visible in refl)

visible-split_blocks : (s : Text) → visible (concat (split_blocks s)) ≡ visible s
visible-split_blocks s =
    visible-join_blocks (split_blocks s) ∙ ap visible (join_blocks-split_blocks s)

visible-returned :
    (content : Text) (page_size : ℕ) (pages : List Text)
    → paginate content page_size ≡ some pages
    → visible (concat pages) ≡ visible content
visible-returned [] n pages e =
    unfold paginate in let same : [] ∷ [] ≡ pages = cc in rw (← same) refl
visible-returned (c ∷ content) n pages e =
    unfold paginate in
    let (s, added, closed) = >>=-eq-some (add_blocks n start (split_blocks (c ∷ content))) _ e in
    let same : close s ≡ pages = cc in
    rw (← same) (
      close-taken s
      ∙ add_blocks-taken n (split_blocks (c ∷ content)) start s added
      ∙ unfold taken visible in visible-split_blocks (c ∷ content))

-- With a page size of one or more, `paginate` returns, and its pages in order hold exactly the characters of the content that
-- are no line breaks, in their order.
pub visible-paginate :
    (content : Text) (page_size : ℕ)
    → 1 ≤ page_size
    → Returns (paginate content page_size) (λ pages. visible (concat pages) ≡ visible content)
visible-paginate content n h = on_pages (paginate content n) refl (paginate-IsPage n h content)
  where
    on_pages :
        (o : Option (List Text))
        → paginate content n ≡ o
        → Returns o (λ pages. All (IsPage n) pages ⊎ (pages ≡ [] ∷ []))
        → Returns o (λ pages. visible (concat pages) ≡ visible content)
    on_pages none e r = r
    on_pages (some pages) e r = visible-returned content n pages e
