-- ===== src/Pagination/Paragraphs.antt =====
-- pagination.py on contents whose paragraphs fit a page.
use mathlib.Core.List.{concat-ne-nil}
use markitdown_server.Prelude.{
  ℕ, zero, suc, ◌≤◌, ◌≡◌, ◌≢◌, refl, ap, sym, ◌∙◌, inl, inr, false, some, List, [], ◌∷◌, ◌++◌, ltb,
  Text, length, arith, All, Bool-cases, append_assoc, append-nil, ◌>>=◌, Returns, Returns-map,
  Returns-bind, drop,
}
use markitdown_server.Pagination.{
  Paging, start, newline, hard_split, candidate, place, add_block, add_blocks, close, paginate,
  split_blocks,
}
use markitdown_server.Pagination.Blocks.{
  join_blocks, join_blocks-split_blocks, join_blocks-cons, split_blocks-ne-nil,
}
use markitdown_server.Pagination.Bounds.{IsPage}

-- Each block behind a separator.
behind : List Text → Text
behind [] = []
behind (b ∷ bs) = newline ∷ newline ∷ (b ++ behind bs)

behind-cons : (b : Text) (bs : List Text) → behind (b ∷ bs) ≡ newline ∷ newline ∷ (b ++ behind bs)
behind-cons b bs = unfold behind in refl

cons-ne-nil : (b : Text) (bs : List Text) → b ∷ bs ≢ []
cons-ne-nil b bs = cc

cons-ne-nil_char : (c : ℕ) (b : Text) → c ∷ b ≢ []
cons-ne-nil_char c b = cc

join-behind : (b : Text) (bs : List Text) → join_blocks (b ∷ bs) ≡ b ++ behind bs
join-behind b [] = unfold join_blocks behind in sym (append-nil b)
join-behind b (c ∷ bs) =
    join_blocks-cons b (c ∷ bs) (cons-ne-nil c bs)
    ∙ ap (λ t. b ++ newline ∷ newline ∷ t) (join-behind c bs)
    ∙ (unfold behind in refl)

behind-append : (xs ys : List Text) → behind (xs ++ ys) ≡ behind xs ++ behind ys
behind-append [] ys = unfold behind in refl
behind-append (x ∷ xs) ys =
    behind-cons x (xs ++ ys)
    ∙ ap (λ t. newline ∷ newline ∷ (x ++ t)) (behind-append xs ys)
    ∙ ap (λ t. newline ∷ newline ∷ t) (sym (append_assoc x (behind xs) (behind ys)))
    ∙ ap (λ t. t ++ behind ys) (sym (behind-cons x xs))

behind-join : (bs : List Text) → bs ≢ [] → behind bs ≡ newline ∷ newline ∷ join_blocks bs
behind-join [] h = absurd (h refl)
behind-join (b ∷ bs) h = behind-cons b bs ∙ ap (λ t. newline ∷ newline ∷ t) (sym (join-behind b bs))

module _ (n : ℕ) where
  fits : (b : Text) → length b ≤ n → ltb n (length b) ≡ false
  fits b h = ground arith

  hard_split_none :
      (fuel : ℕ) (s : Paging) (b : Text) → length b ≤ n → hard_split fuel n s b ≡ some (s, b)
  hard_split_none zero s b h = unfold hard_split in rw (fits b h)
  hard_split_none (suc fuel) s b h = unfold hard_split in rw (fits b h, hard_split)

  -- A block that fits is not cut.
  add_block-place : (s : Paging) (b : Text) → length b ≤ n → add_block n s b ≡ some (place n s b)
  add_block-place s b h = unfold add_block in rw (hard_split_none (length b) s b h)

  -- All that has been written, each page behind a separator.
  spelled : Paging → Text
  unfolding behind
  spelled s = behind (s.pages ++ s.current ∷ [])

  spelled-place :
      (pages : List Text) (current block : Text)
      → current ≢ []
      → spelled (place n (record { pages = pages; current = current }) block)
        ≡ behind (pages ++ current ∷ []) ++ behind (block ∷ [])
  spelled-place pages [] block h = absurd (h refl)
  spelled-place pages (x ∷ current) block h =
      elim (Bool-cases (ltb n (length (candidate (x ∷ current) block)))) [
        | inl over ↦
            unfold place spelled in
            rw over (behind-append (pages ++ (x ∷ current) ∷ []) (block ∷ []))
        | inr under ↦
            unfold place spelled in
            rw under (simp (behind-append, behind, append_assoc, append-nil))
      ]

  candidate-ne-nil : (current block : Text) → block ≢ [] → candidate current block ≢ []
  candidate-ne-nil [] block h = h
  candidate-ne-nil (x ∷ current) block h = cons-ne-nil_char x (current ++ newline ∷ newline ∷ block)

  place-current-ne-nil : (s : Paging) (block : Text) → block ≢ [] → (place n s block).current ≢ []
  place-current-ne-nil s block h = elim (Bool-cases (ltb n (length (candidate s.current block)))) [
    | inl over ↦ unfold place in rw over h
    | inr under ↦ unfold place in rw under (candidate-ne-nil s.current block h)
  ]

  IsPage-ne-nil : (b : Text) → IsPage n b → b ≢ []
  IsPage-ne-nil [] h = absurd (omega arith)
  IsPage-ne-nil (c ∷ b) h = cons-ne-nil_char c b

  abbrev Spells : Paging → List Text → Paging → Type 0
  Spells s bs s' = (s'.current ≢ []) × (spelled s' ≡ spelled s ++ behind bs)

  add_blocks-spelled :
      (bs : List Text) (s : Paging)
      → s.current ≢ []
      → All (IsPage n) bs
      → Returns (add_blocks n s bs) (Spells s bs)
  unfolding behind spelled
  add_blocks-spelled [] s h fit = unfold add_blocks behind in (h, sym (append-nil (spelled s)))
  add_blocks-spelled (b ∷ bs) s h fit =
      one_more (
        add_blocks-spelled bs (place n s b) (place-current-ne-nil s b (IsPage-ne-nil b fit.0))
          fit.1)
    where
      one_more :
          Returns (add_blocks n (place n s b) bs) (Spells (place n s b) bs)
          → Returns (add_blocks n s (b ∷ bs)) (Spells s (b ∷ bs))
      one_more ih =
          unfold add_blocks in
          rw (add_block-place s b fit.0.1) (
            Returns-map (Spells (place n s b) bs) (Spells s (b ∷ bs))
              (add_blocks n (place n s b) bs)
              (λ s' p. (
                p.0,
                p.1
                    ∙ ap (λ t. t ++ behind bs) (spelled-place s.pages s.current b h)
                    ∙ append_assoc (spelled s) (behind (b ∷ [])) (behind bs)
                    ∙ ap (λ t. spelled s ++ t) (sym (behind-append (b ∷ []) bs)),
              ))
              ih)

  close-append :
      (pages : List Text) (current : Text)
      → current ≢ []
      → close (record { pages = pages; current = current }) ≡ pages ++ current ∷ []
  unfolding close
  close-append pages [] h = absurd (h refl)
  close-append pages (x ∷ current) h = refl

  join-close :
      (b : Text) (bs : List Text) (s : Paging)
      → s.current ≢ []
      → spelled s ≡ behind (b ∷ bs)
      → join_blocks (close s) ≡ join_blocks (b ∷ bs)
  unfolding spelled
  join-close b bs s h e =
      ap (λ pages. join_blocks pages) (close-append s.pages s.current h)
      ∙ ap (λ t. drop 2 t)
          (sym (behind-join (s.pages ++ s.current ∷ []) (concat-ne-nil s.current s.pages))
            ∙ e
            ∙ behind-join (b ∷ bs) (cons-ne-nil b bs))

  place-start : (b : Text) → length b ≤ n → place n start b ≡ record { pages = []; current = b }
  place-start b h = unfold place in rw (fits b h)

  spelled-start :
      (b : Text) (bs : List Text)
      → spelled (record { pages = []; current = b }) ++ behind bs ≡ behind (b ∷ bs)
  unfolding spelled
  spelled-start b bs = sym (behind-append (b ∷ []) bs)

  paginate_blocks-join :
      (bs : List Text)
      → bs ≢ []
      → All (IsPage n) bs
      → Returns
          (add_blocks n start bs >>= λ s. some (close s))
          (λ pages. join_blocks pages ≡ join_blocks bs)
  paginate_blocks-join [] h fit = absurd (h refl)
  paginate_blocks-join (b ∷ bs) h fit =
      unfold add_blocks in
      rw (add_block-place start b fit.0.1) (
        Returns-bind (Spells (place n start b) bs)
          (λ pages. join_blocks pages ≡ join_blocks (b ∷ bs)) (add_blocks n (place n start b) bs) _
          (add_blocks-spelled bs (place n start b)
            (place-current-ne-nil start b (IsPage-ne-nil b fit.0)) fit.1)
          (λ s p.
            join-close b bs s p.0 (
              p.1 ∙ ap (λ t. spelled t ++ behind bs) (place-start b fit.0.1) ∙ spelled-start b bs)))

  -- Where every paragraph of a content that is not empty holds something and fits a page, `paginate` returns pages that
  -- joined by blank lines are the content: only paragraph boundaries were broken.
  pub join_blocks-paginate :
      (content : Text)
      → All (IsPage n) (split_blocks content)
      → Returns (paginate content n) (λ pages. join_blocks pages ≡ content)
  join_blocks-paginate [] fit = absurd (IsPage-ne-nil [] (unfold split_blocks in fit.0) refl)
  join_blocks-paginate (c ∷ content) fit =
      unfold paginate in
      Returns-map (λ pages. join_blocks pages ≡ join_blocks (split_blocks (c ∷ content)))
        (λ pages. join_blocks pages ≡ c ∷ content) _
        (λ pages e. e ∙ join_blocks-split_blocks (c ∷ content))
        (paginate_blocks-join (split_blocks (c ∷ content)) (split_blocks-ne-nil (c ∷ content)) fit)
