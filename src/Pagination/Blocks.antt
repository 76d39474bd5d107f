-- ===== src/Pagination/Blocks.antt =====
-- `split_blocks`, which stands for `str.split("\n\n")`, and the join of its blocks.
use markitdown_server.Prelude.{
  true, false, refl, ap, inl, inr, Bool-cases, ◌==◌, ◌&&◌, ℕ, ◌≡◌, ◌≢◌, List, [], ◌∷◌, ◌++◌, Text,
  arith,
}
use markitdown_server.Pagination.{newline, push, split_blocks}

-- `"\n\n".join(blocks)`
unfoldable pub join_blocks : List Text → Text
join_blocks [] = []
join_blocks (b ∷ []) = b
join_blocks (b ∷ c ∷ bs) = b ++ newline ∷ newline ∷ join_blocks (c ∷ bs)

-- A separator at the front ends an empty block.
pub split_blocks-break :
    (a b : ℕ) (s : Text)
    → (a == newline && b == newline) ≡ true
    → split_blocks (a ∷ b ∷ s) ≡ [] ∷ split_blocks s
unfolding split_blocks
split_blocks-break a b s e = rw (e, split_blocks)

-- Any other character belongs to the first block.
pub split_blocks-push :
    (a b : ℕ) (s : Text)
    → (a == newline && b == newline) ≡ false
    → split_blocks (a ∷ b ∷ s) ≡ push a (split_blocks (b ∷ s))
unfolding split_blocks
split_blocks-push a b s e = rw (e, split_blocks)

push-ne-nil : (a : ℕ) (bs : List Text) → push a bs ≢ []
push-ne-nil a [] = cc
push-ne-nil a (x ∷ bs) = cc

cons-ne-nil : (b : Text) (bs : List Text) → b ∷ bs ≢ []
cons-ne-nil b bs = cc

pub split_blocks-ne-nil : (s : Text) → split_blocks s ≢ []
split_blocks-ne-nil [] = unfold split_blocks in cons-ne-nil [] []
split_blocks-ne-nil (a ∷ []) = unfold split_blocks in cons-ne-nil (a ∷ []) []
split_blocks-ne-nil (a ∷ b ∷ s) = elim (Bool-cases (a == newline && b == newline)) [
  | inl e ↦ rw (split_blocks-break a b s e) (cons-ne-nil [] (split_blocks s))
  | inr e ↦ rw (split_blocks-push a b s e) (push-ne-nil a (split_blocks (b ∷ s)))
]

join_blocks-push : (a : ℕ) (bs : List Text) → join_blocks (push a bs) ≡ a ∷ join_blocks bs
unfolding join_blocks
join_blocks-push a [] = refl
join_blocks-push a (b ∷ []) = refl
join_blocks-push a (b ∷ c ∷ bs) = refl

pub join_blocks-cons :
    (b : Text) (bs : List Text)
    → bs ≢ []
    → join_blocks (b ∷ bs) ≡ b ++ newline ∷ newline ∷ join_blocks bs
unfolding join_blocks
join_blocks-cons b [] h = absurd (h refl)
join_blocks-cons b (c ∷ bs) h = refl

pub join_blocks-split_blocks : (s : Text) → join_blocks (split_blocks s) ≡ s
join_blocks-split_blocks [] = unfold join_blocks split_blocks in refl
join_blocks-split_blocks (a ∷ []) = unfold join_blocks split_blocks in refl
join_blocks-split_blocks (a ∷ b ∷ s) = elim (Bool-cases (a == newline && b == newline)) [
  | inl e ↦
      rw (split_blocks-break a b s e, join_blocks-cons [] (split_blocks s) (split_blocks-ne-nil s))
        (ground (arith, join_blocks-split_blocks s))
  | inr e ↦
      rw (split_blocks-push a b s e, join_blocks-push)
        (ap (λ t. a ∷ t) (join_blocks-split_blocks (b ∷ s)))
]
