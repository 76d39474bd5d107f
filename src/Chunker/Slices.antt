-- ===== src/Chunker/Slices.antt =====
-- Consecutive slices of a list, and the slices that Python's `range` with a step cuts.
use native.Mathlib.Decide.{dec_le}
use markitdown_server.Prelude.{
  ℕ, zero, suc, ◌+◌, ◌*◌, ◌≤◌, ◌<◌, ◌≡◌, refl, sym, ap, inl, inr, List, [], ◌∷◌, ◌++◌, map, min,
  ltb, take, drop, length, concat, arith, append-nil, Bool-cases,
}
use markitdown_server.Chunker.{range_step, chunk_at, extract_pages}

module _ {ℓ} {A : Type ℓ} where
  drop-length : (n : ℕ) (xs : List A) → length xs ≤ n → drop n xs ≡ []
  drop-length zero [] h = refl
  drop-length zero (x ∷ xs) h = absurd (omega arith)
  drop-length (suc n) [] h = refl
  drop-length (suc n) (x ∷ xs) h = drop-length n xs (omega arith)

  take-length : (n : ℕ) (xs : List A) → length xs ≤ n → take n xs ≡ xs
  take-length zero [] h = refl
  take-length zero (x ∷ xs) h = absurd (omega arith)
  take-length (suc n) [] h = refl
  take-length (suc n) (x ∷ xs) h = ap (λ t. x ∷ t) (take-length n xs (omega arith))

  -- A slice and what stands behind it make up what stands behind its start.
  slice-append-drop : (i j : ℕ) (xs : List A) → i ≤ j → drop i (take j xs) ++ drop j xs ≡ drop i xs
  slice-append-drop i zero xs h =
      elim i as (λ i. i ≤ zero → drop i (take zero xs) ++ xs ≡ drop i xs) [
        | zero ↦ λ _. refl
        | suc k ↦ λ p. absurd (omega arith)
      ]
        h
  slice-append-drop zero (suc j) [] h = refl
  slice-append-drop (suc i) (suc j) [] h = refl
  slice-append-drop zero (suc j) (x ∷ xs) h =
      ap (λ t. x ∷ t) (slice-append-drop zero j xs (omega arith))
  slice-append-drop (suc i) (suc j) (x ∷ xs) h = slice-append-drop i j xs (omega arith)

  -- The slice at `start` is cut off at the end of the list.
  chunk-append-drop :
      (start step : ℕ) (xs : List A)
      → extract_pages xs (chunk_at (length xs) step start) ++ drop (start + step) xs ≡ drop start xs
  unfolding extract_pages
  chunk-append-drop start step xs = elim (dec_le (start + step) (length xs)) [
    | yes p ↦
        let e : min (start + step) (length xs) ≡ start + step = omega arith in
        rw e (slice-append-drop start (start + step) xs (omega arith))
    | no p ↦
        let e : min (start + step) (length xs) ≡ length xs = omega arith in
        rw
          (e, take-length (length xs) xs (omega arith), drop-length (start + step) xs (omega arith))
          (append-nil (drop start xs))
  ]

  -- The slices at `start`, `start + step`, … join to what stands behind `start`.
  pub concat-extract :
      (fuel start step : ℕ) (xs : List A)
      → 0 < step
      → length xs ≤ start + fuel * step
      → concat (
          map
            (λ r. extract_pages xs r)
            (map (chunk_at (length xs) step) (range_step fuel start (length xs) step)))
        ≡ drop start xs
  unfolding range_step
  concat-extract zero start step xs p h = sym (drop-length start xs (omega arith))
  concat-extract (suc fuel) start step xs p h = elim (Bool-cases (ltb start (length xs))) [
    | inl e ↦ rw e (
        rw (concat-extract fuel (start + step) step xs p (omega arith))
          (chunk-append-drop start step xs))
    | inr e ↦ rw e (sym (drop-length start xs (ground arith)))
  ]
