-- ===== src/Storage/Keys.antt =====
-- The keys of storage.py against each other. A document key is a SHA-256 digest, a colon and a fingerprint of sixteen digits, so
-- all of them have one length.
use markitdown_server.Prelude.{
  ℕ, ◌≡◌, ◌≢◌, refl, ap, [], ◌∷◌, ◌++◌, Text, codes, arith, length, drop, length-append,
}
use markitdown_server.Storage.{decimal, decimal05, part_key, page_key, manifest_key}
use markitdown_server.Storage.Decimal.{decimal-injective, decimal05-injective}

abbrev first : Text → ℕ
first [] = 0
first (c ∷ s) = c

append-split :
    (xs ys as' bs : Text) → length xs ≡ length ys → xs ++ as' ≡ ys ++ bs → (xs ≡ ys) × (as' ≡ bs)
append-split [] [] as' bs n e = (refl, e)
append-split [] (y ∷ ys) as' bs n e = absurd (omega arith)
append-split (x ∷ xs) [] as' bs n e = absurd (omega arith)
append-split (x ∷ xs) (y ∷ ys) as' bs n e = ground (arith, append-split xs ys as' bs)

append-cancel : (xs ys end : Text) → xs ++ end ≡ ys ++ end → xs ≡ ys
append-cancel xs ys end e =
    (append-split xs ys end end
      (omega (arith, ap (λ s. length s) e, length-append {0} xs end, length-append {0} ys end)) e).0

module _ (d d' : Text) (same_length : length d ≡ length d') where
  -- For document keys of one length, two parts with one key are the same part of the same document.
  pub part_key-injective : (i j : ℕ) → part_key d i ≡ part_key d' j → (d ≡ d') × (i ≡ j)
  unfolding part_key
  part_key-injective i j e =
      let (docs, rest) = append-split d d' _ _ same_length (ap (λ t. drop 6 t) e) in
      (
        docs,
        decimal05-injective i j
            (append-cancel (decimal05 i) (decimal05 j) (codes ".md") (ap (λ t. drop 1 t) rest)),
      )

  -- For document keys of one length, two pages with one key are the same page of the same document.
  pub page_key-injective : (i j : ℕ) → page_key d i ≡ page_key d' j → (d ≡ d') × (i ≡ j)
  unfolding page_key
  page_key-injective i j e =
      let (docs, rest) = append-split d d' _ _ same_length (ap (λ t. drop 5 t) e) in
      (
        docs,
        decimal-injective i j
            (append-cancel (decimal i) (decimal j) (codes ".md") (ap (λ t. drop 7 t) rest)),
      )

  -- For document keys of one length, no page has the key of a manifest.
  pub page_key-ne-manifest_key : (i : ℕ) → page_key d i ≢ manifest_key d'
  unfolding page_key manifest_key
  page_key-ne-manifest_key i e =
      let (docs, rest) = append-split d d' _ _ same_length (ap (λ t. drop 5 t) e) in
      let letters : ◌≡◌ {A = ℕ} b'p' b'm' = ap (λ t. first (drop 1 t)) rest in absurd (omega arith)

  -- For document keys of one length, no page or manifest has the key of a part.
  pub part_key-ne : (i j : ℕ) → (part_key d i ≢ page_key d' j) × (part_key d i ≢ manifest_key d')
  unfolding part_key page_key manifest_key
  part_key-ne i j = (λ e. apart (ap first e), λ e. apart (ap first e))
    where
      apart : ◌≡◌ {A = ℕ} b'p' b'd' → ⊥
      apart e = omega arith
