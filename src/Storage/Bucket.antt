-- ===== src/Storage/Bucket.antt =====
-- Reads and writes of storage.py on one bucket.
use markitdown_server.Prelude.{
  if◌then◌else◌, ◌==◌, false, inl, inr, Bool-cases, ℕ, zero, suc, ◌+◌, ◌≤◌, ◌≡◌, ◌≢◌, refl, sym,
  ◌∙◌, Option, none, some, List, [], ◌∷◌, Text, arith, text_eq_iff, get_elem?, text_eq_refl, ◌⊎◌,
  true,
}
use markitdown_server.Storage.{
  Bytes, Bucket, Codec, found, fetched, get_bytes, put_bytes, part_key, page_key, manifest_key,
  get_part, put_pages, put_document, manifest_of, get_manifest, get_page, put_part, source_key,
  put_source, exists,
}
use markitdown_server.Storage.Keys.{
  page_key-injective, page_key-ne-manifest_key, part_key-ne, part_key-injective,
}

get-put_self :
    (key : Text) (body : Bytes) (b : Bucket) → get_bytes key (put_bytes key body b) ≡ some body
get-put_self key body b = unfold get_bytes put_bytes in rw (text_eq_refl key)

get-put_ne :
    (key other : Text) (body : Bytes) (b : Bucket)
    → other ≢ key
    → get_bytes key (put_bytes other body b) ≡ get_bytes key b
get-put_ne key other body b h = unfold get_bytes put_bytes in ground (arith, text_eq_iff other key)

-- A source is stored under its hash, where the key had nothing or this content.
pub get-put_source :
    (file_hash : Text) (content : Bytes) (b : Bucket)
    → (get_bytes (source_key file_hash) b ≡ none)
      ⊎ (get_bytes (source_key file_hash) b ≡ some content)
    → get_bytes (source_key file_hash) (put_source file_hash content b) ≡ some content
get-put_source file_hash content b (inl absent) =
    let new : exists (source_key file_hash) b ≡ false = unfold exists in rw (absent, exists) refl in
    unfold put_source in rw new (get-put_self (source_key file_hash) content b)
get-put_source file_hash content b (inr there) =
    let old : exists (source_key file_hash) b ≡ true = unfold exists in rw (there, exists) refl in
    unfold put_source in rw old there

module _ (codec : Codec) (doc_key : Text) where
  open codec use {encode, decode, dumps, loads, decode-encode, loads-dumps}

  get-put_pages_cons :
      (key : Text) (index : ℕ) (p : Text) (pages : List Text) (b : Bucket)
      → get_bytes key (put_pages codec doc_key index (p ∷ pages) b)
        ≡ get_bytes key (
            put_pages codec doc_key
              (index + 1)
              pages
              (put_bytes (page_key doc_key index) (encode p) b))
  get-put_pages_cons key index p pages b = unfold put_pages in refl

  -- The loop touches no key but those of the pages it writes.
  get-put_pages_ne :
      (key : Text) (index : ℕ) (pages : List Text) (b : Bucket)
      → ((i : ℕ) → index ≤ i → page_key doc_key i ≢ key)
      → get_bytes key (put_pages codec doc_key index pages b) ≡ get_bytes key b
  get-put_pages_ne key index [] b h = unfold put_pages in refl
  get-put_pages_ne key index (p ∷ pages) b h =
      get-put_pages_cons key index p pages b
      ∙ get-put_pages_ne key (index + 1) pages (put_bytes (page_key doc_key index) (encode p) b)
          (λ i le. h i (omega arith))
      ∙ get-put_ne key (page_key doc_key index) (encode p) b (h index (omega arith))

  later_page : (i index : ℕ) → index + 1 ≤ i → page_key doc_key i ≢ page_key doc_key index
  later_page i index h e =
      let same : i ≡ index = (page_key-injective doc_key doc_key refl i index e).1 in
      absurd (omega arith)

  -- Each page is read back under its number.
  get-put_pages :
      (index i : ℕ) (pages : List Text) (b : Bucket) (page : Text)
      → get_elem? pages i ≡ some page
      → get_bytes (page_key doc_key (index + i)) (put_pages codec doc_key index pages b)
        ≡ some (encode page)
  get-put_pages index i [] b page e = absurd (nothing e)
    where
      nothing : ◌≡◌ {A = Option Text} none (some page) → ⊥
      nothing h = cc
  get-put_pages index zero (p ∷ pages) b page e =
      let at : index + 0 ≡ index = omega arith in
      let same : p ≡ page = cc in
      rw (at, ← same)
        (get-put_pages_cons (page_key doc_key index) index p pages b
          ∙ get-put_pages_ne (page_key doc_key index) (index + 1) pages
              (put_bytes (page_key doc_key index) (encode p) b) (λ i le. later_page i index le)
          ∙ get-put_self (page_key doc_key index) (encode p) b)
  get-put_pages index (suc i) (p ∷ pages) b page e =
      let at : index + suc i ≡ index + 1 + i = omega arith in
      rw at (
        get-put_pages_cons (page_key doc_key (index + 1 + i)) index p pages b
        ∙ get-put_pages (index + 1) i pages (put_bytes (page_key doc_key index) (encode p) b) page
            e)

  -- After `put_document` every page is read back under its number, counted from one, and the manifest says how many there are.
  pub get-put_document :
      (pages : List Text) (total_length page_size : ℕ) (b : Bucket) (i : ℕ) (page : Text)
      → get_elem? pages i ≡ some page
      → (get_manifest codec doc_key (put_document codec doc_key pages total_length page_size b)
          ≡ found (manifest_of codec doc_key pages total_length page_size))
        × (get_page codec doc_key
              (i + 1)
              (put_document codec doc_key pages total_length page_size b)
            ≡ found page)
  get-put_document pages total_length page_size b i page e = (
    unfold get_manifest put_document in rw (get-put_self, fetched, loads-dumps),
    unfold get_page put_document in
        let at : i + 1 ≡ 1 + i = omega arith in
        rw (
          at,
          get-put_ne (page_key doc_key (1 + i)) (manifest_key doc_key) _ _ (other_key (1 + i)),
          get-put_pages 1 i pages b page e,
          fetched,
          decode-encode,
        ),
  )
    where
      other_key : (i : ℕ) → manifest_key doc_key ≢ page_key doc_key i
      other_key i e = page_key-ne-manifest_key doc_key doc_key refl i (sym e)

  -- While the pages are being written the manifest that is visible is the old one, and no part is touched.
  pub put_pages_keeps :
      (index : ℕ) (pages : List Text) (b : Bucket)
      → (get_manifest codec doc_key (put_pages codec doc_key index pages b)
          ≡ get_manifest codec doc_key b)
        × ((i : ℕ)
            → get_part codec doc_key i (put_pages codec doc_key index pages b)
              ≡ get_part codec doc_key i b)
  put_pages_keeps index pages b = (
    unfold get_manifest in
        rw (
          get-put_pages_ne (manifest_key doc_key) index pages b
            (λ i _. page_key-ne-manifest_key doc_key doc_key refl i)),
    λ i.
        unfold get_part in
        rw (
          get-put_pages_ne (part_key doc_key i) index pages b
            (λ j _ e. (part_key-ne doc_key doc_key refl i j).0 (sym e))),
  )

  -- A part that is written is read back, and the other parts of the document stay as they are.
  pub get-put_part :
      (i index : ℕ) (text : Text) (b : Bucket)
      → get_part codec doc_key i (put_part codec doc_key index text b)
        ≡ (if i == index then found text else get_part codec doc_key i b)
  unfolding get_part put_part
  get-put_part i index text b = elim (Bool-cases (i == index)) [
    | inl e ↦
        let same : i ≡ index = ground arith in
        rw (e, same, get-put_self (part_key doc_key index) (encode text) b, fetched, decode-encode)
    | inr e ↦ rw (
      e,
      get-put_ne (part_key doc_key i) (part_key doc_key index) (encode text) b
          (λ h. absurd (other e (part_key-injective doc_key doc_key refl index i h).1)),
    )
  ]
    where
      other : (i == index) ≡ false → index ≡ i → ⊥
      other e h = ground arith
