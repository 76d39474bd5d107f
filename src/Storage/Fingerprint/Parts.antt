-- ===== src/Storage/Fingerprint/Parts.antt =====
-- storage.py's keys of documents: what they tell apart, and that hashing in blocks is hashing.
use markitdown_server.Prelude.{
  lacks, ℕ, zero, suc, ◌+◌, ◌≤◌, ◌<◌, ◌≡◌, refl, ap, sym, ◌∙◌, Bool, true, false, Option, none,
  some, [], ◌∷◌, ◌++◌, ◌==◌, Text, codes, length, take, drop, arith, Bool-cases, All, inl, inr, ◌⊎◌,
  length-drop, take-append-drop, ◌/◌, ◌%◌, if◌then◌else◌, append-nil, append_assoc,
}
use markitdown_server.Prelude.Int.{ℤ, pos, negsuc}
use markitdown_server.Storage.{Bytes, digits, decimal}
use markitdown_server.Storage.Decimal.{decimal-injective}
use markitdown_server.Storage.Fingerprint.{
  Hash, Conversion, read_blocks, feed, hash_file, decimal_ℤ, version_name, fingerprint_text,
  make_doc_key, config_fingerprint, is_hex,
}
use markitdown_server.Jobstore.{last_part}

split_at :
    (c : ℕ) (u v s t : Text)
    → lacks c u ≡ true
    → lacks c v ≡ true
    → u ++ c ∷ s ≡ v ++ c ∷ t
    → (u ≡ v) × (s ≡ t)
split_at c [] [] s t h k e = (refl, ap (λ x. drop 1 x) e)
split_at c [] (y ∷ v) s t h k e = ground arith
split_at c (x ∷ u) [] s t h k e = ground arith
split_at c (x ∷ u) (y ∷ v) s t h k e = ground (arith, split_at c u v s t)

digits-lacks :
    (c fuel n : ℕ) (acc : Text)
    → (c < 48) ⊎ (57 < c)
    → lacks c acc ≡ true
    → lacks c (digits fuel n acc) ≡ true
unfolding digits
digits-lacks c zero n acc far h = h
digits-lacks c (suc fuel) n acc far h = elim (Bool-cases (n == 0)) [
  | inl e ↦ rw e h
  | inr e ↦ rw e (digits-lacks c fuel (n / 10) ((b'0' + n % 10) ∷ acc) far (ground arith))
]

pub decimal-lacks : (c n : ℕ) → (c < 48) ⊎ (57 < c) → lacks c (decimal n) ≡ true
unfolding decimal
decimal-lacks c n far = elim (Bool-cases (n == 0)) [
  | inl e ↦ rw e (ground arith)
  | inr e ↦ rw e (digits-lacks c n n [] far refl)
]

decimal_ℤ-lacks : (z : ℤ) → lacks b'|' (decimal_ℤ z) ≡ true
decimal_ℤ-lacks (pos n) = decimal-lacks b'|' n (inr (omega arith))
decimal_ℤ-lacks (negsuc n) = decimal-lacks b'|' (suc n) (inr (omega arith))

minus_first : (m : ℕ) (s : Text) → decimal m ≡ b'-' ∷ s → ⊥
minus_first m s e =
    let none_there : lacks b'-' (decimal m) ≡ true = decimal-lacks b'-' m (inl (omega arith)) in
    let one_there : lacks b'-' (decimal m) ≡ false = ap (λ t. lacks b'-' t) e in ground arith

decimal_ℤ-injective : (a b : ℤ) → decimal_ℤ a ≡ decimal_ℤ b → a ≡ b
decimal_ℤ-injective (pos m) (pos n) e = ap pos (decimal-injective m n e)
decimal_ℤ-injective (pos m) (negsuc n) e = absurd (minus_first m (decimal (suc n)) e)
decimal_ℤ-injective (negsuc m) (pos n) e = absurd (minus_first n (decimal (suc m)) (sym e))
decimal_ℤ-injective (negsuc m) (negsuc n) e =
    let same : suc m ≡ suc n = decimal-injective (suc m) (suc n) (ap (λ s. drop 1 s) e) in
    ap negsuc (omega arith)

-- The model that a conversion uses.
abbrev pub model_used : Conversion → Bool → Option Text
model_used settings false = none
model_used settings true = some settings.openai_model

abbrev mode : Bool → Text
mode use_llm = if use_llm then codes "llm" else codes "nollm"

abbrev model : Conversion → Bool → Text
model s use_llm = if use_llm then s.openai_model else codes "-"

mode-lacks : (use_llm : Bool) → lacks b'|' (mode use_llm) ≡ true
mode-lacks true = refl
mode-lacks false = refl

model-lacks :
    (s : Conversion) (use_llm : Bool)
    → lacks b'|' s.openai_model ≡ true
    → lacks b'|' (model s use_llm) ≡ true
model-lacks s true h = h
model-lacks s false h = refl

model_used-same :
    (s s' : Conversion) (llm llm' : Bool)
    → mode llm ≡ mode llm'
    → model s llm ≡ model s' llm'
    → (llm ≡ llm') × (model_used s llm ≡ model_used s' llm')
model_used-same s s' true true e h = (refl, ap some h)
model_used-same s s' true false e h = absurd (omega (arith, ap (λ t. length t) e))
model_used-same s s' false true e h = absurd (omega (arith, ap (λ t. length t) e))
model_used-same s s' false false e h = (refl, refl)

-- Two conversions whose versions of markitdown and models hold no bar are fingerprinted by the same text only if all that
-- `config_fingerprint` reads is the same: the version, whether an LLM is used and which model, and the three sizes.
pub fingerprint_text-injective :
    (s s' : Conversion) (version version' : Option Text) (llm llm' : Bool)
    → lacks b'|' (version_name version) ≡ true
    → lacks b'|' (version_name version') ≡ true
    → lacks b'|' s.openai_model ≡ true
    → lacks b'|' s'.openai_model ≡ true
    → fingerprint_text s version llm ≡ fingerprint_text s' version' llm'
    → (version_name version ≡ version_name version')
      × (llm ≡ llm')
      × (model_used s llm ≡ model_used s' llm')
      × (s.page_size ≡ s'.page_size)
      × (s.pages_per_chunk ≡ s'.pages_per_chunk)
      × (s.min_pages ≡ s'.min_pages)
unfolding fingerprint_text
fingerprint_text-injective s s' version version' llm llm' v v' m m' e =
    let (versions, e1) = split_at b'|' _ _ _ _ v v' e in
    let (modes, e2) = split_at b'|' _ _ _ _ (mode-lacks llm) (mode-lacks llm') e1 in
    let (models, e3) = split_at b'|' _ _ _ _ (model-lacks s llm m) (model-lacks s' llm' m') e2 in
    let (sizes, e4) =
      split_at b'|' _ _ _ _ (decimal_ℤ-lacks s.page_size) (decimal_ℤ-lacks s'.page_size) e3 in
    let (chunks, e5) =
      split_at b'|' _ _ _ _ (decimal_ℤ-lacks s.pages_per_chunk) (decimal_ℤ-lacks s'.pages_per_chunk)
        e4 in
    let (same_mode, same_model) = model_used-same s s' llm llm' modes models in
    (
      versions,
      same_mode,
      same_model,
      decimal_ℤ-injective s.page_size s'.page_size sizes,
      decimal_ℤ-injective s.pages_per_chunk s'.pages_per_chunk chunks,
      decimal_ℤ-injective s.min_pages s'.min_pages e5,
    )

last_part-lacks : (u seen : Text) → lacks b':' u ≡ true → last_part seen u ≡ seen ++ u
unfolding last_part
last_part-lacks [] seen h = sym (append-nil seen)
last_part-lacks (c ∷ u) seen h =
    let other : (c == b':') ≡ false = ground arith in
    rw other (last_part-lacks u (seen ++ c ∷ []) (ground arith) ∙ append_assoc seen (c ∷ []) u)

last_part-append : (u v seen : Text) → lacks b':' v ≡ true → last_part seen (u ++ b':' ∷ v) ≡ v
unfolding last_part
last_part-append [] v seen h = last_part-lacks v [] h
last_part-append (c ∷ u) v seen h = last_part-append u v _ h

hex-lacks : (s : Text) → All (λ c. is_hex c ≡ true) s → lacks b':' s ≡ true
hex-lacks [] h = refl
hex-lacks (c ∷ s) (here, there) = ground (arith, hex-lacks s there)

take-hex : (n : ℕ) (s : Text) → All (λ c. is_hex c ≡ true) s → All (λ c. is_hex c ≡ true) (take n s)
take-hex zero s h = tt
take-hex (suc n) [] h = tt
take-hex (suc n) (c ∷ s) (here, there) = (here, take-hex n s there)

module _ (hash : Hash) where
  -- What `record_document` stores as the fingerprint of a document, cut from its key, is the fingerprint of the key.
  pub last_part-make_doc_key :
      (encode : Text → Bytes) (s : Conversion) (version : Option Text) (file_hash : Text)
      (use_llm : Bool)
      → last_part [] (make_doc_key hash encode s version file_hash use_llm)
        ≡ config_fingerprint hash encode s version use_llm
  unfolding make_doc_key config_fingerprint
  last_part-make_doc_key encode s version file_hash use_llm =
      last_part-append file_hash _ [] (hex-lacks _ (take-hex 16 _ (hash.hexdigest_hex _)))

  feed-blocks :
      (fuel size : ℕ) (content : Bytes) (digest : hash.State)
      → length content ≤ fuel
      → 1 ≤ size
      → feed hash digest (read_blocks fuel size content) ≡ hash.update digest content
  unfolding feed read_blocks
  feed-blocks zero size [] digest enough h = sym (hash.update-empty digest)
  feed-blocks zero size (c ∷ content) digest enough h = absurd (omega arith)
  feed-blocks (suc fuel) size [] digest enough h = sym (hash.update-empty digest)
  feed-blocks (suc fuel) size (c ∷ content) digest enough h =
      feed-blocks fuel size (drop size (c ∷ content)) _
        (omega (arith, length-drop size (c ∷ content))) h
      ∙ hash.update-append digest _ _
      ∙ ap (hash.update digest) (take-append-drop size (c ∷ content))

  -- Reading a file in blocks of at least one byte, until a read returns nothing, hashes the same as its whole content.
  pub hash_file-whole :
      (chunk_size : ℕ) (content : Bytes)
      → 1 ≤ chunk_size
      → hash_file hash chunk_size content ≡ hash.hexdigest (hash.update hash.new_state content)
  unfolding hash_file
  hash_file-whole chunk_size content h =
      ap hash.hexdigest
        (feed-blocks (length content) chunk_size content hash.new_state (omega arith) h)
