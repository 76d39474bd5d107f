-- ===== src/Storage/Fingerprint.antt =====
-- storage.py: `hash_file`, `config_fingerprint` and `make_doc_key`.
-- `Hash` stands for hashlib's sha256, of which the documented law of `update` is assumed; the version of markitdown is `none`
-- where importlib does not find it.
pub mod Parts
use markitdown_server.Prelude.{
  ℕ, zero, suc, Bool, true, false, Option, none, some, List, [], ◌∷◌, ◌++◌, ◌≡◌, if◌then◌else◌,
  Text, codes, length, take, drop, leb, ◌&&◌, ◌||◌, All,
}
use markitdown_server.Prelude.Int.{ℤ, pos, negsuc}
use markitdown_server.Pagination.{is_empty}
use markitdown_server.Storage.{Bytes, decimal}

-- `hexdigest` gives digits from 0 to 9 and letters from a to f.
abbrev pub is_hex : ℕ → Bool
is_hex c = (leb 48 c && leb c 57) || (leb 97 c && leb c 102)

pub record Hash : Type 1 where
  pub State : Type 0
  pub new_state : State
  pub update : State → Bytes → State
  pub hexdigest : State → Text
  pub update-append : (s : State) (a b : Bytes) → update (update s a) b ≡ update s (a ++ b)
  pub update-empty : (s : State) → update s [] ≡ s
  pub hexdigest_hex : (s : State) → All (λ c. is_hex c ≡ true) (hexdigest s)

-- `iter(lambda: fh.read(size), b"")`; the fuel bounds the number of blocks.
unfoldable pub read_blocks : ℕ → ℕ → Bytes → List Bytes
read_blocks zero size content = []
read_blocks (suc fuel) size content =
    let rest = read_blocks fuel size (drop size content) in
    if is_empty content then [] else take size content ∷ rest

-- The settings that `config_fingerprint` reads.
pub record Conversion : Type 0 where
  pub openai_model : Text
  pub page_size : ℤ
  pub pages_per_chunk : ℤ
  pub min_pages : ℤ

-- `str(n)` of an `int`
abbrev pub decimal_ℤ : ℤ → Text
decimal_ℤ (pos n) = decimal n
decimal_ℤ (negsuc n) = b'-' ∷ decimal (suc n)

-- `"|".join(parts)`
abbrev pub join_bars : List Text → Text
join_bars [] = []
join_bars (p ∷ []) = p
join_bars (p ∷ q ∷ ps) = p ++ b'|' ∷ join_bars (q ∷ ps)

abbrev pub version_name : Option Text → Text
version_name none = codes "unknown"
version_name (some version) = version

-- What `config_fingerprint` hashes.
unfoldable pub fingerprint_text : Conversion → Option Text → Bool → Text
fingerprint_text settings version use_llm = join_bars (
    version_name version
    ∷ (if use_llm then codes "llm" else codes "nollm")
    ∷ (if use_llm then settings.openai_model else codes "-")
    ∷ decimal_ℤ settings.page_size
    ∷ decimal_ℤ settings.pages_per_chunk
    ∷ decimal_ℤ settings.min_pages
    ∷ [])

module _ (hash : Hash) where
  open hash use {State, new_state, update, hexdigest}

  -- The `for` loop of `hash_file`.
  unfoldable pub feed : State → List Bytes → State
  feed digest [] = digest
  feed digest (block ∷ blocks) = feed (update digest block) blocks

  -- `hash_file`, for the content of the file; `_CHUNK_SIZE` is 1024 * 1024.
  unfoldable pub hash_file : ℕ → Bytes → Text
  unfolding feed read_blocks
  hash_file chunk_size content =
      hexdigest (feed new_state (read_blocks (length content) chunk_size content))

  module _ (encode : Text → Bytes) (settings : Conversion) (version : Option Text) where
    unfoldable pub config_fingerprint : Bool → Text
    unfolding fingerprint_text
    config_fingerprint use_llm =
        take 16 (hexdigest (update new_state (encode (fingerprint_text settings version use_llm))))

    unfoldable pub make_doc_key : Text → Bool → Text
    unfolding config_fingerprint
    make_doc_key file_hash use_llm = file_hash ++ b':' ∷ config_fingerprint use_llm
