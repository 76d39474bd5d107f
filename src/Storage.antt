-- ===== src/Storage.antt =====
-- storage.py: the keys of the object store and the operations on it.
-- `Codec` stands for the standard library's UTF-8 and JSON, of which the code relies on the round trips. The
-- bucket is the list of its objects, the latest write of a key first; a call of the S3 client that the
-- service refuses is the caller's matter (Action).
pub mod Decimal
pub mod Keys
pub mod Bucket
pub mod Fingerprint
pub mod Provisioning
pub mod Tests
use markitdown_server.Prelude.{
  ℕ, zero, suc, ◌+◌, ◌-◌, ◌*◌, ◌/◌, ◌%◌, ◌≡◌, Bool, true, false, Option, none, some, List, [], ◌∷◌,
  ◌++◌, ◌==◌, if◌then◌else◌, Text, codes, text_eq, length,
}

abbrev pub replicate : ℕ → ℕ → Text
replicate zero c = []
replicate (suc n) c = c ∷ replicate n c

-- The decimal digits of a number in front of a text; the fuel bounds how many there are.
unfoldable pub digits : ℕ → ℕ → Text → Text
digits zero n acc = acc
digits (suc fuel) n acc =
    let rest = digits fuel (n / 10) ((b'0' + n % 10) ∷ acc) in if n == 0 then acc else rest

-- `str(n)`
unfoldable pub decimal : ℕ → Text
unfolding digits
decimal n = if n == 0 then b'0' ∷ [] else digits n n []

-- `f"{n:05d}"`
unfoldable pub decimal05 : ℕ → Text
unfolding decimal
decimal05 n = replicate (5 - length (decimal n)) b'0' ++ decimal n

unfoldable pub source_key : Text → Text
source_key file_hash = codes "src/" ++ file_hash

unfoldable pub part_key : Text → ℕ → Text
part_key doc_key chunk_index =
    codes "parts/" ++ (doc_key ++ (codes "/" ++ (decimal05 chunk_index ++ codes ".md")))

unfoldable pub manifest_key : Text → Text
manifest_key doc_key = codes "docs/" ++ (doc_key ++ codes "/manifest.json")

unfoldable pub page_key : Text → ℕ → Text
page_key doc_key page =
    codes "docs/" ++ (doc_key ++ (codes "/pages/" ++ (decimal page ++ codes ".md")))

abbrev pub Bytes : Type 0
Bytes = List ℕ

pub record Manifest : Type 0 where
  pub doc_key : Text
  pub total_pages : ℕ
  pub total_length : ℕ
  pub page_size : ℕ

-- `str.encode("utf-8")`, `bytes.decode("utf-8")`, and `json.dumps`, `json.loads` on a manifest. What is not decoded
-- raises in Python.
pub record Codec : Type 0 where
  pub encode : Text → Bytes
  pub decode : Bytes → Option Text
  pub dumps : Manifest → Bytes
  pub loads : Bytes → Option Manifest
  pub decode-encode : (s : Text) → decode (encode s) ≡ some s
  pub loads-dumps : (m : Manifest) → loads (dumps m) ≡ some m

abbrev pub Bucket : Type 0
Bucket = List (Text × Bytes)

-- `get_object`, with `None` for a key that is not there
unfoldable pub get_bytes : Text → Bucket → Option Bytes
get_bytes key [] = none
get_bytes key ((k, v) ∷ b) = if text_eq k key then some v else get_bytes key b

-- `put_object`
unfoldable pub put_bytes : Text → Bytes → Bucket → Bucket
put_bytes key body b = (key, body) ∷ b

-- `exists`: `head_object` succeeds.
unfoldable pub exists : Text → Bucket → Bool
unfolding get_bytes
exists key b = elim (get_bytes key b) [ none ↦ false | some v ↦ true ]

unfoldable pub put_source : Text → Bytes → Bucket → Bucket
put_source file_hash content b =
    if exists (source_key file_hash) b then b else put_bytes (source_key file_hash) content b

-- What a read returns: the value, `None`, or an undecodable body, which raises.
pub data Fetched (A : Type 0) : Type 0 where
  found : A → Fetched A
  missing : Fetched A
  undecodable : Fetched A

abbrev pub fetched : {A : Type 0} → (Bytes → Option A) → Option Bytes → Fetched A
fetched read none = missing
fetched read (some body) = elim (read body) [ none ↦ undecodable | some a ↦ found a ]

module _ (codec : Codec) where
  open codec use {encode, decode, dumps, loads}

  unfoldable pub put_part : Text → ℕ → Text → Bucket → Bucket
  put_part doc_key chunk_index markdown b =
      put_bytes (part_key doc_key chunk_index) (encode markdown) b

  unfoldable pub get_part : Text → ℕ → Bucket → Fetched Text
  get_part doc_key chunk_index b = fetched decode (get_bytes (part_key doc_key chunk_index) b)

  -- The `for` loop of `put_document`, from a page number on.
  unfoldable pub put_pages : Text → ℕ → List Text → Bucket → Bucket
  put_pages doc_key index [] b = b
  put_pages doc_key index (page ∷ pages) b =
      put_pages doc_key (index + 1) pages (put_bytes (page_key doc_key index) (encode page) b)

  abbrev pub manifest_of : Text → List Text → ℕ → ℕ → Manifest
  manifest_of doc_key pages total_length page_size = record {
    doc_key = doc_key;
    total_pages = length pages;
    total_length = total_length;
    page_size = page_size;
  }

  unfoldable pub put_document : Text → List Text → ℕ → ℕ → Bucket → Bucket
  put_document doc_key pages total_length page_size b =
      put_bytes (manifest_key doc_key) (dumps (manifest_of doc_key pages total_length page_size))
        (put_pages doc_key 1 pages b)

  unfoldable pub get_manifest : Text → Bucket → Fetched Manifest
  get_manifest doc_key b = fetched loads (get_bytes (manifest_key doc_key) b)

  unfoldable pub get_page : Text → ℕ → Bucket → Fetched Text
  get_page doc_key page b = fetched decode (get_bytes (page_key doc_key page) b)
