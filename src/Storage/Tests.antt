-- ===== src/Storage/Tests.antt =====
-- Tests of the keys and the bucket, and the theorems at concrete inputs.
use markitdown_server.Prelude.{◌≡◌, refl, Option, none, some, [], ◌∷◌, codes, text_eq, Bool, true}
use markitdown_server.Prelude.Int.{pos, negsuc}
use markitdown_server.Storage.Fingerprint.{Conversion}
use markitdown_server.Storage.Fingerprint.Parts.{fingerprint_text-injective}
use markitdown_server.Storage.{
  Bytes, Manifest, Codec, decimal, decimal05, part_key, page_key, found, put_source, get_bytes,
  source_key, put_document, manifest_of, get_manifest, get_page, digits, exists, put_bytes,
}
use markitdown_server.Storage.Bucket.{get-put_document}

decimal05_7 : decimal05 7 ≡ codes "00007"
unfolding decimal05 decimal digits
decimal05_7 = refl

part_key_12 : part_key (codes "d") 12 ≡ codes "parts/d/00012.md"
unfolding part_key decimal05 decimal digits
part_key_12 = refl

page_key_12 : page_key (codes "d") 12 ≡ codes "docs/d/pages/12.md"
unfolding page_key decimal digits
page_key_12 = refl

-- The first source that is stored under a hash stays.
put_source_twice :
    get_bytes
      (source_key (codes "h"))
      (put_source (codes "h") (2 ∷ []) (put_source (codes "h") (1 ∷ []) []))
    ≡ some (1 ∷ [])
unfolding put_source exists get_bytes put_bytes source_key text_eq
put_source_twice = refl

-- A codec: a text is its codes, and a manifest is its numbers in front of its key.
abbrev pub write_manifest : Manifest → Bytes
write_manifest m = m.total_pages ∷ m.total_length ∷ m.page_size ∷ m.doc_key

abbrev pub read_manifest : Bytes → Option Manifest
read_manifest (p ∷ l ∷ s ∷ d) =
    some (record { doc_key = d; total_pages = p; total_length = l; page_size = s })
read_manifest bs = none

abbrev pub plain_codec : Codec
plain_codec = record {
  encode = λ s. s;
  decode = λ bs. some bs;
  dumps = write_manifest;
  loads = read_manifest;
  decode-encode = λ s. refl;
  loads-dumps = λ m. refl;
}

get-put_document_example :
    (get_manifest plain_codec
        (codes "d")
        (put_document plain_codec (codes "d") (codes "one" ∷ codes "two" ∷ []) 8 5 [])
      ≡ found (manifest_of plain_codec (codes "d") (codes "one" ∷ codes "two" ∷ []) 8 5))
    × (get_page plain_codec
          (codes "d")
          2
          (put_document plain_codec (codes "d") (codes "one" ∷ codes "two" ∷ []) 8 5 [])
        ≡ found (codes "two"))
get-put_document_example =
    get-put_document plain_codec (codes "d") (codes "one" ∷ codes "two" ∷ []) 8 5 [] 1 (codes "two")
      refl

abbrev conversion : Conversion
conversion = record {
  openai_model = codes "m";
  page_size = pos 10;
  pages_per_chunk = pos 2;
  min_pages = negsuc 0;
}

fingerprint_text-injective_example :
    (codes "1" ≡ codes "1")
    × (◌≡◌ {A = Bool} true true)
    × (some (codes "m") ≡ some (codes "m"))
    × (pos 10 ≡ pos 10)
    × (pos 2 ≡ pos 2)
    × (negsuc 0 ≡ negsuc 0)
fingerprint_text-injective_example =
    fingerprint_text-injective conversion conversion (some (codes "1")) (some (codes "1")) true true
      refl refl refl refl refl
