-- ===== src/Converter/Tests.antt =====
-- Tests of the download, and the theorems at concrete inputs.
use markitdown_server.Prelude.{◌≡◌, [], ◌∷◌, inl, codes, List}
use markitdown_server.Storage.{Bytes}
use markitdown_server.Converter.{download}
use markitdown_server.Converter.Download.{download-body, whole_body}

abbrev two_chunks : List Bytes
two_chunks = codes "ab" ∷ [] ∷ codes "c" ∷ []

download-body_example :
    download
      (codes "u")
      2
      (record { status_code = 200; chunks = inl (codes "ab") ∷ inl [] ∷ inl (codes "c") ∷ [] })
    ≡ whole_body (codes "u") 2 (codes "abc")
download-body_example = download-body (codes "u") 2 two_chunks
