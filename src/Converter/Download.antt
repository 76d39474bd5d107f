-- ===== src/Converter/Download.antt =====
-- converter.py's `download`: what it stores, and what it leaves behind.
use mathlib.Core.List.{append_assoc, append-nil}
use mathlib.Core.Path.{subst}
use markitdown_server.Prelude.{
  ◌==◌, ℕ, ◌+◌, ◌≤◌, ◌≡◌, refl, ap, ◌∙◌, true, false, none, some, List, [], ◌∷◌, ◌++◌, ◌⊎◌, inl,
  inr, ltb, leb, if◌then◌else◌, map, Text, length, arith, Bool-cases, length-append,
}
use markitdown_server.Storage.{Bytes}
use markitdown_server.Action.{Error}
use markitdown_server.Converter.{
  Downloaded, Response, write_chunks, download, too_large, close_file, bad_status,
}

-- The bytes of a body that comes in chunks.
abbrev pub body_of : List Bytes → Bytes
body_of [] = []
body_of (c ∷ cs) = c ++ body_of cs

-- A download that has the whole body at once.
abbrev pub whole_body : Text → ℕ → Bytes → Downloaded
whole_body url max_bytes body =
    if leb (length body) max_bytes
    then record { raised = none; temp_file = some body }
    else record { raised = some (too_large url max_bytes); temp_file = none }

write_chunks-body :
    (url : Text) (max_bytes : ℕ) (file : Bytes) (bodies : List Bytes)
    → length file ≤ max_bytes
    → close_file (write_chunks url max_bytes (length file) file (map inl bodies))
      ≡ whole_body url max_bytes (file ++ body_of bodies)
unfolding write_chunks
write_chunks-body url max_bytes file [] small =
    let fits : leb (length file) max_bytes ≡ true = ground arith in rw (append-nil file, fits) refl
write_chunks-body url max_bytes file ([] ∷ bodies) small =
    write_chunks-body url max_bytes file bodies small
write_chunks-body url max_bytes file ((b ∷ bs) ∷ bodies) small =
    elim (Bool-cases (ltb max_bytes (length file + length (b ∷ bs)))) [
      | inl over ↦
          let large : leb (length (file ++ ((b ∷ bs) ++ body_of bodies))) max_bytes ≡ false =
            ground (
              arith,
              length-append file ((b ∷ bs) ++ body_of bodies),
              length-append (b ∷ bs) (body_of bodies),
            ) in
          rw (over, large, write_chunks, close_file) refl
      | inr fits ↦
          let next : length (file ++ b ∷ bs) ≤ max_bytes =
            ground (arith, length-append file (b ∷ bs)) in
          rw (fits, write_chunks, close_file)
            (subst
              (λ n.
                close_file (write_chunks url max_bytes n (file ++ b ∷ bs) (map inl bodies))
                ≡ whole_body url max_bytes (file ++ ((b ∷ bs) ++ body_of bodies)))
              (length-append file (b ∷ bs))
              (write_chunks-body url max_bytes (file ++ b ∷ bs) bodies next
                ∙ ap (whole_body url max_bytes) (append_assoc file (b ∷ bs) (body_of bodies))))
    ]

-- A body that arrives whole with status 200 is stored exactly if it is not larger than MAX_DOWNLOAD_BYTES, however it is cut
-- into chunks; if it is larger, `download` raises and leaves no file.
pub download-body :
    (url : Text) (max_bytes : ℕ) (bodies : List Bytes)
    → download url max_bytes (record { status_code = 200; chunks = map inl bodies })
      ≡ whole_body url max_bytes (body_of bodies)
unfolding download
download-body url max_bytes bodies = write_chunks-body url max_bytes [] bodies (omega arith)

-- A download that has stored a file of some size, or has raised and left none.
abbrev pub IsClean : ℕ → Downloaded → Type 0
IsClean max_bytes d =
    ((content : Bytes) × (d.raised ≡ none)
      × (d.temp_file ≡ some content)
      × (length content ≤ max_bytes))
    ⊎ ((e : Error) × (d.raised ≡ some e) × (d.temp_file ≡ none))

write_chunks-bounded :
    (url : Text) (max_bytes : ℕ) (file : Bytes) (chunks : List (Bytes ⊎ Error))
    → length file ≤ max_bytes
    → IsClean max_bytes (close_file (write_chunks url max_bytes (length file) file chunks))
unfolding write_chunks
write_chunks-bounded url max_bytes file [] small = inl (file, refl, refl, small)
write_chunks-bounded url max_bytes file (inr e ∷ chunks) small = inr (e, refl, refl)
write_chunks-bounded url max_bytes file (inl [] ∷ chunks) small =
    write_chunks-bounded url max_bytes file chunks small
write_chunks-bounded url max_bytes file (inl (b ∷ bs) ∷ chunks) small =
    elim (Bool-cases (ltb max_bytes (length file + length (b ∷ bs)))) [
      | inl over ↦ rw (over, write_chunks, close_file) (inr (too_large url max_bytes, refl, refl))
      | inr fits ↦
          let next : length (file ++ b ∷ bs) ≤ max_bytes =
            ground (arith, length-append file (b ∷ bs)) in
          rw (fits, write_chunks, close_file)
            (subst
              (λ n.
                IsClean max_bytes
                  (close_file (write_chunks url max_bytes n (file ++ b ∷ bs) chunks)))
              (length-append file (b ∷ bs))
              (write_chunks-bounded url max_bytes (file ++ b ∷ bs) chunks next))
    ]

-- Whatever the server answers and wherever the stream breaks off, `download` returns with a file of at most
-- MAX_DOWNLOAD_BYTES, or raises and leaves no file behind.
download-IsClean :
    (url : Text) (max_bytes : ℕ) (response : Response)
    → IsClean max_bytes (download url max_bytes response)
unfolding download
download-IsClean url max_bytes response = elim (Bool-cases (response.status_code == 200)) [
  | inl ok ↦ rw ok (write_chunks-bounded url max_bytes [] response.chunks (omega arith))
  | inr bad ↦ rw bad (inr (bad_status url response.status_code, refl, refl))
]
