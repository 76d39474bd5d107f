-- ===== src/Converter.antt =====
-- converter.py: `download` and `convert_file`. `Response` is what requests gives for a URL, and the function that
-- `convert_file` calls is markitdown's conversion with or without the client of OpenAI.
-- The name of the temporary file is left out: there is one file or none.
pub mod Download
mod Tests
use markitdown_server.Prelude.{
  ℕ, ◌+◌, ◌&&◌, Bool, true, false, not, Option, none, some, List, [], ◌∷◌, ◌++◌, ◌⊎◌, inl, inr, ltb,
  ◌==◌, if◌then◌else◌, Text, codes, length,
}
use markitdown_server.Pagination.{is_empty}
use markitdown_server.Storage.{Bytes, decimal}
use markitdown_server.Action.{Error}

-- The status, and what `iter_content` gives, one after another: a chunk, or an exception that it raises.
pub record Response : Type 0 where
  pub status_code : ℕ
  pub chunks : List (Bytes ⊎ Error)

-- How `download` ends, with the temporary file that it leaves behind.
pub record Downloaded : Type 0 where
  pub raised : Option Error
  pub temp_file : Option Bytes

abbrev pub plain_exception : Text → Error
plain_exception s = record { type_name = codes "Exception"; message = s }

abbrev pub bad_status : Text → ℕ → Error
bad_status url status_code = plain_exception (
    codes "Failed to download file from "
    ++ (url ++ (codes ", status code: " ++ decimal status_code)))

abbrev pub too_large : Text → ℕ → Error
too_large url max_bytes = plain_exception (
    codes "File from "
    ++ (url ++ (codes " exceeds the maximum size of " ++ (decimal max_bytes ++ codes " bytes"))))

-- The `for` loop, with the variable `written` and the content of the file so far.
unfoldable pub write_chunks : Text → ℕ → ℕ → Bytes → List (Bytes ⊎ Error) → Bytes ⊎ Error
write_chunks url max_bytes written file [] = inl file
write_chunks url max_bytes written file (inr e ∷ chunks) = inr e
write_chunks url max_bytes written file (inl chunk ∷ chunks) = elim (is_empty chunk) [
  | true ↦ write_chunks url max_bytes written file chunks
  | false ↦ elim (ltb max_bytes (written + length chunk)) [
    | true ↦ inr (too_large url max_bytes)
    | false ↦ write_chunks url max_bytes (written + length chunk) (file ++ chunk) chunks
  ]
]

-- `except Exception: os.remove(temp_path); raise`
abbrev pub close_file : Bytes ⊎ Error → Downloaded
close_file (inl content) = record { raised = none; temp_file = some content }
close_file (inr e) = record { raised = some e; temp_file = none }

unfoldable pub download : Text → ℕ → Response → Downloaded
unfolding write_chunks
download url max_bytes response =
    if not (response.status_code == 200)
    then record { raised = some (bad_status url response.status_code); temp_file = none }
    else close_file (write_chunks url max_bytes 0 [] response.chunks)

-- `get_llm_client` with the value of OPENAI_API_KEY, empty where it is not set: whether it raises.
unfoldable pub get_llm_client : Text → Option Error
get_llm_client api_key =
    if is_empty api_key
    then some (record {
      type_name = codes "RuntimeError";
      message = codes "OPENAI_API_KEY is not set, but LLM-assisted conversion was requested";
    })
    else none

-- `convert_file`; `convert` is markitdown's conversion of a file, with the client or without.
unfoldable pub convert_file : Text → (Bool → Bytes → Text ⊎ Error) → Bytes → Bool → Text ⊎ Error
unfolding get_llm_client
convert_file api_key convert content use_llm =
    if use_llm
    then elim (get_llm_client api_key) [ none ↦ convert true content | some e ↦ inr e ]
    else convert false content
