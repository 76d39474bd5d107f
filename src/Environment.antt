-- ===== src/Environment.antt =====
-- config.py: the settings that are read from the environment.
-- Where `int` raises its ValueError, and with it the import of config.py, the setting is `none`.
-- `int` is given for ASCII digits; the settings that are floats (SYNC_POLL_INTERVAL, RABBITMQ_CONSUME_TIMEOUT) are left out.
pub mod Integers
pub mod Delays
mod Tests
use markitdown_server.Prelude.{
  ℕ, ◌+◌, ◌-◌, ◌*◌, ◌&&◌, ◌||◌, Bool, true, false, Option, none, some, List, [], ◌∷◌, leb, ◌==◌,
  if◌then◌else◌, Text, codes, text_eq,
}
use markitdown_server.Prelude.Int.{ℤ, pos, ◌-ℤ◌}
use markitdown_server.Pagination.{is_empty}
use markitdown_server.Storage.Fingerprint.{decimal_ℤ}
use markitdown_server.Db.Migrations.{split_on, strip}

-- `os.environ`
abbrev pub Environment : Type 0
Environment = Text → Option Text

-- `os.environ.get(name, default)`
abbrev pub get : Environment → Text → Text → Text
get environ name default = elim (environ name) [ none ↦ default | some s ↦ s ]

abbrev pub is_digit : ℕ → Bool
is_digit c = leb b'0' c && leb c b'9'

-- The digits of an integer behind `n`; an underscore stands between two digits only, and `prev` says whether one was just read.
unfoldable pub int_digits : Bool → ℕ → Text → Option ℕ
int_digits true n [] = some n
int_digits false n [] = none
int_digits prev n (c ∷ s) =
    let digit = int_digits true (n * 10 + (c - b'0')) s in
    let underscore = int_digits false n s in
    if is_digit c then digit else if c == b'_' && prev then underscore else none

abbrev pub signed : (ℕ → ℤ) → Option ℕ → Option ℤ
signed f none = none
signed f (some n) = some (f n)

-- The sign and the digits of an integer.
unfoldable pub int_signed : Text → Option ℤ
unfolding int_digits
int_signed [] = none
int_signed (c ∷ s) =
    if c == b'-'
    then signed (λ n. pos 0 -ℤ pos n) (int_digits false 0 s)
    else signed pos (int_digits false 0 (if c == b'+' then s else c ∷ s))

-- `int(s)`
unfoldable pub parse_int : Text → Option ℤ
unfolding int_signed strip
parse_int s = int_signed (strip s)

-- `_int`
unfoldable pub int_setting : Environment → Text → ℤ → Option ℤ
unfolding parse_int
int_setting environ name default = parse_int (get environ name (decimal_ℤ default))

abbrev pub any_equal : List Text → Text → Bool
any_equal [] s = false
any_equal (t ∷ ts) s = text_eq s t || any_equal ts s

abbrev pub truths : List Text
truths = codes "1" ∷ codes "true" ∷ codes "yes" ∷ codes "on" ∷ []

-- `_bool`, with `str.lower`
unfoldable pub bool_setting : (Text → Text) → Environment → Text → Bool → Bool
unfolding strip
bool_setting lower environ name default = elim (environ name) [
  | none ↦ default
  | some raw ↦ any_equal truths (lower (strip raw))
]

-- The first `int` that raises ends the comprehension.
abbrev pub cons_int : Option ℤ → Option (List ℤ) → Option (List ℤ)
cons_int none rest = none
cons_int (some n) none = none
cons_int (some n) (some ns) = some (n ∷ ns)

-- `[int(d) for d in pieces if d.strip()]`
unfoldable pub parse_ints : List Text → Option (List ℤ)
unfolding parse_int strip
parse_ints [] = some []
parse_ints (d ∷ ds) =
    let rest = parse_ints ds in if is_empty (strip d) then rest else cons_int (parse_int d) rest

-- `RETRY_DELAYS`
unfoldable pub retry_delays : Environment → Option (List ℤ)
unfolding split_on parse_ints
retry_delays environ =
    parse_ints (split_on b',' (get environ (codes "RETRY_DELAYS") (codes "5,30,300")))

-- `os.environ.get("S3_ENDPOINT") or None`
unfoldable pub s3_endpoint : Environment → Option Text
s3_endpoint environ = elim (environ (codes "S3_ENDPOINT")) [
  | none ↦ none
  | some s ↦ if is_empty s then none else some s
]

module _ (environ : Environment) where
  abbrev pub doc_ttl_days : Option ℤ
  doc_ttl_days = int_setting environ (codes "DOC_TTL_DAYS") (pos 7)

  abbrev pub pages_per_chunk : Option ℤ
  pages_per_chunk = int_setting environ (codes "PDF_PAGES_PER_CHUNK") (pos 20)

  abbrev pub min_pages_for_parallel : Option ℤ
  min_pages_for_parallel = int_setting environ (codes "PDF_MIN_PAGES_FOR_PARALLEL") (pos 40)

  abbrev pub page_size : Option ℤ
  page_size = int_setting environ (codes "PAGE_SIZE") (pos 5000)

  abbrev pub max_download_bytes : Option ℤ
  max_download_bytes = int_setting environ (codes "MAX_DOWNLOAD_BYTES") (pos (100 * 1024 * 1024))

  abbrev pub rabbitmq_prefetch : Option ℤ
  rabbitmq_prefetch = int_setting environ (codes "RABBITMQ_PREFETCH") (pos 1)

  abbrev pub max_attempts : Option ℤ
  max_attempts = int_setting environ (codes "MAX_ATTEMPTS") (pos 3)

  abbrev pub source_cache_max_bytes : Option ℤ
  source_cache_max_bytes =
      int_setting environ (codes "SOURCE_CACHE_MAX_BYTES") (pos (2 * 1024 * 1024 * 1024))

  abbrev pub database_url : Text
  database_url = get environ (codes "TURSO_DATABASE_URL") (codes "file:markitdown.db")

  abbrev pub rabbitmq_exchange : Text
  rabbitmq_exchange = get environ (codes "RABBITMQ_EXCHANGE") (codes "markitdown")

  abbrev pub rabbitmq_queue : Text
  rabbitmq_queue = get environ (codes "RABBITMQ_QUEUE") (codes "markitdown.chunks")
