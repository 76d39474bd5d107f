-- ===== src/Db/Opening.antt =====
-- db.py: the calls of a driver that open a thread's connection, the rows of a cursor, and the helpers around `query`.
use mathlib.Core.Path.{subst}
use markitdown_server.Prelude.{
  ℕ, ◌*◌, ◌≡◌, ◌≢◌, refl, ap, ◌∙◌, inl, ◌⊎◌, Bool, true, false, Option, none, some, List, [], ◌∷◌,
  ◌++◌, Text, codes, text_eq, text_eq_refl, text_eq_iff, if◌then◌else◌, get_elem?, zero, suc, arith,
  map, All,
}
use markitdown_server.Storage.{decimal}
use markitdown_server.Action.{Error}
use markitdown_server.Db.{Session, Done, uses_libsql, database_path, close_connection}
use markitdown_server.Db.Migrations.{File, migrate}

pub data DriverCall : Type 0 where
  libsql_connect : Text → Option Text → DriverCall
  sqlite_connect : Text → Bool → ℕ → DriverCall
  execute : Text → DriverCall

abbrev pub busy_timeout_seconds : ℕ
busy_timeout_seconds = 30

-- `_connect_libsql`
unfoldable pub connect_libsql : Text → Text → List DriverCall
unfolding database_path
connect_libsql url [] = libsql_connect (database_path url) none ∷ []
connect_libsql url (c ∷ token) = libsql_connect (database_path url) (some (c ∷ token)) ∷ []

abbrev pub busy_timeout : DriverCall
busy_timeout = execute (codes "PRAGMA busy_timeout=" ++ decimal (busy_timeout_seconds * 1000))

-- `_connect_sqlite`
unfoldable pub connect_sqlite : Text → List DriverCall
unfolding database_path
connect_sqlite url =
    if text_eq (database_path url) (codes ":memory:")
    then sqlite_connect (codes "file:markitdown-mem?mode=memory&cache=shared") true
        busy_timeout_seconds
      ∷ busy_timeout
      ∷ []
    else sqlite_connect (database_path url) false busy_timeout_seconds
      ∷ execute (codes "PRAGMA journal_mode=WAL")
      ∷ busy_timeout
      ∷ []

-- What `get_connection` calls on first use.
unfoldable pub open_calls : Text → Text → List DriverCall
unfolding connect_libsql connect_sqlite uses_libsql
open_calls url token = elim (uses_libsql url token) [
  | true ↦ connect_libsql url token
  | false ↦ connect_sqlite url
]

-- A row as a dict: `zip` of the columns and the values, up to the shorter of the two.
abbrev pub zip_row : {V : Type 0} → List Text → List V → List (Text × V)
zip_row [] vs = []
zip_row (c ∷ cs) [] = []
zip_row (c ∷ cs) (v ∷ vs) = (c, v) ∷ zip_row cs vs

-- `_rows_to_dicts`, of a cursor's description and rows
unfoldable pub rows_to_dicts :
    {V : Type 0} → Option (List Text) → List (List V) → List (List (Text × V))
rows_to_dicts none rows = []
rows_to_dicts (some columns) rows = map (zip_row columns) rows

-- `row[name]`: a later column of a name overwrites an earlier one.
unfoldable pub column : {V : Type 0} → Text → List (Text × V) → Option V
column name [] = none
column name ((c, v) ∷ row) =
    let later = column name row in
    elim later [ none ↦ if text_eq c name then some v else none | some w ↦ some w ]

-- `query_one`, of what `query` returns
abbrev pub query_one : {A : Type 0} → List A → Option A
query_one [] = none
query_one (row ∷ rows) = some row

module _ {D : Type 0} (effect : Text → D → D) where
  -- `ensure_ready`, with the value of `_migrated`
  abbrev pub ensure_ready : List File → Bool × Session D → (Done ⊎ Error) × Bool × Session D
  ensure_ready files (true, s) = (inl tt, true, s)
  ensure_ready files (false, s) = migrate effect files (false, s)

-- `reset`
abbrev pub reset : {D : Type 0} → Bool × Session D → Bool × Session D
reset (migrated, s) = (false, close_connection s)

-- The name is none of the columns.
abbrev pub Lacks : Text → List Text → Type 0
Lacks name columns = All (λ c. c ≢ name) columns

abbrev pub AreDistinct : List Text → Type 0
AreDistinct [] = Unit
AreDistinct (c ∷ cs) = Lacks c cs × AreDistinct cs

column-absent :
    {V : Type 0} (name : Text) (columns : List Text) (row : List V)
    → Lacks name columns
    → column name (zip_row columns row) ≡ none
unfolding column
column-absent name [] row h = refl
column-absent name (c ∷ columns) [] h = refl
column-absent name (c ∷ columns) (v ∷ row) (other, rest) =
    let differs : text_eq c name ≡ false = ground (arith, text_eq_iff c name) in
    rw (column-absent name columns row rest, differs) refl

-- Where the columns of a cursor have distinct names, each value of a row stands in its dict under the name of its column.
column-zip_row :
    {V : Type 0} (columns : List Text) (row : List V) (i : ℕ) (name : Text) (v : V)
    → AreDistinct columns
    → get_elem? columns i ≡ some name
    → get_elem? row i ≡ some v
    → column name (zip_row columns row) ≡ some v
unfolding column
column-zip_row [] row i name v distinct at_name at_value = absurd (nothing at_name)
  where
    nothing : ◌≡◌ {A = Option Text} none (some name) → ⊥
    nothing h = cc
column-zip_row {V} (c ∷ columns) [] i name v distinct at_name at_value = absurd (nothing at_value)
  where
    nothing : ◌≡◌ {A = Option V} none (some v) → ⊥
    nothing h = cc
column-zip_row (c ∷ columns) (w ∷ row) zero name v (absent, distinct) at_name at_value =
    let same_name : c ≡ name = cc in
    let same_value : w ≡ v = cc in
    let first : column c (zip_row (c ∷ columns) (w ∷ row)) ≡ some w =
      rw (column-absent c columns row absent, text_eq_refl c) refl in
    subst (λ n. column n (zip_row (c ∷ columns) (w ∷ row)) ≡ some v) same_name
      (first ∙ ap some same_value)
column-zip_row (c ∷ columns) (w ∷ row) (suc i) name v (absent, distinct) at_name at_value =
    rw (column-zip_row columns row i name v distinct at_name at_value) refl

-- Every connection to a file, under either spelling of its path, waits for a lock and has a write-ahead log.
open_calls-file :
    (path : Text)
    → uses_libsql (codes "file:" ++ path) [] ≡ false
    → text_eq path (codes ":memory:") ≡ false
    → open_calls (codes "file:" ++ path) []
      ≡ sqlite_connect path false busy_timeout_seconds
        ∷ execute (codes "PRAGMA journal_mode=WAL")
        ∷ busy_timeout
        ∷ []
unfolding open_calls
open_calls-file path local named = rw (local, named) refl
