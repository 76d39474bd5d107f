-- ===== src/Db.antt =====
-- db.py: a statement with its one reconnect, a transaction, and the split of a migration into statements (Db.Migrations).
-- `D` is what the database holds. A `Session` is a thread's connection with the outcomes of its next calls of the driver, after
-- which all pass; other processes' transactions are not part of it. The migrations are applied already (`ensure_ready` returns).
pub mod Migrations
pub mod Splitting
pub mod Executing
pub mod Committing
pub mod Ordering
pub mod Migrating
pub mod Opening
mod Tests
use markitdown_server.Prelude.{
  ℕ, ◌&&◌, ◌||◌, Bool, true, false, Option, none, some, List, [], ◌∷◌, ◌⊎◌, inl, inr, ◌==◌,
  if◌then◌else◌, Text, codes, drop,
}
use markitdown_server.Action.{Error, CallOutcome, passes, lost, unconfirmed}

-- `committed` is what every connection reads; `pending` is what this one has changed since its last commit.
pub record Session (D : Type 0) : Type 0 where
  pub committed : D
  pub pending : Option D
  pub is_open : Bool
  pub outcomes : List CallOutcome

abbrev pub starts_with : Text → Text → Bool
starts_with [] s = true
starts_with (c ∷ p) [] = false
starts_with (c ∷ p) (d ∷ s) = c == d && starts_with p s

-- `marker in message`
abbrev pub contains : Text → Text → Bool
contains p [] = starts_with p []
contains p (c ∷ s) = starts_with p (c ∷ s) || contains p s

abbrev pub any_in : List Text → Text → Bool
any_in [] s = false
any_in (p ∷ ps) s = contains p s || any_in ps s

abbrev pub stale_connection_markers : List Text
stale_connection_markers =
    codes "stream handle"
    ∷ codes "stream is closed"
    ∷ codes "stream not found"
    ∷ codes "connection reset"
    ∷ codes "connection closed"
    ∷ codes "broken pipe"
    ∷ []

-- `_is_stale_connection`, with `str.lower`
unfoldable pub is_stale_connection : (Text → Text) → Error → Bool
is_stale_connection lower e = any_in stale_connection_markers (lower e.message)

-- `uses_libsql`, with DATABASE_AUTH_TOKEN, empty where it is not set
unfoldable pub uses_libsql : Text → Text → Bool
uses_libsql url [] =
    starts_with (codes "libsql://") url
    || starts_with (codes "http://") url
    || starts_with (codes "https://") url
uses_libsql url (c ∷ token) = true

-- The path or URL that both drivers open: `file:` is cut off.
abbrev pub after_file : Text → Option Text
after_file url = elim (starts_with (codes "file:") url) [ true ↦ some (drop 5 url) | false ↦ none ]

unfoldable pub database_path : Text → Text
database_path url = elim (after_file url) [ none ↦ url | some path ↦ path ]

-- A statement: a read, a write, which opens a transaction, or a definition of a table or an index, which opens none and is
-- committed at once unless one is open.
pub data Sql (D R : Type 0) : Type 0 where
  read : (D → R) → Sql D R
  write : (D → R × D) → Sql D R
  define : (D → R × D) → Sql D R

-- How one round of the loop of `_run` ends: with rows, with an error of `get_connection`, which is outside of the `try`, or with an
-- error inside.
pub data Round (R : Type 0) : Type 0 where
  rows : R → Round R
  not_connected : Error → Round R
  failed : Error → Round R

abbrev pub round_result : {R : Type 0} → Round R → R ⊎ Error
round_result (rows r) = inl r
round_result (not_connected e) = inr e
round_result (failed e) = inr e

-- What a function that returns nothing returns.
abbrev pub Done : Type 0
Done = Unit

module _ {D : Type 0} where
  abbrev pub outcome : Session D → CallOutcome
  outcome s = elim s.outcomes [ [] ↦ passes | o ∷ os ↦ o ]

  -- The session behind a call's outcome.
  abbrev pub after_outcome : Session D → Session D
  after_outcome s = record s { outcomes = elim s.outcomes [ [] ↦ [] | o ∷ os ↦ os ] }

  -- A call of the driver that answers `a`, and raises before or after its effect if its outcome says so.
  abbrev pub driver_call :
      {A : Type 0} → (Session D → A × Session D) → Session D → (A ⊎ Error) × Session D
  driver_call op s = elim (outcome s) [
    | passes ↦ (inl (op (after_outcome s)).0, (op (after_outcome s)).1)
    | lost e ↦ (inr e, after_outcome s)
    | unconfirmed e ↦ (inr e, (op (after_outcome s)).1)
  ]

  -- What a statement on this connection reads.
  abbrev pub view : Session D → D
  view s = elim s.pending [ none ↦ s.committed | some d ↦ d ]

  abbrev pub execute_sql : {R : Type 0} → Sql D R → Session D → R × Session D
  execute_sql (read f) s = (f (view s), s)
  execute_sql (write f) s = ((f (view s)).0, record s { pending = some (f (view s)).1 })
  execute_sql (define f) s = elim s.pending [
    | none ↦ ((f s.committed).0, record s { committed = (f s.committed).1 })
    | some d ↦ ((f d).0, record s { pending = some (f d).1 })
  ]

  -- `conn.execute` with the rows, `conn.commit`, `conn.rollback`
  unfoldable pub conn_execute : {R : Type 0} → Sql D R → Session D → (R ⊎ Error) × Session D
  conn_execute sql s = driver_call (execute_sql sql) s

  unfoldable pub conn_commit : Session D → (Done ⊎ Error) × Session D
  conn_commit s = driver_call (λ v. (tt, record v { committed = view v; pending = none })) s

  unfoldable pub conn_rollback : Session D → (Done ⊎ Error) × Session D
  conn_rollback s = driver_call (λ v. (tt, record v { pending = none })) s

  -- `get_connection`
  unfoldable pub get_connection : Session D → (Done ⊎ Error) × Session D
  get_connection s =
      if s.is_open
      then (inl tt, s)
      else driver_call (λ v. (tt, record v { is_open = true; pending = none })) s

  -- `close_connection`, which lets no error through; what was not committed is gone.
  unfoldable pub close_connection : Session D → Session D
  close_connection s = record s { is_open = false; pending = none }

  -- `if commit: conn.commit()`
  abbrev pub commit_rows : {R : Type 0} → Bool → R → Session D → Round R × Session D
  commit_rows false r s = (rows r, s)
  commit_rows true r s = elim (conn_commit s).0 [
    | inl u ↦ (rows r, (conn_commit s).1)
    | inr e ↦ (failed e, (conn_commit s).1)
  ]

  abbrev pub run_connected : {R : Type 0} → Sql D R → Bool → Session D → Round R × Session D
  run_connected sql commit s = elim (conn_execute sql s).0 [
    | inl r ↦ commit_rows commit r (conn_execute sql s).1
    | inr e ↦ (failed e, (conn_execute sql s).1)
  ]

  unfoldable pub run_round : {R : Type 0} → Sql D R → Bool → Session D → Round R × Session D
  unfolding get_connection conn_execute conn_commit
  run_round sql commit s = elim (get_connection s).0 [
    | inl u ↦ run_connected sql commit (get_connection s).1
    | inr e ↦ (not_connected e, (get_connection s).1)
  ]

  abbrev pub last_round : {R : Type 0} → Round R × Session D → (R ⊎ Error) × Session D
  last_round (r, s) = (round_result r, s)

  module _ (lower : Text → Text) where
    -- The `except` of the first attempt.
    abbrev pub next_attempt :
        {R : Type 0} → Sql D R → Bool → Round R × Session D → (R ⊎ Error) × Session D
    next_attempt sql commit (rows r, s) = (inl r, s)
    next_attempt sql commit (not_connected e, s) = (inr e, s)
    next_attempt sql commit (failed e, s) =
        if is_stale_connection lower e
        then last_round (run_round sql commit (close_connection s))
        else (inr e, s)

    -- `_run`
    unfoldable pub run_sql : {R : Type 0} → Sql D R → Bool → Session D → (R ⊎ Error) × Session D
    unfolding run_round close_connection
    run_sql sql commit s = next_attempt sql commit (run_round sql commit s)

    -- `query`, `execute` and `health`
    abbrev pub query : {R : Type 0} → (D → R) → Session D → (R ⊎ Error) × Session D
    query f = run_sql (read f) false

    abbrev pub execute : {R : Type 0} → (D → R × D) → Session D → (R ⊎ Error) × Session D
    execute f = run_sql (write f) true

    unfoldable pub health : Session D → Bool × Session D
    unfolding run_sql
    health s = let r = query (λ d. tt) s in (elim r.0 [ inl u ↦ true | inr e ↦ false ], r.1)

    -- The block of a transaction: its statements, up to the first that raises.
    unfoldable pub run_block : List (D → D) → Session D → (Done ⊎ Error) × Session D
    unfolding conn_execute
    run_block [] s = (inl tt, s)
    run_block (f ∷ fs) s = elim (conn_execute (write (λ d. (tt, f d))) s).0 [
      | inl u ↦ run_block fs (conn_execute (write (λ d. (tt, f d))) s).1
      | inr e ↦ (inr e, (conn_execute (write (λ d. (tt, f d))) s).1)
    ]

    -- `except Exception:` with the rollback, whose own error is only logged
    abbrev pub roll_back : Error → Session D → (Done ⊎ Error) × Session D
    roll_back e s = (inr e, (conn_rollback s).1)

    abbrev pub commit_block : (Done ⊎ Error) × Session D → (Done ⊎ Error) × Session D
    commit_block (inr e, s) = roll_back e s
    commit_block (inl u, s) = elim (conn_commit s).0 [
      | inl u ↦ (inl tt, (conn_commit s).1)
      | inr e ↦ roll_back e (conn_commit s).1
    ]

    abbrev pub connected_block :
        List (D → D) → (Done ⊎ Error) × Session D → (Done ⊎ Error) × Session D
    connected_block fs (inr e, s) = (inr e, s)
    connected_block fs (inl u, s) = commit_block (run_block fs s)

    abbrev pub pinged_block : List (D → D) → (Done ⊎ Error) × Session D → (Done ⊎ Error) × Session D
    pinged_block fs (inr e, s) = (inr e, s)
    pinged_block fs (inl u, s) = connected_block fs (get_connection s)

    -- `with transaction() as conn:` around a block
    unfoldable pub transaction : List (D → D) → Session D → (Done ⊎ Error) × Session D
    unfolding run_sql run_block conn_rollback
    transaction fs s = pinged_block fs (query (λ d. tt) s)
