-- ===== src/Db/Tests.antt =====
-- Tests of the statements and of their split, and the theorems at concrete inputs.
use markitdown_server.Prelude.{
  ℕ, ◌+◌, ◌*◌, ◌≡◌, ◌++◌, refl, inl, inr, some, true, false, List, [], ◌∷◌, codes, Text, All,
  length, Occurs, concat, map, ◌⊎◌,
}
use markitdown_server.Action.{Error, passes, lost, unconfirmed}
use markitdown_server.Db.{Session, execute, transaction, is_stale_connection}
use markitdown_server.Db.Executing.{
  session, Executed, execute-Executed, execute-twice, execute-leaves_pending,
}
use markitdown_server.Db.Committing.{IsAtomic, transaction-IsAtomic}
use markitdown_server.Db.Migrations.{
  split_statements, File, migrate, split_lines, before_comment, join_lines, split_on, stripped,
  strip, strip_left, strip_right,
}
use markitdown_server.Db.Migrating.{Migrated, migrate-Migrated}
use markitdown_server.Db.Ordering.{InNameOrder, IsSqlFile}
use markitdown_server.Db.Splitting.{IsStatement, split_statements-IsStatement}

abbrev same_text : Text → Text
same_text s = s

abbrev reset_error : Error
reset_error = record {
  type_name = codes "OperationalError";
  message = codes "connection reset by peer";
}

abbrev locked_error : Error
locked_error = record { type_name = codes "OperationalError"; message = codes "database is locked" }

reset_is_stale : is_stale_connection same_text reset_error ≡ true
unfolding is_stale_connection
reset_is_stale = refl

locked_is_not_stale : is_stale_connection same_text locked_error ≡ false
unfolding is_stale_connection
locked_is_not_stale = refl

-- A counter and a write that counts it up and returns it.
abbrev count_up : ℕ → ℕ × ℕ
count_up n = (n, n + 1)

abbrev double : ℕ → ℕ × ℕ
double n = (n, n * 2)

abbrev broken_session : Session ℕ
broken_session = session 3 false (passes ∷ passes ∷ unconfirmed reset_error ∷ [])

execute-Executed_example :
    Executed count_up 3 broken_session.outcomes (execute same_text count_up broken_session)
execute-Executed_example = execute-Executed count_up same_text broken_session refl

execute-twice_example :
    let r =
      execute same_text count_up
        (session 3 true (passes ∷ unconfirmed reset_error ∷ passes ∷ passes ∷ passes ∷ [])) in
    (r.0 ≡ inl 4) × (r.1.committed ≡ 5) × (r.1.outcomes ≡ [])
execute-twice_example = execute-twice count_up same_text 3 reset_error [] reset_is_stale

execute-leaves_pending_example :
    let first =
      execute same_text count_up
        (session 3 true (passes ∷ lost locked_error ∷ passes ∷ passes ∷ [])) in
    (first.0 ≡ inr locked_error)
    × (first.1.committed ≡ 3)
    × (first.1.pending ≡ some 4)
    × ((execute same_text double first.1).1.committed ≡ 8)
execute-leaves_pending_example =
    execute-leaves_pending same_text count_up double 3 locked_error [] locked_is_not_stale

abbrev two_steps : List (ℕ → ℕ)
two_steps = (λ n. n + 1) ∷ (λ n. n * 2) ∷ []

-- The commit is lost, and the rollback passes.
abbrev lost_commit : Session ℕ
lost_commit = session 3 true (passes ∷ passes ∷ passes ∷ lost reset_error ∷ [])

transaction-IsAtomic_example :
    IsAtomic same_text 3 8 1 (transaction same_text two_steps lost_commit)
transaction-IsAtomic_example = transaction-IsAtomic same_text two_steps lost_commit refl

-- A directory that lists a second migration first, and a file that is none.
abbrev directory : List File
directory =
    (codes "002.sql", codes "c")
    ∷ (codes "README.md", codes "d")
    ∷ (codes "001.sql", codes "a;b")
    ∷ []

abbrev effect : Text → ℕ → ℕ
effect s n = n + length s

migrate-Migrated_example :
    (ordered : List File) × InNameOrder ordered
    × All (λ f. Occurs f directory × IsSqlFile f) ordered
    × All (λ f. Occurs f ordered ⊎ (¬ IsSqlFile f)) directory
    × Migrated effect
        (map effect (concat (map (λ f. split_statements f.1) ordered)))
        3
        (migrate effect directory (false, session 3 false []))
migrate-Migrated_example = migrate-Migrated effect directory (session 3 false []) refl

split_two :
    split_statements (codes "a -- x;" ++ 10 ∷ codes "b; c ;")
    ≡ (codes "a " ++ 10 ∷ codes "b") ∷ codes "c" ∷ []
unfolding split_statements split_lines before_comment join_lines split_on stripped strip strip_left
    strip_right
split_two = refl

split_statements-IsStatement_example : All IsStatement (split_statements (codes " a; ;b"))
split_statements-IsStatement_example = split_statements-IsStatement (codes " a; ;b")
