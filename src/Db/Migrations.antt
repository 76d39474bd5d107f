-- ===== src/Db/Migrations.antt =====
-- db.py: `_split_statements` and `migrate`. The files are those of the directory, by name, with their text.
use markitdown_server.Prelude.{
  ℕ, ◌&&◌, ◌||◌, Bool, true, false, List, [], ◌∷◌, ◌++◌, ◌⊎◌, inl, inr, ◌==◌, if◌then◌else◌, Text,
  codes, leb, is_space, map, text_eq,
}
use markitdown_server.Pagination.{is_empty, push}
use markitdown_server.Cache.{text_leb}
use markitdown_server.Action.{Error}
use markitdown_server.Db.{
  Session, Done, get_connection, conn_commit, conn_execute, define, starts_with,
}

-- Where `str.splitlines` ends a line.
abbrev pub is_break : ℕ → Bool
is_break c = (leb 10 c && leb c 13) || (leb 28 c && leb c 30) || c == 133 || c == 8232 || c == 8233

-- `sql.splitlines()`; a carriage return and a newline behind it end one line.
unfoldable pub split_lines : Text → List Text
split_lines [] = []
split_lines (c ∷ []) = if is_break c then [] ∷ [] else (c ∷ []) ∷ []
split_lines (c ∷ d ∷ s) = elim (c == 13 && d == 10) [
  | true ↦ [] ∷ split_lines s
  | false ↦ let rest = split_lines (d ∷ s) in if is_break c then [] ∷ rest else push c rest
]

-- `line.split("--")[0]`
unfoldable pub before_comment : Text → Text
before_comment [] = []
before_comment (c ∷ s) =
    let rest = before_comment s in if starts_with (codes "--") (c ∷ s) then [] else c ∷ rest

-- `"\n".join(lines)`
unfoldable pub join_lines : List Text → Text
join_lines [] = []
join_lines (l ∷ []) = l
join_lines (l ∷ m ∷ ls) = l ++ 10 ∷ join_lines (m ∷ ls)

-- `s.split(";")`
unfoldable pub split_on : ℕ → Text → List Text
split_on c [] = [] ∷ []
split_on c (d ∷ s) = let rest = split_on c s in if d == c then [] ∷ rest else push d rest

-- `s.lstrip()`, `s.rstrip()` and `s.strip()`
unfoldable pub strip_left : Text → Text
strip_left [] = []
strip_left (c ∷ s) = let rest = strip_left s in if is_space c then rest else c ∷ s

unfoldable pub strip_right : Text → Text
strip_right [] = []
strip_right (c ∷ s) =
    let rest = strip_right s in if is_empty rest && is_space c then [] else c ∷ rest

unfoldable pub strip : Text → Text
unfolding strip_left strip_right
strip s = strip_right (strip_left s)

-- `[s.strip() for s in pieces if s.strip()]`
unfoldable pub stripped : List Text → List Text
unfolding strip
stripped [] = []
stripped (p ∷ ps) = let rest = stripped ps in if is_empty (strip p) then rest else strip p ∷ rest

unfoldable pub split_statements : Text → List Text
unfolding split_lines before_comment join_lines split_on stripped
split_statements sql = stripped (split_on b';' (join_lines (map before_comment (split_lines sql))))

abbrev pub File : Type 0
File = Text × Text

-- `sorted(os.listdir(…))`
abbrev pub insert_file : File → List File → List File
insert_file f [] = f ∷ []
insert_file f (g ∷ fs) = if text_leb f.0 g.0 then f ∷ g ∷ fs else g ∷ insert_file f fs

abbrev pub sort_files : List File → List File
sort_files [] = []
sort_files (f ∷ fs) = insert_file f (sort_files fs)

-- `name.endswith(".sql")`
abbrev pub is_sql : Text → Bool
is_sql [] = false
is_sql (c ∷ s) = text_eq (c ∷ s) (codes ".sql") || is_sql s

-- The statements that the loops of `migrate` execute, in order.
unfoldable pub migration_statements : List File → List Text
unfolding split_statements
migration_statements [] = []
migration_statements ((name, sql) ∷ files) =
    let rest = migration_statements files in
    if is_sql name then split_statements sql ++ rest else rest

-- The inner loop of `migrate`, up to the first statement that raises.
unfoldable pub run_definitions :
    {D : Type 0} → List (D → D) → Session D → (Done ⊎ Error) × Session D
unfolding conn_execute
run_definitions [] s = (inl tt, s)
run_definitions (f ∷ fs) s = elim (conn_execute (define (λ d. (tt, f d))) s).0 [
  | inl u ↦ run_definitions fs (conn_execute (define (λ d. (tt, f d))) s).1
  | inr e ↦ (inr e, (conn_execute (define (λ d. (tt, f d))) s).1)
]

module _ {D : Type 0} (effect : Text → D → D) where
  abbrev pub commit_migrations : (Done ⊎ Error) × Session D → (Done ⊎ Error) × Bool × Session D
  commit_migrations (inr e, s) = (inr e, false, s)
  commit_migrations (inl u, s) = elim (conn_commit s).0 [
    | inl u ↦ (inl tt, true, (conn_commit s).1)
    | inr e ↦ (inr e, false, (conn_commit s).1)
  ]

  abbrev pub connected_migrations :
      List File → (Done ⊎ Error) × Session D → (Done ⊎ Error) × Bool × Session D
  connected_migrations files (inr e, s) = (inr e, false, s)
  connected_migrations files (inl u, s) =
      commit_migrations (run_definitions (map effect (migration_statements (sort_files files))) s)

  -- `migrate`, with the value of `_migrated`
  unfoldable pub migrate : List File → Bool × Session D → (Done ⊎ Error) × Bool × Session D
  unfolding get_connection conn_commit run_definitions migration_statements
  migrate files (true, s) = (inl tt, true, s)
  migrate files (false, s) = connected_migrations files (get_connection s)
