-- ===== src/Db/Migrating.antt =====
-- db.py's `migrate`: which statements of the migrations have been applied when it ends.
use mathlib.Core.Path.{subst}
use markitdown_server.Db.Ordering.{
  InNameOrder, IsSqlFile, sql_files, sql_files-InNameOrder, sql_files-given, sql_files-all,
  migration_statements-sql_files,
}
use markitdown_server.Prelude.{
  All, Occurs, concat, ℕ, suc, ◌≡◌, refl, ◌⊎◌, inl, inr, Bool, true, false, none, List, [], ◌∷◌,
  Text, map, take, length, sym,
}
use markitdown_server.Action.{Error, CallOutcome, passes, lost, unconfirmed}
use markitdown_server.Db.{Session, Done, conn_execute, get_connection, conn_commit}
use markitdown_server.Db.Migrations.{
  File, run_definitions, migrate, commit_migrations, connected_migrations, migration_statements,
  sort_files, split_statements,
}
use markitdown_server.Db.Executing.{session}
use markitdown_server.Db.Committing.{Rests, apply_all, at_rest, get_connection-Rests}

module _ {D : Type 0} where
  -- What the statements have done: all of them, or the first ones, and nothing is pending.
  abbrev Defined : List (D → D) → D → (Done ⊎ Error) × Session D → Type 0
  Defined fs c (inl u, s) = (s.committed ≡ apply_all fs c) × (s.pending ≡ none)
  Defined fs c (inr e, s) = (n : ℕ) × (s.committed ≡ apply_all (take n fs) c) × (s.pending ≡ none)

  Defined-cons :
      (f : D → D) (fs : List (D → D)) (c : D) (r : (Done ⊎ Error) × Session D)
      → Defined fs (f c) r
      → Defined (f ∷ fs) c r
  Defined-cons f fs c (inl u, s) h = h
  Defined-cons f fs c (inr e, s) (n, h, fresh) = (suc n, h, fresh)

  run_definitions-Defined :
      (fs : List (D → D)) (c : D) (is_open : Bool) (os : List CallOutcome)
      → Defined fs c (run_definitions fs (session c is_open os))
  unfolding run_definitions conn_execute
  run_definitions-Defined [] c is_open os = (refl, refl)
  run_definitions-Defined (f ∷ fs) c is_open [] =
      Defined-cons f fs c _ (run_definitions-Defined fs (f c) is_open [])
  run_definitions-Defined (f ∷ fs) c is_open (passes ∷ os) =
      Defined-cons f fs c _ (run_definitions-Defined fs (f c) is_open os)
  run_definitions-Defined (f ∷ fs) c is_open (lost e ∷ os) = (0, refl, refl)
  run_definitions-Defined (f ∷ fs) c is_open (unconfirmed e ∷ os) = (1, refl, refl)

  module _ (effect : Text → D → D) where
    -- What `migrate` has done: if it returned, everything, and it will not run again; if it raised, the first statements, and it
    -- will run again.
    abbrev pub Migrated : List (D → D) → D → (Done ⊎ Error) × Bool × Session D → Type 0
    Migrated fs c (inl u, flag, s) = (flag ≡ true) × (s.committed ≡ apply_all fs c)
    Migrated fs c (inr e, flag, s) =
        (flag ≡ false) × (n : ℕ) × (s.committed ≡ apply_all (take n fs) c)

    apply_first : (fs : List (D → D)) (c : D) → apply_all (take (length fs) fs) c ≡ apply_all fs c
    apply_first [] c = refl
    apply_first (f ∷ fs) c = apply_first fs (f c)

    Migrated-commit :
        (fs : List (D → D)) (c : D) (s : Session D)
        → s.committed ≡ apply_all fs c
        → s.pending ≡ none
        → Migrated fs c (commit_migrations effect (inl tt, s))
    unfolding conn_commit
    Migrated-commit fs c s same fresh =
        at_rest (λ v. Migrated fs c (commit_migrations effect (inl tt, v))) (apply_all fs c) s
          (same, fresh) (by_outcomes s.is_open s.outcomes)
      where
        by_outcomes :
            (is_open : Bool) (os : List CallOutcome)
            → Migrated fs c (commit_migrations effect (inl tt, session (apply_all fs c) is_open os))
        by_outcomes is_open [] = (refl, refl)
        by_outcomes is_open (passes ∷ os) = (refl, refl)
        by_outcomes is_open (lost e ∷ os) = (refl, length fs, sym (apply_first fs c))
        by_outcomes is_open (unconfirmed e ∷ os) = (refl, length fs, sym (apply_first fs c))

    Migrated-Defined :
        (fs : List (D → D)) (c : D) (r : (Done ⊎ Error) × Session D)
        → Defined fs c r
        → Migrated fs c (commit_migrations effect r)
    Migrated-Defined fs c (inl u, s) (same, fresh) = Migrated-commit fs c s same fresh
    Migrated-Defined fs c (inr e, s) (n, same, fresh) = (refl, n, same)

    -- The statements that `migrate` executes, as what they do to the data.
    abbrev pub definitions_of : List File → List (D → D)
    definitions_of files = map effect (migration_statements (sort_files files))

    Migrated-connected :
        (files : List File) (c : D) (r : (Done ⊎ Error) × Session D)
        → Rests c r.1
        → Migrated (definitions_of files) c (connected_migrations effect files r)
    Migrated-connected files c (inr e, s) rests = (refl, 0, rests.0)
    Migrated-connected files c (inl u, s) rests =
        let fs = definitions_of files in
        Migrated-Defined fs c (run_definitions fs s) (
          at_rest (λ v. Defined fs c (run_definitions fs v)) c s rests
            (run_definitions-Defined fs c s.is_open s.outcomes))

    -- On a connection with nothing pending, whatever the calls of the driver come to, `migrate` takes those files of the directory whose
    -- names end with `.sql`, in the order of their names. If it returns, it has applied all their statements in order, and will
    -- not run again; if it raises, it has applied the first of them, and will run again.
    pub migrate-Migrated :
        (files : List File) (s : Session D)
        → s.pending ≡ none
        → (ordered : List File) × InNameOrder ordered
          × All (λ f. Occurs f files × IsSqlFile f) ordered
          × All (λ f. Occurs f ordered ⊎ (¬ IsSqlFile f)) files
          × Migrated
              (map effect (concat (map (λ f. split_statements f.1) ordered)))
              s.committed
              (migrate effect files (false, s))
    unfolding migrate
    migrate-Migrated files s fresh = (
      sql_files files,
      sql_files-InNameOrder files,
      sql_files-given files,
      sql_files-all files,
      subst
          (λ statements.
            Migrated (map effect statements) s.committed (migrate effect files (false, s)))
          (migration_statements-sql_files files)
          (Migrated-connected files s.committed (get_connection s)
            (get_connection-Rests (λ t. t) s.committed s (refl, fresh))),
    )
