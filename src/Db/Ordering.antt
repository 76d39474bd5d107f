-- ===== src/Db/Ordering.antt =====
-- db.py's `migrate`: which files of the directory it reads, and in which order.
use markitdown_server.Prelude.{
  ◌≡◌, refl, ap, sym, ◌∙◌, ◌⊎◌, inl, inr, Bool, true, false, List, [], ◌∷◌, ◌++◌, Text, codes, All,
  All-map, All-zip, Occurs, concat, keep_if, map, arith, Bool-cases, text_eq, text_eq_iff,
}
use markitdown_server.Cache.{text_leb}
use markitdown_server.Db.Migrations.{
  File, insert_file, sort_files, is_sql, migration_statements, split_statements,
}

-- Each file stands in front of those whose names are no smaller.
abbrev pub InNameOrder : List File → Type 0
InNameOrder [] = Unit
InNameOrder (f ∷ fs) = All (λ g. text_leb f.0 g.0 ≡ true) fs × InNameOrder fs

-- The name ends with `.sql`.
abbrev pub IsSqlFile : File → Type 0
IsSqlFile f = (stem : Text) × (f.0 ≡ stem ++ codes ".sql")

text_leb_total : (s t : Text) → text_leb s t ≡ false → text_leb t s ≡ true
unfolding text_leb
text_leb_total [] t h = cc
text_leb_total (x ∷ s) [] h = refl
text_leb_total (x ∷ s) (y ∷ t) h = ground (arith, text_leb_total s t)

text_leb_trans : (s t u : Text) → text_leb s t ≡ true → text_leb t u ≡ true → text_leb s u ≡ true
unfolding text_leb
text_leb_trans [] t u h k = refl
text_leb_trans (x ∷ s) [] u h k = cc
text_leb_trans (x ∷ s) (y ∷ t) [] h k = cc
text_leb_trans (x ∷ s) (y ∷ t) (z ∷ u) h k = ground (arith, text_leb_trans s t u)

insert_file-All :
    (P : File → Type 0) (f : File) (fs : List File) → P f → All P fs → All P (insert_file f fs)
insert_file-All P f [] p h = (p, tt)
insert_file-All P f (g ∷ fs) p (q, h) = elim (Bool-cases (text_leb f.0 g.0)) [
  | inl e ↦ rw e (p, (q, h))
  | inr e ↦ rw e (q, insert_file-All P f fs p h)
]

sort_files-All : (P : File → Type 0) (fs : List File) → All P fs → All P (sort_files fs)
sort_files-All P [] h = tt
sort_files-All P (f ∷ fs) (p, h) = insert_file-All P f (sort_files fs) p (sort_files-All P fs h)

insert_file-InNameOrder :
    (f : File) (fs : List File) → InNameOrder fs → InNameOrder (insert_file f fs)
insert_file-InNameOrder f [] h = (tt, tt)
insert_file-InNameOrder f (g ∷ fs) (low, h) = elim (Bool-cases (text_leb f.0 g.0)) [
  | inl e ↦ rw e ((e, All-map fs (λ x k. text_leb_trans f.0 g.0 x.0 e k) low), (low, h))
  | inr e ↦ rw e (
    insert_file-All (λ x. text_leb g.0 x.0 ≡ true) f fs (text_leb_total f.0 g.0 e) low,
    insert_file-InNameOrder f fs h,
  )
]

sort_files-InNameOrder : (fs : List File) → InNameOrder (sort_files fs)
sort_files-InNameOrder [] = tt
sort_files-InNameOrder (f ∷ fs) =
    insert_file-InNameOrder f (sort_files fs) (sort_files-InNameOrder fs)

insert_file-Occurs :
    (f g : File) (fs : List File) → (g ≡ f) ⊎ Occurs g fs → Occurs g (insert_file f fs)
insert_file-Occurs f g [] h = h
insert_file-Occurs f g (x ∷ fs) h = elim (Bool-cases (text_leb f.0 x.0)) [
  | inl e ↦ rw e h
  | inr e ↦ rw e (elim h [
    | inl same ↦ inr (insert_file-Occurs f g fs (inl same))
    | inr (inl same) ↦ inl same
    | inr (inr there) ↦ inr (insert_file-Occurs f g fs (inr there))
  ])
]

sort_files-Occurs : (g : File) (fs : List File) → Occurs g fs → Occurs g (sort_files fs)
sort_files-Occurs g [] h = h
sort_files-Occurs g (f ∷ fs) (inl same) = insert_file-Occurs f g (sort_files fs) (inl same)
sort_files-Occurs g (f ∷ fs) (inr there) =
    insert_file-Occurs f g (sort_files fs) (inr (sort_files-Occurs g fs there))

keep_if-All :
    (P : File → Type 0) (p : File → Bool) (fs : List File) → All P fs → All P (keep_if p fs)
keep_if-All P p [] h = tt
keep_if-All P p (f ∷ fs) (k, h) = elim (Bool-cases (p f)) [
  | inl e ↦ rw e (k, keep_if-All P p fs h)
  | inr e ↦ rw e (keep_if-All P p fs h)
]

kept : (p : File → Bool) (fs : List File) → All (λ f. p f ≡ true) (keep_if p fs)
kept p [] = tt
kept p (f ∷ fs) = elim (Bool-cases (p f)) [ inl e ↦ rw e (e, kept p fs) | inr e ↦ rw e (kept p fs) ]

keep_if-InNameOrder :
    (p : File → Bool) (fs : List File) → InNameOrder fs → InNameOrder (keep_if p fs)
keep_if-InNameOrder p [] h = tt
keep_if-InNameOrder p (f ∷ fs) (low, h) = elim (Bool-cases (p f)) [
  | inl e ↦ rw e (keep_if-All (λ g. text_leb f.0 g.0 ≡ true) p fs low, keep_if-InNameOrder p fs h)
  | inr e ↦ rw e (keep_if-InNameOrder p fs h)
]

keep_if-Occurs :
    (p : File → Bool) (g : File) (fs : List File)
    → Occurs g fs
    → p g ≡ true
    → Occurs g (keep_if p fs)
keep_if-Occurs p g [] h named = h
keep_if-Occurs p g (f ∷ fs) (inl same) named =
    let e : p f ≡ true = ap p (sym same) ∙ named in rw e (inl same)
keep_if-Occurs p g (f ∷ fs) (inr there) named = elim (Bool-cases (p f)) [
  | inl e ↦ rw e (inr (keep_if-Occurs p g fs there named))
  | inr e ↦ rw e (keep_if-Occurs p g fs there named)
]

occurring : (fs : List File) → All (λ f. Occurs f fs) fs
occurring [] = tt
occurring (f ∷ fs) = (inl refl, All-map fs (λ g there. inr there) (occurring fs))

is_sql-stem : (s : Text) → is_sql s ≡ true → (stem : Text) × (s ≡ stem ++ codes ".sql")
is_sql-stem [] h = cc
is_sql-stem (c ∷ s) h = elim (Bool-cases (text_eq (c ∷ s) (codes ".sql"))) [
  | inl e ↦ ([], (text_eq_iff (c ∷ s) (codes ".sql")).0 e)
  | inr e ↦ let (stem, same) = is_sql-stem s (rw e at h) in (c ∷ stem, ap (λ t. c ∷ t) same)
]

stem-is_sql : (stem : Text) → is_sql (stem ++ codes ".sql") ≡ true
stem-is_sql [] = unfold text_eq in refl
stem-is_sql (c ∷ stem) = rw (stem-is_sql stem) (ground arith)

-- The files that `migrate` reads, in its order.
abbrev pub sql_files : List File → List File
sql_files files = keep_if (λ f. is_sql f.0) (sort_files files)

migration_statements-of :
    (fs : List File)
    → migration_statements fs
      ≡ concat (map (λ f. split_statements f.1) (keep_if (λ f. is_sql f.0) fs))
unfolding migration_statements
migration_statements-of [] = refl
migration_statements-of ((name, sql) ∷ fs) = elim (Bool-cases (is_sql name)) [
  | inl e ↦ rw e (ap (λ x. split_statements sql ++ x) (migration_statements-of fs))
  | inr e ↦ rw e (migration_statements-of fs)
]

pub migration_statements-sql_files :
    (files : List File)
    → migration_statements (sort_files files)
      ≡ concat (map (λ f. split_statements f.1) (sql_files files))
migration_statements-sql_files files = migration_statements-of (sort_files files)

pub sql_files-InNameOrder : (files : List File) → InNameOrder (sql_files files)
sql_files-InNameOrder files =
    keep_if-InNameOrder (λ f. is_sql f.0) (sort_files files) (sort_files-InNameOrder files)

pub sql_files-given :
    (files : List File) → All (λ f. Occurs f files × IsSqlFile f) (sql_files files)
sql_files-given files =
    All-zip (sql_files files) (λ f there named. (there, is_sql-stem f.0 named))
      (keep_if-All (λ f. Occurs f files) (λ f. is_sql f.0) (sort_files files)
        (sort_files-All (λ f. Occurs f files) files (occurring files)))
      (kept (λ f. is_sql f.0) (sort_files files))

pub sql_files-all :
    (files : List File) → All (λ f. Occurs f (sql_files files) ⊎ (¬ IsSqlFile f)) files
sql_files-all files = All-map files (λ f there. by_name f there) (occurring files)
  where
    denied : false ≡ true → ⊥
    denied h = cc

    by_name : (f : File) → Occurs f files → Occurs f (sql_files files) ⊎ (¬ IsSqlFile f)
    by_name f there = elim (Bool-cases (is_sql f.0)) [
      | inl named ↦ inl (
          keep_if-Occurs (λ g. is_sql g.0) f (sort_files files) (sort_files-Occurs f files there)
            named)
      | inr other ↦ inr (λ stem. denied (sym other ∙ ap is_sql stem.1 ∙ stem-is_sql stem.0))
    ]
