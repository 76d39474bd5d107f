-- ===== src/Db/Splitting.antt =====
-- db.py's `_split_statements`: what its statements hold, and that comments do not matter.
use markitdown_server.Prelude.{
  ℕ, ◌≡◌, refl, ap, ◌∙◌, inl, inr, true, false, List, [], ◌∷◌, ◌++◌, ◌==◌, Text, codes, lacks,
  is_space, map, All, All-append, sym, ◌&&◌, Bool-cases, arith,
}
use markitdown_server.Pagination.{is_empty, push}
use markitdown_server.Db.Migrations.{
  is_break, split_lines, before_comment, join_lines, split_on, strip_left, strip_right, strip,
  stripped, split_statements,
}

-- A statement that a driver takes: not empty, and without a semicolon.
abbrev pub IsStatement : Text → Type 0
IsStatement s = (lacks b';' s ≡ true) × (is_empty s ≡ false)

push-lacks :
    (c d : ℕ) (ps : List Text)
    → (d == c) ≡ false
    → All (λ p. lacks c p ≡ true) ps
    → All (λ p. lacks c p ≡ true) (push d ps)
push-lacks c d [] other h = (ground arith, tt)
push-lacks c d (p ∷ ps) other (here, there) = (ground arith, there)

split_on-lacks : (c : ℕ) (s : Text) → All (λ p. lacks c p ≡ true) (split_on c s)
unfolding split_on
split_on-lacks c [] = (refl, tt)
split_on-lacks c (d ∷ s) = elim (Bool-cases (d == c)) [
  | inl e ↦ rw e (refl, split_on-lacks c s)
  | inr e ↦ rw e (push-lacks c d (split_on c s) e (split_on-lacks c s))
]

strip_left-lacks : (c : ℕ) (s : Text) → lacks c s ≡ true → lacks c (strip_left s) ≡ true
unfolding strip_left
strip_left-lacks c [] h = refl
strip_left-lacks c (d ∷ s) h = elim (Bool-cases (is_space d)) [
  | inl e ↦ rw e (strip_left-lacks c s (ground arith))
  | inr e ↦ rw e h
]

strip_right-lacks : (c : ℕ) (s : Text) → lacks c s ≡ true → lacks c (strip_right s) ≡ true
unfolding strip_right
strip_right-lacks c [] h = refl
strip_right-lacks c (d ∷ s) h =
    let later = strip_right-lacks c s (ground arith) in
    elim (Bool-cases (is_empty (strip_right s) && is_space d)) [
      | inl e ↦ rw e refl
      | inr e ↦ rw e (ground arith)
    ]

stripped-IsStatement :
    (ps : List Text) → All (λ p. lacks b';' p ≡ true) ps → All IsStatement (stripped ps)
unfolding stripped strip
stripped-IsStatement [] h = tt
stripped-IsStatement (p ∷ ps) (here, there) = elim (Bool-cases (is_empty (strip p))) [
  | inl e ↦ rw e (stripped-IsStatement ps there)
  | inr e ↦ rw e (
    (strip_right-lacks b';' (strip_left p) (strip_left-lacks b';' p here), e),
    stripped-IsStatement ps there,
  )
]

-- Every statement of a migration is not empty and holds no semicolon.
pub split_statements-IsStatement : (sql : Text) → All IsStatement (split_statements sql)
unfolding split_statements
split_statements-IsStatement sql =
    let code = join_lines (map before_comment (split_lines sql)) in
    stripped-IsStatement (split_on b';' code) (split_on-lacks b';' code)

split_lines-first :
    (l rest : Text)
    → All (λ c. is_break c ≡ false) l
    → split_lines (l ++ 10 ∷ rest) ≡ l ∷ split_lines rest
unfolding split_lines
split_lines-first [] [] h = refl
split_lines-first [] (d ∷ rest) h = refl
split_lines-first (c ∷ []) rest (here, there) =
    let other : (c == 13) ≡ false = ground arith in
    rw (other, split_lines, here) (ap (push c) (split_lines-first [] rest tt))
split_lines-first (c ∷ d ∷ l) rest (here, there) =
    let other : (c == 13) ≡ false = ground arith in
    rw (other, split_lines, here) (ap (push c) (split_lines-first (d ∷ l) rest there))

before_comment-none : (l : Text) → lacks b'-' l ≡ true → before_comment l ≡ l
unfolding before_comment
before_comment-none [] h = refl
before_comment-none (c ∷ l) h =
    let other : (b'-' == c) ≡ false = ground arith in
    rw other (ap (λ t. c ∷ t) (before_comment-none l (ground arith)))

before_comment-cut :
    (l comment : Text) → lacks b'-' l ≡ true → before_comment (l ++ (codes "--" ++ comment)) ≡ l
unfolding before_comment
before_comment-cut [] comment h = refl
before_comment-cut (c ∷ l) comment h =
    let other : (b'-' == c) ≡ false = ground arith in
    rw other (ap (λ t. c ∷ t) (before_comment-cut l comment (ground arith)))

-- A comment at the end of a line changes no statement, whatever stands in it, a semicolon included; the line in front of it is
-- one without a hyphen.
pub split_statements-comment :
    (l comment rest : Text)
    → All (λ c. is_break c ≡ false) l
    → All (λ c. is_break c ≡ false) comment
    → lacks b'-' l ≡ true
    → split_statements ((l ++ (codes "--" ++ comment)) ++ 10 ∷ rest)
      ≡ split_statements (l ++ 10 ∷ rest)
unfolding split_statements
split_statements-comment l comment rest no_break none_in_comment no_hyphen =
    ap (λ lines. stripped (split_on b';' (join_lines lines)))
      (ap (map before_comment) (
          split_lines-first (l ++ (codes "--" ++ comment)) rest
            (All-append (λ c. is_break c ≡ false) l _ no_break (refl, (refl, none_in_comment))))
        ∙ ap (λ t. t ∷ map before_comment (split_lines rest))
            (before_comment-cut l comment no_hyphen ∙ sym (before_comment-none l no_hyphen))
        ∙ sym (ap (map before_comment) (split_lines-first l rest no_break)))
