-- ===== src/Sql.antt =====
-- The statements of jobstore.py read and write tables through these: a table is the list of its rows
-- in insertion order.
use markitdown_server.Prelude.{
  ℕ, suc, ◌≡◌, refl, ap, Bool, Option, none, some, List, [], ◌∷◌, arith, if◌then◌else◌, count_if,
  leb, length, true, ◌++◌, ◌≤◌, ◌+◌,
}

module _ {ℓ} {A : Type ℓ} where
  -- `UPDATE … SET f WHERE p`
  abbrev pub update_where : (A → Bool) → (A → A) → List A → List A
  update_where p f [] = []
  update_where p f (x ∷ xs) = (if p x then f x else x) ∷ update_where p f xs

  -- The first row of `SELECT … WHERE p`.
  abbrev pub select_first : (A → Bool) → List A → Option A
  select_first p [] = none
  select_first p (x ∷ xs) = if p x then some x else select_first p xs

  -- The first row that an `UPDATE … WHERE p RETURNING` returns, as it stands after the update.
  abbrev pub returning_first : (A → Bool) → (A → A) → List A → Option A
  returning_first p f [] = none
  returning_first p f (x ∷ xs) = if p x then some (f x) else returning_first p f xs

  pub length-update_where :
      (p : A → Bool) (f : A → A) (xs : List A) → length (update_where p f xs) ≡ length xs
  length-update_where p f [] = refl
  length-update_where p f (x ∷ xs) = ap suc (length-update_where p f xs)

  -- An update that keeps a test, on the rows that it changes, keeps how many rows pass it.
  pub count_if-update_where :
      (q p : A → Bool) (f : A → A) (xs : List A)
      → ((x : A) → p x ≡ true → q (f x) ≡ q x)
      → count_if q (update_where p f xs) ≡ count_if q xs
  count_if-update_where q p f [] h = refl
  count_if-update_where q p f (x ∷ xs) h = ground (arith, h x, count_if-update_where q p f xs h)

  -- A row that is selected by a test which the update keeps.
  pub select_first-update_where :
      (q p : A → Bool) (f : A → A) (xs : List A)
      → ((x : A) → q (f x) ≡ q x)
      → select_first q (update_where p f xs)
        ≡ elim (select_first q xs) [ none ↦ none | some x ↦ some (if p x then f x else x) ]
  select_first-update_where q p f [] h = refl
  select_first-update_where q p f (x ∷ xs) h =
      ground (arith, h x, select_first-update_where q p f xs h)

-- `ORDER BY`, on numbers.
abbrev pub insert_sorted : ℕ → List ℕ → List ℕ
insert_sorted n [] = n ∷ []
insert_sorted n (x ∷ xs) = if leb n x then n ∷ x ∷ xs else x ∷ insert_sorted n xs

abbrev pub order_by : List ℕ → List ℕ
order_by [] = []
order_by (x ∷ xs) = insert_sorted x (order_by xs)

module _ {ℓ} {A : Type ℓ} (p q : A → Bool) (f : A → A)
    (sub : (x : A) → p x ≡ true → q x ≡ true) where
  returning_first-none : (xs : List A) → count_if q xs ≡ 0 → returning_first p f xs ≡ none
  returning_first-none [] h = refl
  returning_first-none (x ∷ xs) h = ground (arith, sub x, returning_first-none xs)

  -- Where at most one row passes `q`, the row that an update of the rows `p` among them returns.
  pub returning_first-select_first :
      (xs : List A)
      → count_if q xs ≤ 1
      → returning_first p f xs
        ≡ elim (select_first q xs) [ none ↦ none | some x ↦ if p x then some (f x) else none ]
  returning_first-select_first [] h = refl
  returning_first-select_first (x ∷ xs) h =
      ground (arith, sub x, returning_first-none xs, returning_first-select_first xs)

module _ {ℓ} {A : Type ℓ} (q : A → Bool) where
  pub select_first-passes : (xs : List A) (x : A) → select_first q xs ≡ some x → q x ≡ true
  select_first-passes [] x h = cc
  select_first-passes (y ∷ xs) x h = ground (arith, select_first-passes xs x)

  -- A test that asks for more passes fewer rows.
  pub count_if_mono :
      (p : A → Bool) (xs : List A)
      → ((x : A) → p x ≡ true → q x ≡ true)
      → count_if p xs ≤ count_if q xs
  count_if_mono p [] h = omega arith
  count_if_mono p (x ∷ xs) h = ground (arith, h x, count_if_mono p xs h)

  pub count_if-append : (xs ys : List A) → count_if q (xs ++ ys) ≡ count_if q xs + count_if q ys
  count_if-append [] ys = omega arith
  count_if-append (x ∷ xs) ys = ground (arith, count_if-append xs ys)

  pub select_first-append :
      (xs ys : List A)
      → select_first q (xs ++ ys)
        ≡ elim (select_first q xs) [ none ↦ select_first q ys | some x ↦ some x ]
  select_first-append [] ys = refl
  select_first-append (x ∷ xs) ys = ground (arith, select_first-append xs ys)
