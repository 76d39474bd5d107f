-- ===== src/Environment/Integers.antt =====
-- config.py's `_int` reads what `str` writes.
use markitdown_server.Prelude.{
  ℕ, zero, suc, ◌+◌, ◌-◌, ◌*◌, ◌/◌, ◌%◌, ◌≡◌, refl, ap, sym, ◌∙◌, inl, inr, true, false, none, some,
  [], ◌∷◌, ◌==◌, Text, arith, All, Bool-cases, is_space, Option,
}
use markitdown_server.Prelude.Int.{ℤ, pos, negsuc}
use markitdown_server.Storage.{digits, decimal}
use markitdown_server.Storage.Decimal.{value, value-decimal}
use markitdown_server.Storage.Fingerprint.{decimal_ℤ}
use markitdown_server.Db.Migrations.{strip, strip_left, strip_right}
use markitdown_server.Environment.{
  get, Environment, is_digit, int_digits, int_signed, parse_int, int_setting,
}

abbrev pub AreDigits : Text → Type 0
AreDigits s = All (λ c. is_digit c ≡ true) s

digits-AreDigits : (fuel n : ℕ) (acc : Text) → AreDigits acc → AreDigits (digits fuel n acc)
unfolding digits
digits-AreDigits zero n acc h = h
digits-AreDigits (suc fuel) n acc h = elim (Bool-cases (n == 0)) [
  | inl e ↦ rw e h
  | inr e ↦ rw e (digits-AreDigits fuel (n / 10) ((b'0' + n % 10) ∷ acc) (ground arith, h))
]

pub decimal-AreDigits : (n : ℕ) → AreDigits (decimal n)
unfolding decimal
decimal-AreDigits n = elim (Bool-cases (n == 0)) [
  | inl e ↦ rw e (refl, tt)
  | inr e ↦ rw e (digits-AreDigits n n [] tt)
]

int_digits-value : (n : ℕ) (s : Text) → AreDigits s → int_digits true n s ≡ some (value n s)
unfolding int_digits value
int_digits-value n [] h = refl
int_digits-value n (c ∷ s) (here, there) = rw here (int_digits-value (n * 10 + (c - b'0')) s there)

int_digits-first : (s : Text) → AreDigits s → (s ≡ [] → ⊥) → int_digits false 0 s ≡ some (value 0 s)
unfolding int_digits value
int_digits-first [] h nonempty = absurd (nonempty refl)
int_digits-first (c ∷ s) (here, there) nonempty =
    rw here (int_digits-value (0 * 10 + (c - b'0')) s there)

strip_right-digits : (s : Text) → AreDigits s → strip_right s ≡ s
unfolding strip_right
strip_right-digits [] h = refl
strip_right-digits (c ∷ s) (here, there) = ground (arith, strip_right-digits s there)

strip-digits : (c : ℕ) (s : Text) → is_digit c ≡ true → AreDigits s → strip (c ∷ s) ≡ c ∷ s
unfolding strip strip_left
strip-digits c s here there =
    let visible : is_space c ≡ false = ground arith in
    rw (visible, strip_left) (strip_right-digits (c ∷ s) (here, there))

strip-minus : (s : Text) → AreDigits s → strip (b'-' ∷ s) ≡ b'-' ∷ s
unfolding strip strip_left strip_right
strip-minus s h = ground (arith, strip_right-digits s h)

decimal-nonempty : (n : ℕ) → decimal n ≡ [] → ⊥
decimal-nonempty n e =
    let none_left : n ≡ 0 =
      sym (value-decimal n) ∙ ap (λ s. value 0 s) e ∙ (unfold value in refl) in
    no_digit (ap decimal (sym none_left) ∙ e)
  where
    no_digit : decimal 0 ≡ [] → ⊥
    no_digit h = unfold decimal in cc

parse_int-digits : (s : Text) → AreDigits s → (s ≡ [] → ⊥) → parse_int s ≡ some (pos (value 0 s))
unfolding parse_int int_signed
parse_int-digits [] h nonempty = absurd (nonempty refl)
parse_int-digits (c ∷ s) h nonempty =
    let minus : (c == b'-') ≡ false = ground arith in
    let plus : (c == b'+') ≡ false = ground arith in
    rw (strip-digits c s h.0 h.1, minus, plus, int_digits-first (c ∷ s) h nonempty) refl

-- `int` reads what `str` writes.
pub parse_int-decimal_ℤ : (z : ℤ) → parse_int (decimal_ℤ z) ≡ some z
unfolding parse_int int_signed
parse_int-decimal_ℤ (pos n) =
    parse_int-digits (decimal n) (decimal-AreDigits n) (decimal-nonempty n)
    ∙ ap (λ m. some (pos m)) (value-decimal n)
parse_int-decimal_ℤ (negsuc n) =
    rw
      (
        strip-minus (decimal (suc n)) (decimal-AreDigits (suc n)),
        int_digits-first (decimal (suc n)) (decimal-AreDigits (suc n)) (decimal-nonempty (suc n)),
        value-decimal (suc n),
      )
      (ground arith)

-- A setting that is not set is its default, and one that is set to what `str` writes of an integer is that integer.
pub int_setting-reads :
    (environ : Environment) (name : Text) (default : ℤ) (set_to : Option ℤ)
    → environ name ≡ elim set_to [ none ↦ none | some z ↦ some (decimal_ℤ z) ]
    → int_setting environ name default ≡ some (elim set_to [ none ↦ default | some z ↦ z ])
unfolding int_setting
int_setting-reads environ name default none e = rw (e, get) (parse_int-decimal_ℤ default)
int_setting-reads environ name default (some z) e = rw (e, get) (parse_int-decimal_ℤ z)
