-- ===== src/Storage/Decimal.antt =====
-- The decimal numbers in the keys of storage.py, with and without leading zeros.
use markitdown_server.Prelude.{
  ℕ, zero, suc, ◌+◌, ◌-◌, ◌*◌, ◌/◌, ◌%◌, ◌≤◌, ◌≡◌, refl, ap, sym, ◌∙◌, inl, inr, false, [], ◌∷◌,
  ◌++◌, ◌==◌, Text, arith, length, Bool-cases,
}
use markitdown_server.Storage.{replicate, digits, decimal, decimal05}

-- The number that digits spell behind `n`.
unfoldable pub value : ℕ → Text → ℕ
value n [] = n
value n (c ∷ s) = value (n * 10 + (c - b'0')) s

digits-step :
    (fuel n : ℕ) (acc : Text)
    → (n == 0) ≡ false
    → value 0 (digits (suc fuel) n acc) ≡ value 0 (digits fuel (n / 10) ((b'0' + n % 10) ∷ acc))
digits-step fuel n acc e = unfold digits in rw e

value-cons : (n : ℕ) (acc : Text) → value (n / 10) ((b'0' + n % 10) ∷ acc) ≡ value n acc
value-cons n acc =
    let e : n / 10 * 10 + (b'0' + n % 10 - b'0') ≡ n = omega arith in unfold value in rw e

value-digits : (fuel n : ℕ) (acc : Text) → n ≤ fuel → value 0 (digits fuel n acc) ≡ value n acc
value-digits zero n acc h = unfold digits in let e : n ≡ 0 = omega arith in rw e
value-digits (suc fuel) n acc h = elim (Bool-cases (n == 0)) [
  | inl e ↦ unfold digits in let none_left : n ≡ 0 = ground arith in rw none_left
  | inr e ↦
      digits-step fuel n acc e
      ∙ value-digits fuel (n / 10) ((b'0' + n % 10) ∷ acc) (ground arith)
      ∙ value-cons n acc
]

pub value-decimal : (n : ℕ) → value 0 (decimal n) ≡ n
value-decimal n = elim (Bool-cases (n == 0)) [
  | inl e ↦ unfold decimal value in let none_left : n ≡ 0 = ground arith in rw none_left
  | inr e ↦ unfold decimal in rw e (value-digits n n [] (omega arith) ∙ (unfold value in refl))
]

zero_digit : (s : Text) → value 0 (b'0' ∷ s) ≡ value 0 s
zero_digit s = unfold value in refl

value-zeros : (k : ℕ) (s : Text) → value 0 (replicate k b'0' ++ s) ≡ value 0 s
value-zeros zero s = refl
value-zeros (suc k) s = zero_digit (replicate k b'0' ++ s) ∙ value-zeros k s

pub decimal-injective : (m n : ℕ) → decimal m ≡ decimal n → m ≡ n
decimal-injective m n h = sym (value-decimal m) ∙ ap (λ s. value 0 s) h ∙ value-decimal n

value-decimal05 : (n : ℕ) → value 0 (decimal05 n) ≡ n
value-decimal05 n =
    unfold decimal05 in value-zeros (5 - length (decimal n)) (decimal n) ∙ value-decimal n

pub decimal05-injective : (m n : ℕ) → decimal05 m ≡ decimal05 n → m ≡ n
decimal05-injective m n h = sym (value-decimal05 m) ∙ ap (λ s. value 0 s) h ∙ value-decimal05 n
