-- ===== src/Environment/Delays.antt =====
-- config.py's RETRY_DELAYS reads a list that is joined with commas.
use markitdown_server.Prelude.{
  ℕ, suc, inl, ◌≡◌, refl, ap, ◌∙◌, true, false, Option, none, some, List, [], ◌∷◌, ◌++◌, ◌==◌, Text,
  codes, map, arith, All, lacks,
}
use markitdown_server.Prelude.Int.{ℤ, pos, negsuc}
use markitdown_server.Pagination.{is_empty}
use markitdown_server.Storage.{decimal}
use markitdown_server.Storage.Fingerprint.{decimal_ℤ}
use markitdown_server.Storage.Fingerprint.Parts.{decimal-lacks}
use markitdown_server.Db.Migrations.{split_on, strip}
use markitdown_server.Environment.{
  Environment, get, int_signed, parse_int, parse_ints, cons_int, retry_delays,
}
use markitdown_server.Environment.Integers.{parse_int-decimal_ℤ}

-- `",".join(pieces)`
abbrev pub join_commas : List Text → Text
join_commas [] = []
join_commas (p ∷ []) = p
join_commas (p ∷ q ∷ ps) = p ++ b',' ∷ join_commas (q ∷ ps)

split_on-lacks : (c : ℕ) (s : Text) → lacks c s ≡ true → split_on c s ≡ s ∷ []
unfolding split_on
split_on-lacks c [] h = refl
split_on-lacks c (d ∷ s) h =
    let other : (d == c) ≡ false = ground arith in
    rw (other, split_on-lacks c s (ground arith)) refl

split_on-append :
    (c : ℕ) (s t : Text) → lacks c s ≡ true → split_on c (s ++ c ∷ t) ≡ s ∷ split_on c t
unfolding split_on
split_on-append c [] t h = let same : (c == c) ≡ true = ground arith in rw same refl
split_on-append c (d ∷ s) t h =
    let other : (d == c) ≡ false = ground arith in
    rw (other, split_on-append c s t (ground arith)) refl

split_on-join_commas :
    (p : Text) (ps : List Text)
    → All (λ q. lacks b',' q ≡ true) (p ∷ ps)
    → split_on b',' (join_commas (p ∷ ps)) ≡ p ∷ ps
split_on-join_commas p [] (h, tt) = split_on-lacks b',' p h
split_on-join_commas p (q ∷ ps) (h, rest) =
    split_on-append b',' p (join_commas (q ∷ ps)) h
    ∙ ap (λ qs. p ∷ qs) (split_on-join_commas q ps rest)

decimal_ℤ-lacks : (z : ℤ) → lacks b',' (decimal_ℤ z) ≡ true
decimal_ℤ-lacks (pos n) = decimal-lacks b',' n (inl (omega arith))
decimal_ℤ-lacks (negsuc n) =
    let there : lacks b',' (decimal (suc n)) ≡ true =
      decimal-lacks b',' (suc n) (inl (omega arith)) in
    ground arith

decimals_lack : (zs : List ℤ) → All (λ q. lacks b',' q ≡ true) (map decimal_ℤ zs)
decimals_lack [] = tt
decimals_lack (z ∷ zs) = (decimal_ℤ-lacks z, decimals_lack zs)

int_signed-nonempty : (s : Text) (z : ℤ) → int_signed s ≡ some z → is_empty s ≡ false
unfolding int_signed
int_signed-nonempty [] z e = absurd (nothing e)
  where
    nothing : ◌≡◌ {A = Option ℤ} none (some z) → ⊥
    nothing h = cc
int_signed-nonempty (c ∷ s) z e = refl

decimal_ℤ-nonempty : (z : ℤ) → is_empty (strip (decimal_ℤ z)) ≡ false
decimal_ℤ-nonempty z =
    int_signed-nonempty (strip (decimal_ℤ z)) z (unfold parse_int in parse_int-decimal_ℤ z)

parse_ints-map : (zs : List ℤ) → parse_ints (map decimal_ℤ zs) ≡ some zs
unfolding parse_ints
parse_ints-map [] = refl
parse_ints-map (z ∷ zs) =
    rw (decimal_ℤ-nonempty z, parse_int-decimal_ℤ z, parse_ints-map zs, cons_int) refl

-- Any list of delays that is not empty, joined with commas, is read back from RETRY_DELAYS.
pub retry_delays-join_commas :
    (environ : Environment) (z : ℤ) (zs : List ℤ)
    → environ (codes "RETRY_DELAYS") ≡ some (join_commas (map decimal_ℤ (z ∷ zs)))
    → retry_delays environ ≡ some (z ∷ zs)
unfolding retry_delays
retry_delays-join_commas environ z zs e =
    rw (e, get)
      (ap parse_ints
          (split_on-join_commas (decimal_ℤ z) (map decimal_ℤ zs) (decimals_lack (z ∷ zs)))
        ∙ parse_ints-map (z ∷ zs))
