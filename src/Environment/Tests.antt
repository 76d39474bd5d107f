-- ===== src/Environment/Tests.antt =====
-- Tests of the settings, and the theorems at concrete inputs.
use markitdown_server.Prelude.{
  ◌≡◌, refl, true, false, none, some, [], ◌∷◌, codes, text_eq, if◌then◌else◌, map,
}
use markitdown_server.Prelude.Int.{pos}
use markitdown_server.Storage.Fingerprint.{decimal_ℤ}
use markitdown_server.Environment.{Environment, retry_delays, bool_setting, parse_int, page_size}
use markitdown_server.Environment.Integers.{int_setting-reads}
use markitdown_server.Environment.Delays.{join_commas, retry_delays-join_commas}

abbrev empty : Environment
empty name = none

abbrev delays : Environment
delays name =
    if text_eq name (codes "RETRY_DELAYS")
    then some (join_commas (map decimal_ℤ (pos 5 ∷ pos 30 ∷ [])))
    else none

default_delays : retry_delays empty ≡ some (pos 5 ∷ pos 30 ∷ pos 300 ∷ [])
unfolding retry_delays
default_delays = refl

spaced_int : parse_int (codes " +1_000 ") ≡ some (pos 1000)
unfolding parse_int
spaced_int = refl

no_int : parse_int (codes "1__0") ≡ none
unfolding parse_int
no_int = refl

truthy : bool_setting (λ s. s) (λ name. some (codes " yes ")) (codes "CONVERT_USE_LLM") false ≡ true
unfolding bool_setting text_eq
truthy = refl

int_setting-reads_example : page_size empty ≡ some (pos 5000)
int_setting-reads_example = int_setting-reads empty (codes "PAGE_SIZE") (pos 5000) none refl

delays_set :
    delays (codes "RETRY_DELAYS") ≡ some (join_commas (map decimal_ℤ (pos 5 ∷ pos 30 ∷ [])))
unfolding text_eq
delays_set = refl

retry_delays-join_commas_example : retry_delays delays ≡ some (pos 5 ∷ pos 30 ∷ [])
retry_delays-join_commas_example = retry_delays-join_commas delays (pos 5) (pos 30 ∷ []) delays_set
