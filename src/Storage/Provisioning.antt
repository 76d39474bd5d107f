-- ===== src/Storage/Provisioning.antt =====
-- storage.py: the client of a thread, `ensure_bucket` and `health`.
-- The service is the fact whether the bucket exists. What a request comes to is given; a request that is answered is answered by that
-- fact, as S3 documents it: `head_bucket` succeeds where the bucket exists, and `create_bucket` creates it or refuses with
-- one of the two codes where it does.
use markitdown_server.Prelude.{
  ℕ, ◌≡◌, refl, ◌||◌, Bool, true, false, Option, none, some, Text, codes, text_eq, if◌then◌else◌,
}

-- What `boto3.client` is given, beside its fixed retries.
pub record ClientSettings : Type 0 where
  pub endpoint_url : Option Text
  pub region_name : Text
  pub access_key_id : Option Text
  pub secret_access_key : Option Text
  pub max_attempts : ℕ
  pub mode : Text

abbrev pub client_settings : Option Text → Text → Option Text → Option Text → ClientSettings
client_settings endpoint region key secret = record {
  endpoint_url = endpoint;
  region_name = region;
  access_key_id = key;
  secret_access_key = secret;
  max_attempts = 3;
  mode = codes "standard";
}

-- `get_client`: the thread's client, made on first use, and what `_local.client` is then; `reset` forgets it.
abbrev pub get_client :
    {C : Type 0} → (ClientSettings → C) → ClientSettings → Option C → C × Option C
get_client make settings none = (make settings, some (make settings))
get_client make settings (some c) = (c, some c)

abbrev pub reset : {C : Type 0} → Option C → Option C
reset client = none

-- What a request comes to: the service's answer, a ClientError with a code for another reason, or another exception.
pub data Request : Type 0 where
  answered : Request
  refused : Option Text → Request
  broken : Request

pub data Ended : Type 0 where
  ensured : Ended
  raised_client_error : Option Text → Ended
  raised_other : Ended

-- `code in ("BucketAlreadyOwnedByYou", "BucketAlreadyExists")`
abbrev pub is_taken : Option Text → Bool
is_taken none = false
is_taken (some code) =
    text_eq code (codes "BucketAlreadyOwnedByYou") || text_eq code (codes "BucketAlreadyExists")

-- `except ClientError as exc:` of `create_bucket`
abbrev pub on_refused : Option Text → Ended
on_refused code = if is_taken code then ensured else raised_client_error code

-- `create_bucket`, and whether the bucket exists behind it.
abbrev pub create_bucket : Request → Text → Bool → Ended × Bool
create_bucket answered taken_code false = (ensured, true)
create_bucket answered taken_code true = (on_refused (some taken_code), true)
create_bucket (refused code) taken_code existing = (on_refused code, existing)
create_bucket broken taken_code existing = (raised_other, existing)

-- `ensure_bucket`: whether the bucket exists at first, and whether another process creates it before the second request.
unfoldable pub ensure_bucket : Request → Request → Text → Bool → Bool → Ended × Bool
unfolding text_eq
ensure_bucket answered create taken_code true meanwhile = (ensured, true)
ensure_bucket answered create taken_code false meanwhile = create_bucket create taken_code meanwhile
ensure_bucket (refused code) create taken_code existing meanwhile =
    create_bucket create taken_code (existing || meanwhile)
ensure_bucket broken create taken_code existing meanwhile = (raised_other, existing || meanwhile)

-- A refusal for another reason has another code.
abbrev pub IsOther : Request → Type 0
IsOther (refused code) = is_taken code ≡ false
IsOther _ = Unit

created-exists :
    (create : Request) (taken_code : Text) (existing : Bool)
    → IsOther create
    → (create_bucket create taken_code existing).0 ≡ ensured
    → (create_bucket create taken_code existing).1 ≡ true
created-exists answered taken_code false other e = refl
created-exists answered taken_code true other e = refl
created-exists (refused code) taken_code existing other e = absurd (denied (rw other at e))
  where
    denied : raised_client_error code ≡ ensured → ⊥
    denied h = cc
created-exists broken taken_code existing other e = absurd (denied e)
  where
    denied : raised_other ≡ ensured → ⊥
    denied h = cc

-- If `ensure_bucket` returns, the bucket exists, whether it was there, this process created it or another one won the race,
-- where the service uses the two codes for nothing else.
ensure_bucket-exists :
    (head create : Request) (taken_code : Text) (existing meanwhile : Bool)
    → IsOther create
    → (ensure_bucket head create taken_code existing meanwhile).0 ≡ ensured
    → (ensure_bucket head create taken_code existing meanwhile).1 ≡ true
unfolding ensure_bucket
ensure_bucket-exists answered create taken_code true meanwhile other e = refl
ensure_bucket-exists answered create taken_code false meanwhile other e =
    created-exists create taken_code meanwhile other e
ensure_bucket-exists (refused code) create taken_code existing meanwhile other e =
    created-exists create taken_code (existing || meanwhile) other e
ensure_bucket-exists broken create taken_code existing meanwhile other e = absurd (denied e)
  where
    denied : raised_other ≡ ensured → ⊥
    denied h = cc

-- Where the service answers, `ensure_bucket` returns and the bucket exists, whoever creates it.
ensure_bucket-answered :
    (taken_code : Text) (existing meanwhile : Bool)
    → is_taken (some taken_code) ≡ true
    → ensure_bucket answered answered taken_code existing meanwhile ≡ (ensured, true)
unfolding ensure_bucket
ensure_bucket-answered taken_code true meanwhile taken = refl
ensure_bucket-answered taken_code false true taken = rw taken refl
ensure_bucket-answered taken_code false false taken = refl

-- Credentials that may neither look at the bucket nor create it make `ensure_bucket` raise, also where the bucket exists.
ensure_bucket-denied :
    (head_code code : Option Text) (taken_code : Text) (existing meanwhile : Bool)
    → is_taken code ≡ false
    → ensure_bucket (refused head_code) (refused code) taken_code existing meanwhile
      ≡ (raised_client_error code, existing || meanwhile)
unfolding ensure_bucket
ensure_bucket-denied head_code code taken_code existing meanwhile other = rw other refl
