-- ===== src/Security/Spec.antt =====
-- The libraries behind utils/security.py and services/auth_service.py, as a parameter. A time is a
-- number of microseconds.
use Prim.Native.String.{◌∷◌}
use trust_aware_self_healing.Shared.{ℕ, ◌+◌, ◌≤◌, ◌≡◌, Bool, true, Option, none, some, String}

-- The header with a token behind the scheme, and the same in lower case.
abbrev pub bearer : String → String
bearer token = "B" ∷ "e" ∷ "a" ∷ "r" ∷ "e" ∷ "r" ∷ " " ∷ token

abbrev pub small_bearer : String → String
small_bearer token = "b" ∷ "e" ∷ "a" ∷ "r" ∷ "e" ∷ "r" ∷ " " ∷ token

-- The claims of a Google ID token that the service reads.
pub record IdInfo : Type 0 where
  pub email : Option String
  pub email_verified : Option Bool
  pub name : Option String
  pub sub : String

-- What `verify_oauth2_token` does on one token: it returns the claims, raises `ValueError`, or raises
-- another exception.
pub data Verified : Type 0 where
  claims : IdInfo → Verified
  invalid failed : Verified

pub record Security : Type 0 where
  -- `str.lower` and `str.strip`
  pub lower : String → String
  pub strip : String → String
  -- `bcrypt.hashpw` of a salt and a password; none where it raises `ValueError`
  pub hashpw : String → String → Option String
  -- `bcrypt.checkpw` of a password and a hash; none where it raises `ValueError`
  pub checkpw : String → String → Option Bool
  pub sha256 : String → String
  -- `jwt.encode` of "sub" and "exp"
  pub encode : String → ℕ → String
  -- `jwt.decode` at a time, and "sub" of its result; none where it raises `JWTError`
  pub decode : ℕ → String → Option (Option String)
  -- `str(ObjectId)`, and `ObjectId(str)`, none where it raises `InvalidId`
  pub show_id : ℕ → String
  pub read_id : String → Option ℕ
  pub verify_oauth2_token : String → Verified
  pub google_client_id : String
  pub jwt_expire_minutes : ℕ

module _ (security : Security) where
  open security use {lower, strip, hashpw, checkpw, encode, decode, show_id, read_id}

  pub record IsSecurity : Type 0 where
    -- the scheme in lower case; a token has no blanks at its ends
    pub lower_bearer : (s : String) → lower (bearer s) ≡ small_bearer (lower s)
    pub strip-encode :
        (subject : String) (exp : ℕ) → strip (encode subject exp) ≡ encode subject exp
    -- a password matches a hash that was made of it
    pub checkpw-hashpw :
        (salt password h : String) → hashpw salt password ≡ some h → checkpw password h ≡ some true
    -- a token that is not yet expired gives back its subject, and one that expired a second ago raises:
    -- "exp" is a whole number of seconds
    pub decode-encode :
        (subject : String) (exp now : ℕ)
        → now ≤ exp
        → decode now (encode subject exp) ≡ some (some subject)
    pub decode_expired :
        (subject : String) (exp now : ℕ)
        → exp + 1000000 ≤ now
        → decode now (encode subject exp) ≡ none
    pub read_id-show_id : (i : ℕ) → read_id (show_id i) ≡ some i
