-- ===== src/Authentication/Tokens.antt =====
-- utils/security.py, and `get_current_user_dependency` of routes/auth.py up to the user's id.
use Prim.Native.String.{[], ◌∷◌}
use Prim.Native.Char.{code}
use trust_aware_self_healing.Shared.{
  ℕ, ◌+◌, ◌*◌, ◌==◌, Bool, true, false, ◌&&◌, Option, none, some, String, or_else, if◌then◌else◌,
}
use trust_aware_self_healing.Store.Run.{
  Run, Result, ok, err, pure, or_raise, value_error, index_error, unauthorized, ◌>>=◌,
}
use trust_aware_self_healing.Store.Db.{Env, State}
use trust_aware_self_healing.Store.Driver.{now_utc}

abbrev pub minutes : ℕ → ℕ
minutes n = n * 60 * 1000000

-- `str.startswith`
unfoldable pub starts_with : String → String → Bool
starts_with s [] = true
starts_with [] (c ∷ t) = false
starts_with (d ∷ s) (c ∷ t) = (code d == code c) && starts_with s t

-- `authorization.split(" ", 1)[1]`, none where there is no blank.
unfoldable pub after_blank : String → Option String
after_blank [] = none
after_blank (c ∷ s) = let rest = after_blank s in if code c == 32 then some s else rest

module _ (env : Env) where
  open env use {security.{lower, strip, hashpw, checkpw, encode, decode, jwt_expire_minutes}}

  -- `salt` is what `bcrypt.gensalt` draws.
  unfoldable pub hash_password : String → String → Result String
  hash_password salt plain_password = or_raise (hashpw salt plain_password) value_error

  unfoldable pub verify_password : String → String → Bool
  verify_password plain_password hashed_password =
      or_else (checkpw plain_password hashed_password) false

  unfoldable pub create_access_token : String → Option ℕ → Run (State env) String
  create_access_token subject expires_minutes = do
    now ← now_utc env
    pure (encode subject (now + minutes (or_else expires_minutes jwt_expire_minutes)))

  unfoldable pub decode_access_token : String → Run (State env) (Option String)
  decode_access_token token = do now ← now_utc env; pure (or_else (decode now token) none)

  -- The header: absent and empty are alike.
  abbrev pub bearer_token : Option String → Result String
  bearer_token none = err unauthorized
  bearer_token (some []) = err unauthorized
  bearer_token (some (c ∷ s)) =
      if starts_with (lower (c ∷ s)) "bearer "
      then elim (after_blank (c ∷ s)) [ none ↦ err index_error | some rest ↦ ok (strip rest) ]
      else err unauthorized
