-- ===== src/Security/Plain.antt =====
-- Libraries that meet the laws of `Security`: a password is its own hash, and a token is the text of
-- its expiry before its subject. Of all letters only B has a small one.
use Prim.Native.String.{[], ◌∷◌}
use Prim.Native.Char.{code}
use mathlib.Core.Option.{some-injective}
use trust_aware_self_healing.Shared.{
  ap, sym, ◌∙◌, ℕ, zero, suc, ◌+◌, ◌*◌, ◌/◌, ◌%◌, ◌≤◌, ◌≡◌, refl, true, false, Option, none, some,
  String, str_eq, eq_refl, leb, ◌==◌, arith, map_option, if◌then◌else◌, inl, inr, Bool-cases,
}
use trust_aware_self_healing.Security.Spec.{Security, IsSecurity, IdInfo, Verified, claims, invalid}

-- A number in binary, its lowest digit first, and the text behind it.
digits : ℕ → ℕ → String → String
digits zero n rest = "." ∷ rest
digits (suc f) zero rest = "." ∷ rest
digits (suc f) (suc m) rest = (if (suc m % 2) == 0 then "0" else "1") ∷ digits f (suc m / 2) rest

abbrev with_digit : ℕ → Option (ℕ × String) → Option (ℕ × String)
with_digit d o = map_option (λ q. (q.0 * 2 + d, q.1)) o

read_digits : String → Option (ℕ × String)
read_digits [] = none
read_digits (c ∷ s) =
    let rest = read_digits s in
    if code c == 46 then some (0, s) else with_digit (if code c == 48 then 0 else 1) rest

small_b : String → String
small_b [] = []
small_b (c ∷ s) = (if code c == 66 then "b" else c) ∷ small_b s

even_double : (m : ℕ) → ((suc m % 2) == 0) ≡ true → suc m / 2 * 2 + 0 ≡ suc m
even_double m h = ground arith

odd_double : (m : ℕ) → ((suc m % 2) == 0) ≡ false → suc m / 2 * 2 + 1 ≡ suc m
odd_double m h = ground arith

read_digits-digits :
    (f n : ℕ) (rest : String) → n ≤ f → read_digits (digits f n rest) ≡ some (n, rest)
unfolding digits read_digits
read_digits-digits zero n rest h = ground arith
read_digits-digits (suc f) zero rest h = refl
read_digits-digits (suc f) (suc m) rest h =
    let below = read_digits-digits f (suc m / 2) rest (omega arith) in
    elim (Bool-cases ((suc m % 2) == 0)) [
      | inl even ↦ rw (even, below) (ap (λ k. some (k, rest)) (even_double m even))
      | inr odd ↦ rw (odd, below) (ap (λ k. some (k, rest)) (odd_double m odd))
    ]

abbrev first_part : Option (ℕ × String) → Option ℕ
first_part o = map_option (λ q. q.0) o

abbrev subject_at : ℕ → Option (ℕ × String) → Option (Option String)
subject_at now none = none
subject_at now (some (exp, subject)) = if leb now exp then some (some subject) else none

-- A Google token is an e-mail, which is verified.
abbrev pub google_claims : String → IdInfo
google_claims token = record {
  email = some token;
  email_verified = some true;
  name = none;
  sub = token;
}

abbrev google_token : String → Verified
google_token token = if str_eq token "" then invalid else claims (google_claims token)

unfoldable pub plain : Security
unfolding small_b digits read_digits
plain = record {
  lower = small_b;
  strip = λ s. s;
  hashpw = λ salt password. some password;
  checkpw = λ password h. some (str_eq password h);
  sha256 = λ s. s;
  encode = λ subject exp. digits exp exp subject;
  decode = λ now token. subject_at now (read_digits token);
  show_id = λ i. digits i i "";
  read_id = λ s. first_part (read_digits s);
  verify_oauth2_token = google_token;
  google_client_id = "client";
  jwt_expire_minutes = 1440;
}

pub plain-IsSecurity : IsSecurity plain
unfolding plain
plain-IsSecurity = record {
  lower_bearer = λ s. refl;
  strip-encode = λ subject exp. refl;
  checkpw-hashpw = λ salt password h e.
      ap some (ap (str_eq password) (sym (some-injective _ _ e)) ∙ eq_refl password);
  decode-encode =
      λ subject exp now h. rw (read_digits-digits exp exp subject (omega arith)) (ground arith);
  decode_expired =
      λ subject exp now h. rw (read_digits-digits exp exp subject (omega arith)) (ground arith);
  read_id-show_id = λ i. rw (read_digits-digits i i "" (omega arith)) refl;
}
