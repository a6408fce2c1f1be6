-- ===== src/Tests/TokenRuns.antt =====
-- Runs of the capability tokens, and the theorems applied to them.
use Prim.Native.Char.{Char}
use Prim.Native.String.append
use axignal.Common.{
  ◌≡◌, refl, sym, ap, ◌∙◌, ℕ, ◌+◌, ◌*◌, ◌≤◌, ◌<◌, String, Option, none, some, Result, ok, err,
  arith, eq_iff, Bool-cases, inl, inr, Option-cases, ok_injective, ◌==◌, if◌then◌else◌, ltb, leb,
  ◌⧺◌,
}
use axignal.Common.Json.{Json, Fields, end, text, number, object, obj}
use axignal.Outbox.Payload.{lookup}
use axignal.Capability.{
  TokenError, TokenLibrary, CapabilityGrant, malformed_payload, not_yet_valid, expired, clock_skew,
  max_ttl, second, split_point, item, grant_payload, grant_of, whole_seconds,
  build_capability_token, verify_capability_token,
}
use axignal.Capability.Accepted.{SignedWith, verify-IsInForce}
use axignal.Capability.Built.{TokenLaws, ReadsBack, verify-build}

-- An encoding without points: each character becomes two.
encoded : String → String
encoded String.[] = ""
encoded (String.◌∷◌ c s) =
    let rest = encoded s in
    if String.◌∷◌ c "" == "."
    then String.◌∷◌ "a" (String.◌∷◌ "b" rest)
    else String.◌∷◌ "x" (String.◌∷◌ c rest)

abbrev front : String → Option String → Option String
front s none = none
front s (some t) = some (s ⧺ t)

decoded : String → Option String
decoded String.[] = some ""
decoded (String.◌∷◌ p String.[]) = none
decoded (String.◌∷◌ p (String.◌∷◌ q s)) =
    let rest = decoded s in
    if String.◌∷◌ p "" == "a" then front "." rest else front (String.◌∷◌ q "") rest

encoded-no_point : (s : String) → split_point (encoded s) ≡ none
unfolding encoded split_point
encoded-no_point String.[] = refl
encoded-no_point (String.◌∷◌ c s) = elim (Bool-cases (String.◌∷◌ c "" == ".")) [
  | inl e ↦ rw (e, encoded-no_point s) refl
  | inr e ↦ rw (e, e, encoded-no_point s) refl
]

one-append : (c : Char) (s : String) → String.◌∷◌ c "" ⧺ s ≡ String.◌∷◌ c s
one-append c s = append.cons c "" s ∙ ap (λ t. String.◌∷◌ c t) (append.nil s)

decoded-encoded : (s : String) → decoded (encoded s) ≡ some s
unfolding encoded decoded
decoded-encoded String.[] = refl
decoded-encoded (String.◌∷◌ c s) = elim (Bool-cases (String.◌∷◌ c "" == ".")) [
  | inl e ↦
      let point : String.◌∷◌ c "" ≡ "." = ground (arith, eq_iff (String.◌∷◌ c "") ".") in
      rw (e, decoded-encoded s) (ap some (ap (λ t. t ⧺ s) (sym point) ∙ one-append c s))
  | inr e ↦ rw (e, decoded-encoded s) (ap some (one-append c s))
]

abbrev date_of : Json → Result TokenError ℕ
date_of (number n) = ok n
date_of j = err malformed_payload

abbrev uuid_of_text : Json → Result TokenError String
uuid_of_text (text s) = ok s
uuid_of_text j = err malformed_payload

-- A library whose `json.loads` always reads this value.
abbrev library_of : Json → TokenLibrary
library_of j = record {
  Uuid = String;
  uuid_of = uuid_of_text;
  print_uuid = λ u. u;
  str_other = λ k. "";
  utf8_length = λ s. 32;
  not_ascii = λ s. none;
  encode64 = encoded;
  decode64 = decoded;
  hmac_sha256 = λ k m. "mac";
  dumps = λ k. "p";
  loads = λ s. some j;
  timestamp = number;
  from_timestamp = date_of;
}

abbrev payload : Json
payload =
    grant_payload (library_of (number 0))
      (grant_of (library_of (number 0)) "t1" "r1" "op" "read" 120 5_000_000)

abbrev library : TokenLibrary
library = library_of payload

library_laws : TokenLaws library
library_laws = record {
  no_point = encoded-no_point;
  ascii = λ raw. refl;
  decodes = decoded-encoded;
  reads_uuid = λ u. refl;
  reads_timestamp = λ t h. refl;
}

abbrev grant : CapabilityGrant library
grant = grant_of library "t1" "r1" "op" "read" 120 5_000_000

abbrev fields_of : Json → Fields
fields_of (object fs) = fs
fields_of j = end

item-found :
    (k : String) (q : Fields) (v : Json) → item library k (object q) ≡ ok v → lookup k q ≡ some v
unfolding item
item-found k q v h = elim (Option-cases (lookup k q)) [
  | inl e ↦ cc (rw (item, e) at h)
  | inr (u, e) ↦ cc (e, ok_injective (rw (item, e) at h))
]

payload_is_read : ReadsBack library (grant_payload library grant)
unfolding ReadsBack grant_payload grant_of obj whole_seconds
payload_is_read = (fields_of payload, refl, λ k v h. item-found k (fields_of payload) v h)

abbrev token : String
token = "v1.xp.xmxaxc"

token_is_built :
    build_capability_token library "secret" "t1" "r1" "op" "read" 120 5_000_000 ≡ ok token
unfolding build_capability_token encoded
token_is_built = refl

verify-build_example : verify_capability_token library token "secret" 6_000_000 ≡ (
    if ltb (6_000_000 + clock_skew) (whole_seconds library 5_000_000)
    then err not_yet_valid
    else if leb (whole_seconds library 5_000_000 + 120 * second + clock_skew) 6_000_000
    then err expired
    else ok (grant_of library "t1" "r1" "op" "read" 120 5_000_000))
verify-build_example =
    verify-build library library_laws "secret" "t1" "r1" "op" "read" 120 5_000_000 6_000_000 token
      payload_is_read token_is_built

token_is_accepted : verify_capability_token library token "secret" 6_000_000 ≡ ok grant
unfolding verify_capability_token decoded grant_payload obj grant_of
token_is_accepted = refl

verify-IsInForce_example :
    SignedWith library "secret" token
    × (grant.issued_at ≤ 6_000_000 + clock_skew)
    × (6_000_000 < grant.expires_at + clock_skew)
    × (grant.expires_at ≤ grant.issued_at + max_ttl)
    × (6_000_000 < grant.issued_at + 315 * second)
verify-IsInForce_example = verify-IsInForce library token "secret" 6_000_000 grant token_is_accepted
