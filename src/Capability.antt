-- ===== src/Capability.antt =====
-- apps/api/src/axignal_api/capability_tokens.py: signed grants of a capability for a few minutes.
-- Instants are microseconds since the first instant of Python's `datetime`, durations microseconds.
pub mod Accepted
pub mod Built
use axignal.Common.{
  ℕ, String, Bool, true, false, not, ◌||◌, Option, none, some, List, [], ◌∷◌, ltb, leb, ◌+◌, ◌*◌,
  ◌%◌, ◌-◌, ◌==◌, ◌⧺◌, if◌then◌else◌, Result, ok, err, reject_if, ◌>>=◌, ◌>>◌,
}
use Prim.Native.Char.{Char}
use axignal.Common.Json.{Json, text, obj, object, Fields}
use axignal.Outbox.Payload.{lookup, is_text}

-- The messages of the `ValueError`s, and the exceptions that the code does not turn into one.
pub data TokenError : Type 0 where
  secret_too_short ttl_outside_range : TokenError
  malformed unsupported_version malformed_signature invalid_signature : TokenError
  malformed_payload invalid_audience not_yet_valid expired lifetime_exceeds_policy : TokenError
  escaped : String → TokenError

-- base64, `hmac` with SHA-256, `json`, UUIDs, timestamps and `str.encode`. `encode64` is `_encode`,
-- `decode64` is `_decode`, `none` where it raises a `ValueError`. `not_ascii` is the exception of
-- `s.encode("ascii")`, if it raises one. `timestamp` is the number `int(t.timestamp())`, and
-- `from_timestamp` is `datetime.fromtimestamp(int(value), tz=UTC)`.
pub record TokenLibrary : Type 1 where
  pub Uuid : Type 0
  pub uuid_of : Json → Result TokenError Uuid
  pub print_uuid : Uuid → String
  pub str_other : Json → String
  pub utf8_length : String → ℕ
  pub not_ascii : String → Option String
  pub encode64 : String → String
  pub decode64 : String → Option String
  pub hmac_sha256 : String → String → String
  pub dumps : Json → String
  pub loads : String → Option Json
  pub timestamp : ℕ → Json
  pub from_timestamp : Json → Result TokenError ℕ

abbrev pub second : ℕ
second = 1_000_000

abbrev pub max_ttl : ℕ
max_ttl = 300_000_000

abbrev pub clock_skew : ℕ
clock_skew = 15_000_000

-- A character before the first of two texts.
abbrev pub after : Char → Option (String × String) → Option (String × String)
after c none = none
after c (some (before, rest)) = some (String.◌∷◌ c before, rest)

-- `s.split(".", 1)`: the text before the first point and the text after it.
unfoldable pub split_point : String → Option (String × String)
split_point String.[] = none
split_point (String.◌∷◌ c s) =
    let rest = split_point s in if String.◌∷◌ c "" == "." then some ("", s) else after c rest

-- `version, encoded, supplied_signature = token.split(".", 2)`
unfoldable pub split_token : String → Result TokenError (String × String × String)
unfolding split_point
split_token token = elim (split_point token) [
  | none ↦ err malformed
  | some (version, rest) ↦ elim (split_point rest) [
    | none ↦ err malformed
    | some (encoded, signature) ↦ ok (version, encoded, signature)
  ]
]

module _ (lib : TokenLibrary) where
  pub record CapabilityGrant : Type 0 where
    pub tenant_id : lib.Uuid
    pub reservation_id : lib.Uuid
    pub operation_id : String
    pub capability : String
    pub issued_at : ℕ
    pub expires_at : ℕ

  unfoldable pub grant_payload : CapabilityGrant → Json
  grant_payload g = obj (
      ("aud", text "axignal-capability")
      ∷ ("tenant_id", text (lib.print_uuid g.tenant_id))
      ∷ ("reservation_id", text (lib.print_uuid g.reservation_id))
      ∷ ("operation_id", text g.operation_id)
      ∷ ("capability", text g.capability)
      ∷ ("iat", lib.timestamp g.issued_at)
      ∷ ("exp", lib.timestamp g.expires_at)
      ∷ [])

  -- `(now or datetime.now(UTC)).replace(microsecond=0)`
  unfoldable pub whole_seconds : ℕ → ℕ
  whole_seconds now = now - now % second

  -- The signed text: the version, the payload and the signature.
  unfoldable pub sign : String → Json → String
  sign secret payload =
      let encoded = lib.encode64 (lib.dumps payload) in
      let signing_input = "v1" ⧺ "." ⧺ encoded in
      signing_input ⧺ "." ⧺ lib.encode64 (lib.hmac_sha256 secret signing_input)

  -- The grant that a token of these arguments carries.
  unfoldable pub grant_of : lib.Uuid → lib.Uuid → String → String → ℕ → ℕ → CapabilityGrant
  unfolding whole_seconds
  grant_of tenant_id reservation_id operation_id capability ttl_seconds now = record {
    tenant_id = tenant_id;
    reservation_id = reservation_id;
    operation_id = operation_id;
    capability = capability;
    issued_at = whole_seconds now;
    expires_at = whole_seconds now + ttl_seconds * second;
  }

  unfoldable pub build_capability_token :
      String → lib.Uuid → lib.Uuid → String → String → ℕ → ℕ → Result TokenError String
  unfolding sign grant_payload grant_of
  build_capability_token secret tenant_id reservation_id operation_id capability ttl_seconds now =
      do
        reject_if (ltb (lib.utf8_length secret) 32) secret_too_short
        reject_if (not (leb 1 ttl_seconds) || not (leb ttl_seconds 300)) ttl_outside_range
        ok (
            sign secret (
              grant_payload
                (grant_of tenant_id reservation_id operation_id capability ttl_seconds now)))

  -- `payload[key]`: a missing key and a payload that is no dictionary are malformed.
  unfoldable pub item : String → Json → Result TokenError Json
  unfolding lookup
  item k (object fs) = elim (lookup k fs) [ none ↦ err malformed_payload | some v ↦ ok v ]
  item k _ = err malformed_payload

  -- `str(value)`
  unfoldable pub str_of : Json → String
  str_of (text s) = s
  str_of j = lib.str_other j

  -- `payload.get("aud") != "axignal-capability"`, of a dictionary.
  unfoldable pub wrong_audience : Json → Bool
  unfolding lookup is_text
  wrong_audience (object fs) = not (is_text "axignal-capability" (lookup "aud" fs))
  wrong_audience _ = true

  -- `json.loads(_decode(encoded))`
  unfoldable pub load : String → Result TokenError Json
  load encoded = elim (lib.decode64 encoded) [
    | none ↦ err malformed_payload
    | some raw ↦ elim (lib.loads raw) [ none ↦ err malformed_payload | some j ↦ ok j ]
  ]

  -- The body of the last `try`.
  unfoldable pub read_grant : Json → Result TokenError CapabilityGrant
  unfolding item str_of
  read_grant payload = do
    tenant ← item "tenant_id" payload
    tenant_id ← lib.uuid_of tenant
    reservation ← item "reservation_id" payload
    reservation_id ← lib.uuid_of reservation
    operation ← item "operation_id" payload
    capability ← item "capability" payload
    iat ← item "iat" payload
    issued_at ← lib.from_timestamp iat
    exp ← item "exp" payload
    expires_at ← lib.from_timestamp exp
    ok (record {
      tenant_id = tenant_id;
      reservation_id = reservation_id;
      operation_id = str_of operation;
      capability = str_of capability;
      issued_at = issued_at;
      expires_at = expires_at;
    })

  -- The checks of the times.
  unfoldable pub check_window : ℕ → CapabilityGrant → Result TokenError CapabilityGrant
  check_window current g = do
    reject_if (ltb (current + clock_skew) g.issued_at) not_yet_valid
    reject_if (leb (g.expires_at + clock_skew) current) expired
    reject_if (ltb (g.issued_at + max_ttl) g.expires_at) lifetime_exceeds_policy
    ok g

  -- `s.encode("ascii")`, whose exception is a `ValueError` of its own.
  unfoldable pub check_ascii : String → Result TokenError (Unit {0})
  check_ascii s = elim (lib.not_ascii s) [ none ↦ ok tt | some e ↦ err (escaped e) ]

  -- `_decode(supplied_signature)`
  unfoldable pub decode_signature : String → Result TokenError String
  decode_signature signature = elim (lib.decode64 signature) [
    | none ↦ err malformed_signature
    | some supplied ↦ ok supplied
  ]

  -- Everything up to the comparison of the signatures.
  unfoldable pub check_signature : String → String → Result TokenError String
  unfolding split_token check_ascii decode_signature
  check_signature secret token = do
    (version, encoded, signature) ← split_token token
    reject_if (not (version == "v1")) unsupported_version
    check_ascii (version ⧺ "." ⧺ encoded)
    supplied ← decode_signature signature
    reject_if (not (lib.hmac_sha256 secret (version ⧺ "." ⧺ encoded) == supplied)) invalid_signature
    ok encoded

  unfoldable pub verify_capability_token : String → String → ℕ → Result TokenError CapabilityGrant
  unfolding check_signature load read_grant wrong_audience check_window
  verify_capability_token token secret current = do
    encoded ← check_signature secret token
    payload ← load encoded
    g ← read_grant payload
    reject_if (wrong_audience payload) invalid_audience
    check_window current g
