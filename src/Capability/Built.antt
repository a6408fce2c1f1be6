-- ===== src/Capability/Built.antt =====
-- What becomes of a token that the code built itself.
use Prim.Native.String.append
use Prim.Native.Char.{Char}
use package.text.Mathlib.TextLemmas.{append_assoc}
use axignal.Common.{
  ◌≡◌, refl, sym, ap, ◌∙◌, ℕ, ◌+◌, ◌*◌, ◌%◌, String, Bool, true, false, not, ◌||◌, Option, none,
  some, ok, err, reject_if, ◌>>◌, >>=-eq-ok, reject_if-eq-ok, ok_injective, arith, ltb, leb, ◌==◌,
  ◌⧺◌, eq_refl, Bool-cases, inl, inr, if◌then◌else◌,
}
use axignal.Common.Json.{Json, text, obj, object, Fields, fields}
use axignal.Outbox.Payload.{lookup, is_text}
use axignal.Capability.{
  after, TokenLibrary, CapabilityGrant, second, max_ttl, clock_skew, split_point, split_token,
  check_signature, check_ascii, decode_signature, load, read_grant, wrong_audience, check_window,
  item, str_of, verify_capability_token, build_capability_token, sign, grant_payload, grant_of,
  whole_seconds, secret_too_short, ttl_outside_range, not_yet_valid, expired,
}

after-none : (c : Char) (o : Option (String × String)) → after c o ≡ none → o ≡ none
after-none c none h = refl
after-none c (some p) h = cc h

split_point-point : (t : String) → split_point ("." ⧺ t) ≡ some ("", t)
unfolding split_point
split_point-point t = rw (append.cons "." "" t, append.nil t) refl

-- A text without a point, the point, and what follows it.
split_point-append : (s t : String) → split_point s ≡ none → split_point (s ⧺ "." ⧺ t) ≡ some (s, t)
unfolding split_point
split_point-append String.[] t h = ap split_point (append.nil ("." ⧺ t)) ∙ split_point-point t
split_point-append (String.◌∷◌ c s) t h =
    ap split_point (append.cons c s ("." ⧺ t)) ∙ (elim (Bool-cases (String.◌∷◌ c "" == ".")) [
      | inl e ↦ cc (rw e at h)
      | inr e ↦ rw (e, split_point-append s t (after-none c (split_point s) (rw e at h))) refl
    ])

v1_has_no_point : split_point "v1" ≡ none
unfolding split_point
v1_has_no_point = refl

split_token-parts :
    (encoded signature : String)
    → split_point encoded ≡ none
    → split_token (("v1" ⧺ "." ⧺ encoded) ⧺ "." ⧺ signature) ≡ ok ("v1", encoded, signature)
unfolding split_token
split_token-parts encoded signature h =
    rw
      (
        append_assoc "v1" ("." ⧺ encoded) ("." ⧺ signature),
        append_assoc "." encoded ("." ⧺ signature),
        split_token,
        split_point-append "v1" (encoded ⧺ "." ⧺ signature) v1_has_no_point,
        split_point-append encoded signature h,
      )
      refl

module _ (lib : TokenLibrary) where
  -- What the code relies on: URL-safe base64 has no point, is ASCII and decodes to what was encoded;
  -- UUIDs and timestamps of whole seconds are read as they were written.
  pub record TokenLaws : Type 0 where
    pub no_point : (raw : String) → split_point (lib.encode64 raw) ≡ none
    pub ascii : (raw : String) → lib.not_ascii ("v1" ⧺ "." ⧺ lib.encode64 raw) ≡ none
    pub decodes : (raw : String) → lib.decode64 (lib.encode64 raw) ≡ some raw
    pub reads_uuid : (u : lib.Uuid) → lib.uuid_of (text (lib.print_uuid u)) ≡ ok u
    pub reads_timestamp : (t : ℕ) → t % second ≡ 0 → lib.from_timestamp (lib.timestamp t) ≡ ok t

  -- `json.loads` of what `json.dumps` writes for the payload is a dictionary with the same items.
  unfoldable pub ReadsBack : Json → Type 0
  ReadsBack payload =
      (q : Fields) × (lib.loads (lib.dumps payload) ≡ some (object q))
      × ((k : String) (v : Json) → item lib k payload ≡ ok v → lookup k q ≡ some v)

  whole_seconds-lem : (now : ℕ) → whole_seconds lib now % second ≡ 0
  unfolding whole_seconds
  whole_seconds-lem now = omega arith

  window :
      (early late : Bool) (g : CapabilityGrant lib)
      → (do reject_if early not_yet_valid; reject_if late expired; ok g)
        ≡ (if early then err not_yet_valid else if late then err expired else ok g)
  window true late g = refl
  window false true g = refl
  window false false g = refl

  later-lem : (t n : ℕ) → t % second ≡ 0 → (t + n * second) % second ≡ 0
  later-lem t n h = omega arith

  module _ (laws : TokenLaws) where
    check_signature-sign :
        (secret : String) (payload : Json)
        → check_signature lib secret (sign lib secret payload)
          ≡ ok (lib.encode64 (lib.dumps payload))
    unfolding check_signature sign
    check_signature-sign secret payload =
        let encoded = lib.encode64 (lib.dumps payload) in
        let mac = lib.hmac_sha256 secret ("v1" ⧺ "." ⧺ encoded) in
        rw
          (
            split_token-parts encoded (lib.encode64 mac) (laws.no_point (lib.dumps payload)),
            check_ascii,
            laws.ascii (lib.dumps payload),
            decode_signature,
            laws.decodes mac,
            eq_refl mac,
          )
          refl

    load-encode :
        (payload : Json) (q : Fields)
        → lib.loads (lib.dumps payload) ≡ some (object q)
        → load lib (lib.encode64 (lib.dumps payload)) ≡ ok (object q)
    unfolding load
    load-encode payload q h = rw (load, laws.decodes (lib.dumps payload), h) refl

    item-lem :
        (k : String) (q : Fields) (v : Json) → lookup k q ≡ some v → item lib k (object q) ≡ ok v
    unfolding item
    item-lem k q v h = rw (item, h) refl

    read_grant-payload :
        (g : CapabilityGrant lib) (q : Fields)
        → ((k : String) (v : Json) → item lib k (grant_payload lib g) ≡ ok v → lookup k q ≡ some v)
        → g.issued_at % second ≡ 0
        → g.expires_at % second ≡ 0
        → (read_grant lib (object q) ≡ ok g) × (wrong_audience lib (object q) ≡ false)
    unfolding read_grant grant_payload item lookup fields obj wrong_audience is_text str_of
    read_grant-payload g q same i e =
        let granted : read_grant lib (object q) ≡ ok g =
          rw
            (
              read_grant,
              item-lem "tenant_id" q _ (same "tenant_id" (text (lib.print_uuid g.tenant_id)) refl),
              item-lem "reservation_id" q _
                  (same "reservation_id" (text (lib.print_uuid g.reservation_id)) refl),
              item-lem "operation_id" q _ (same "operation_id" (text g.operation_id) refl),
              item-lem "capability" q _ (same "capability" (text g.capability) refl),
              item-lem "iat" q _ (same "iat" (lib.timestamp g.issued_at) refl),
              item-lem "exp" q _ (same "exp" (lib.timestamp g.expires_at) refl),
              laws.reads_uuid g.tenant_id,
              laws.reads_uuid g.reservation_id,
              laws.reads_timestamp g.issued_at i,
              laws.reads_timestamp g.expires_at e,
            )
            refl in
        let audience : wrong_audience lib (object q) ≡ false =
          rw (wrong_audience, same "aud" (text "axignal-capability") refl) refl in
        (granted, audience)

    -- A token built for a lifetime of 1 to 300 seconds and verified with its own secret is judged by
    -- its times alone: more than 15 seconds before it was issued it is not yet valid, 15 seconds after
    -- its lifetime or later it has expired, and in between the grant that it was built for is returned.
    -- This is for libraries that read what they wrote.
    pub verify-build :
        (secret : String) (tenant_id reservation_id : lib.Uuid) (operation_id capability : String)
        (ttl_seconds now current : ℕ) (token : String)
        → ReadsBack (
            grant_payload lib
              (grant_of lib tenant_id reservation_id operation_id capability ttl_seconds now))
        → build_capability_token lib secret tenant_id reservation_id operation_id capability
            ttl_seconds now
          ≡ ok token
        → verify_capability_token lib token secret current ≡ (
            if ltb (current + clock_skew) (whole_seconds lib now)
            then err not_yet_valid
            else if leb (whole_seconds lib now + ttl_seconds * second + clock_skew) current
            then err expired
            else ok (grant_of lib tenant_id reservation_id operation_id capability ttl_seconds now))
    unfolding build_capability_token verify_capability_token check_window grant_of ReadsBack
    verify-build secret tenant_id reservation_id operation_id capability ttl_seconds now current
          token back ran =
        let g = grant_of lib tenant_id reservation_id operation_id capability ttl_seconds now in
        let (q, read, same) = back in
        let (_, _, ran) =
          >>=-eq-ok (reject_if (ltb (lib.utf8_length secret) 32) secret_too_short) _ ran in
        let (_, t, last) =
          >>=-eq-ok
            (reject_if (not (leb 1 ttl_seconds) || not (leb ttl_seconds 300)) ttl_outside_range) _
            ran in
        let within =
          reject_if-eq-ok (not (leb 1 ttl_seconds) || not (leb ttl_seconds 300)) ttl_outside_range
            t in
        let whole = whole_seconds-lem now in
        let (granted, audience) =
          read_grant-payload g q same whole (later-lem (whole_seconds lib now) ttl_seconds whole) in
        let made : sign lib secret (grant_payload lib g) ≡ token = ok_injective last in
        let short : ltb (whole_seconds lib now + max_ttl)
              (whole_seconds lib now + ttl_seconds * second)
            ≡ false =
          ground arith in
        rw
          (
            sym made,
            check_signature-sign secret (grant_payload lib g),
            load-encode (grant_payload lib g) q read,
            granted,
            audience,
            check_window,
            short,
          )
          (window (ltb (current + clock_skew) (whole_seconds lib now))
            (leb (whole_seconds lib now + ttl_seconds * second + clock_skew) current) g)
