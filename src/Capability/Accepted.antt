-- ===== src/Capability/Accepted.antt =====
-- What a token that is accepted was.
use axignal.Common.{
  ◌≡◌, ℕ, ◌≤◌, ◌<◌, ◌+◌, ◌*◌, String, not, some, ok, reject_if, >>=-eq-ok, reject_if-eq-ok,
  ok_injective, arith, ltb, leb, ◌==◌, ◌⧺◌, eq_iff, subst, Option-cases, inl, inr,
}
use axignal.Capability.{
  TokenLibrary, CapabilityGrant, second, max_ttl, clock_skew, split_token, check_signature,
  check_ascii, decode_signature, load, read_grant, wrong_audience, check_window,
  verify_capability_token, unsupported_version, invalid_signature, not_yet_valid, expired,
  lifetime_exceeds_policy, invalid_audience,
}

module _ (lib : TokenLibrary) where
  -- The token is version 1 and carries the signature of its first two parts under the secret.
  pub SignedWith : String → String → Type 0
  SignedWith secret token =
      (encoded : String) × (signature : String) × (split_token token
        ≡ ok ("v1", encoded, signature))
      × (lib.decode64 signature ≡ some (lib.hmac_sha256 secret ("v1" ⧺ "." ⧺ encoded)))

  decode_signature-eq-ok :
      (s : String) {b : String} → decode_signature lib s ≡ ok b → lib.decode64 s ≡ some b
  unfolding decode_signature
  decode_signature-eq-ok s h = elim (Option-cases (lib.decode64 s)) [
    | inl e ↦ cc (rw (decode_signature, e) at h)
    | inr (b, e) ↦ cc (e, ok_injective (rw (decode_signature, e) at h))
  ]

  check_signature-SignedWith :
      (secret token : String) {encoded : String}
      → check_signature lib secret token ≡ ok encoded
      → SignedWith secret token
  unfolding check_signature SignedWith
  check_signature-SignedWith secret token ran =
      let (parts, split, ran) = >>=-eq-ok (split_token token) _ ran in
      let version = parts.0 in
      let encoded = parts.1 in
      let signature = parts.2 in
      let (_, v, ran) = >>=-eq-ok (reject_if (not (version == "v1")) unsupported_version) _ ran in
      let (_, _, ran) = >>=-eq-ok (check_ascii lib (version ⧺ "." ⧺ encoded)) _ ran in
      let (supplied, decoded, ran) = >>=-eq-ok (decode_signature lib signature) _ ran in
      let mac = lib.hmac_sha256 secret (version ⧺ "." ⧺ encoded) in
      let (_, same, last) = >>=-eq-ok (reject_if (not (mac == supplied)) invalid_signature) _ ran in
      let v1 = reject_if-eq-ok (not (version == "v1")) unsupported_version v in
      let matched = reject_if-eq-ok (not (mac == supplied)) invalid_signature same in
      let is_v1 : version ≡ "v1" = ground (arith, eq_iff version "v1") in
      let is_mac : mac ≡ supplied = ground (arith, eq_iff mac supplied) in
      (
        encoded,
        signature,
        cc (split, is_v1),
        cc (decode_signature-eq-ok signature decoded, is_mac, is_v1),
      )

  -- A token that is accepted is version 1 and signed with the secret, and the grant is in force: it was
  -- issued at most 15 seconds from now, it expired less than 15 seconds ago or not at all, and it lasts
  -- at most 300 seconds, so that it was issued less than 315 seconds ago.
  pub verify-IsInForce :
      (token secret : String) (current : ℕ) (g : CapabilityGrant lib)
      → verify_capability_token lib token secret current ≡ ok g
      → SignedWith secret token
        × (g.issued_at ≤ current + clock_skew)
        × (current < g.expires_at + clock_skew)
        × (g.expires_at ≤ g.issued_at + max_ttl)
        × (current < g.issued_at + 315 * second)
  unfolding verify_capability_token check_window
  verify-IsInForce token secret current g ran =
      let (encoded, signed, ran) = >>=-eq-ok (check_signature lib secret token) _ ran in
      let (payload, _, ran) = >>=-eq-ok (load lib encoded) _ ran in
      let (h, _, ran) = >>=-eq-ok (read_grant lib payload) _ ran in
      let (_, _, ran) = >>=-eq-ok (reject_if (wrong_audience lib payload) invalid_audience) _ ran in
      let (_, a, ran) =
        >>=-eq-ok (reject_if (ltb (current + clock_skew) h.issued_at) not_yet_valid) _ ran in
      let (_, b, ran) =
        >>=-eq-ok (reject_if (leb (h.expires_at + clock_skew) current) expired) _ ran in
      let (_, c, last) =
        >>=-eq-ok (reject_if (ltb (h.issued_at + max_ttl) h.expires_at) lifetime_exceeds_policy) _
          ran in
      let early = reject_if-eq-ok (ltb (current + clock_skew) h.issued_at) not_yet_valid a in
      let late = reject_if-eq-ok (leb (h.expires_at + clock_skew) current) expired b in
      let long =
        reject_if-eq-ok (ltb (h.issued_at + max_ttl) h.expires_at) lifetime_exceeds_policy c in
      subst
        (λ k.
          SignedWith secret token
          × (k.issued_at ≤ current + clock_skew)
          × (current < k.expires_at + clock_skew)
          × (k.expires_at ≤ k.issued_at + max_ttl)
          × (current < k.issued_at + 315 * second))
        (ok_injective last)
        (
          check_signature-SignedWith secret token signed,
          ground arith,
          ground arith,
          ground arith,
          ground arith,
        )
