-- ===== src/Lifecycle/Evidence.antt =====
-- `_build_evidence`: one Evidence Object for each claim of each notice.
pub mod Bound
pub mod Repeated
use axignal.Common.{
  ℕ, String, Bool, true, false, List, [], ◌∷◌, ◌++◌, map, ◌⧺◌, mem, first_chars, if◌then◌else◌,
  Result, ok, err, ◌>>=◌,
}
use axignal.Common.Json.{Json, text, obj, Library, sha256_of}
use axignal.Rehearsal.Claim.{CandidateClaim, fingerprint}
use axignal.Lifecycle.Notice.{
  LifecycleError, duplicate_evidence_key, LifecycleNotice, notice_reference, reference,
}

abbrev pub lifecycle_profile : String
lifecycle_profile = "ted-eforms-procurement-lifecycle@0.1.0"

pub record EvidenceObject : Type 0 where
  pub evidence_key : String
  pub notice_reference : String
  pub claim_fingerprint : String
  pub predicate : String
  pub subject_key : String
  pub source_path : String
  pub value_hash : String
  pub content_hash : String
  pub parser_profile : String
  pub authority : String
  pub rights_state : String
  pub provisional : Bool

-- The claims with their notices, in the order in which the two loops visit them.
unfoldable pub bindings : List LifecycleNotice → List (LifecycleNotice × CandidateClaim)
bindings [] = []
bindings (n ∷ ns) = map (λ c. (n, c)) n.claims ++ bindings ns

module _ (lib : Library) where
  unfoldable pub canonical_hash : Json → String
  canonical_hash j = sha256_of lib (lib.dumps j)

  -- `canonical_hash` without its prefix "sha256:".
  unfoldable pub hash_digits : Json → String
  hash_digits j = lib.sha256_hex (lib.dumps j)

  unfoldable pub evidence_material : LifecycleNotice → CandidateClaim → Json
  evidence_material n c = obj (
      ("notice_reference", text (reference n))
      ∷ ("raw_content_hash", text n.identity.raw_content_hash)
      ∷ ("claim_fingerprint", text (fingerprint lib c))
      ∷ ("predicate", text c.predicate)
      ∷ ("subject_key", text c.subject_key)
      ∷ ("source_path", text c.source_path)
      ∷ ("value_hash", text (canonical_hash c.value))
      ∷ ("parser_profile", text lifecycle_profile)
      ∷ [])

  unfoldable pub evidence_of : LifecycleNotice × CandidateClaim → EvidenceObject
  evidence_of (n, c) = record {
    evidence_key = "ev_" ⧺ first_chars 24 (hash_digits (evidence_material n c));
    notice_reference = reference n;
    claim_fingerprint = fingerprint lib c;
    predicate = c.predicate;
    subject_key = c.subject_key;
    source_path = c.source_path;
    value_hash = canonical_hash c.value;
    content_hash = canonical_hash (evidence_material n c);
    parser_profile = lifecycle_profile;
    authority = "OBSERVED";
    rights_state = "SANDBOX_ONLY";
    provisional = true;
  }

  -- The loop, with the set `seen` of the keys so far.
  unfoldable pub collect :
      List (LifecycleNotice × CandidateClaim)
      → List String
      → Result LifecycleError (List EvidenceObject)
  collect [] seen = ok []
  collect (b ∷ bs) seen =
      let e = evidence_of b in
      if mem e.evidence_key seen
      then err duplicate_evidence_key
      else (do rest ← collect bs (e.evidence_key ∷ seen); ok (e ∷ rest))

  unfoldable pub build_evidence : List LifecycleNotice → Result LifecycleError (List EvidenceObject)
  build_evidence notices = collect (bindings notices) []
