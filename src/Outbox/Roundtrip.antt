-- ===== src/Outbox/Roundtrip.antt =====
-- Which jobs come back from a queue as they were put on it.
use axignal.Common.{
  ◌≡◌, refl, sym, ap, ◌↔◌, ℕ, suc, zero, Bool, true, false, not, ◌||◌, Result, ok, err, reject_if,
  ◌>>=◌, ◌>>◌, ok_injective, arith, ◌==◌, eq_iff, is_empty, ◌<◌, ◌∙◌,
}
use package.text.Mathlib.Text.{starts_with}
use axignal.Common.Integers.{pos}
use axignal.Common.Json.{fields}
use axignal.Outbox.Payload.{Exception, value_error, PayloadLibrary, lookup, int_item, int_of}
use axignal.Outbox.Jobs.{
  Budget, AdmissionReviewJob, ProposalJob, bad_hash, policy_version_in_force, budget_of,
  budget_payload, check_budget, not_one, not_positive, proposal_payload, admission_payload,
}
use axignal.Outbox.Queue.{admission, proposal, encode, decode}
use axignal.Outbox.Codec.{ReadsUuids, ReadsBack, SameItems, admission_job-lem, proposal_job-lem}

-- One document, one model call, and tokens to spend.
pub IsWithin : Budget → Type 0
IsWithin b =
    (b.max_documents ≡ 1)
    × (b.max_model_calls ≡ 1)
    × (0 < b.max_input_tokens)
    × (0 < b.max_output_tokens)

-- A check, and what follows it.
check_iff {ℓ} :
    {A : Type ℓ} (bad : Bool) (e : Exception) (m : Result Exception A) (x : A)
    → ((do reject_if bad e; m) ≡ ok x) ↔ ((bad ≡ false) × (m ≡ ok x))
check_iff false e m x = ((λ h. (refl, h)), (λ h. h.1))
check_iff true e m x = ((λ h. cc h), (λ h. cc h.0))

-- A job made of what was read last.
last_iff {ℓ κ} :
    {A : Type ℓ} {B : Type κ} (m : Result Exception B) (make : B → A) (part : A → B)
    → ((b : B) → part (make b) ≡ b)
    → (x : A) → make (part x) ≡ x
    → ((do b ← m; ok (make b)) ≡ ok x) ↔ (m ≡ ok (part x))
last_iff (err e) make part h x g = ((λ r. cc r), (λ r. cc r))
last_iff (ok b) make part h x g = (
  (λ r. ap ok (sym (h b) ∙ ap part (ok_injective r))),
  (λ r. ap ok (ap make (ok_injective r) ∙ g)),
)

positive_iff : (n : ℕ) → (not_positive (pos n) ≡ false) ↔ (0 < n)
positive_iff zero = ((λ h. cc h), (λ h. ground arith))
positive_iff (suc n) = ((λ h. omega arith), (λ h. refl))

check_budget_iff :
    (b : Budget)
    → (check_budget
          (pos b.max_documents)
          (pos b.max_model_calls)
          (pos b.max_input_tokens)
          (pos b.max_output_tokens)
        ≡ ok b)
      ↔ IsWithin b
unfolding check_budget IsWithin
check_budget_iff b =
    let d = b.max_documents in
    let c = b.max_model_calls in
    let i = b.max_input_tokens in
    let o = b.max_output_tokens in
    let ones = not_one (pos d) || not_one (pos c) in
    let tokens = not_positive (pos i) || not_positive (pos o) in
    let (to, from) =
      check_iff ones
        (value_error "Document proposal v0.1 permits exactly one document and model call")
        (do reject_if tokens (value_error "Document proposal token budgets must be positive"); ok b)
        b in
    let (to2, from2) =
      check_iff tokens (value_error "Document proposal token budgets must be positive") (ok b) b in
    let (i1, i2) = positive_iff i in
    let (o1, o2) = positive_iff o in
    (
      (λ h.
          let (p, rest) = to h in
          let (q, _) = to2 rest in
          (ground arith, ground arith, i1 (ground arith), o1 (ground arith))),
      (λ (p, q, r, t).
          let r2 = i2 r in let t2 = o2 t in from (ground arith, from2 (ground arith, refl))),
    )

module _ (lib : PayloadLibrary) (uuids : ReadsUuids lib) where
  -- An admission job comes back from its text exactly when its package hash has the form of a hash
  -- and its policy version is the one in force: with a JSON library that reads back the items it
  -- wrote and UUIDs that are read as they were printed.
  pub admission_roundtrip_iff :
      (j : AdmissionReviewJob lib)
      → ReadsBack lib (admission_payload lib j)
      → (decode lib (admission lib) (encode lib (admission lib) j) ≡ ok j) ↔ (
          (bad_hash j.expected_package_hash ≡ false) × (j.policy_version ≡ policy_version_in_force))
  unfolding decode encode ReadsBack SameItems ReadsUuids
  admission_roundtrip_iff j (q, read, same) =
      let policy = not (j.policy_version == policy_version_in_force) in
      let (to, from) =
        check_iff (bad_hash j.expected_package_hash)
          (value_error "Admission job package hash is invalid")
          (do reject_if policy (value_error "Admission policy version is not supported"); ok j) j in
      let (to2, from2) =
        check_iff policy (value_error "Admission policy version is not supported") (ok j) j in
      rw (read, admission_job-lem lib uuids j q same)
        (
          (λ h.
              let (a, rest) = to h in
              let (b, _) = to2 rest in
              (a, ground (arith, eq_iff j.policy_version policy_version_in_force))),
          (λ (a, b).
              from
                (a, from2 (ground (arith, eq_iff j.policy_version policy_version_in_force), refl))),
        )

  budget_of-lem :
      (b : Budget)
      → budget_of lib (fields (budget_payload b))
        ≡ check_budget
            (pos b.max_documents)
            (pos b.max_model_calls)
            (pos b.max_input_tokens)
            (pos b.max_output_tokens)
  unfolding budget_of budget_payload fields lookup int_item int_of
  budget_of-lem b = refl

  -- A document proposal job comes back from its text exactly when it names a source, its document's
  -- identity begins with "doc_", and its budget is one document, one model call and some tokens each
  -- way: with a JSON library that reads back the items it wrote and UUIDs that are read as printed.
  pub proposal_roundtrip_iff :
      (j : ProposalJob lib)
      → ReadsBack lib (proposal_payload lib j)
      → (decode lib (proposal lib) (encode lib (proposal lib) j) ≡ ok j) ↔ (
          (is_empty j.source_id ≡ false)
          × (starts_with j.document_id "doc_" ≡ true)
          × IsWithin j.budget)
  unfolding decode encode ReadsBack SameItems ReadsUuids
  proposal_roundtrip_iff j (q, read, same) =
      let identity = is_empty j.source_id || not (starts_with j.document_id "doc_") in
      let make : Budget → ProposalJob lib = λ b. record {
        tenant_id = j.tenant_id;
        research_run_id = j.research_run_id;
        source_id = j.source_id;
        document_id = j.document_id;
        pipeline_version = j.pipeline_version;
        budget = b;
      } in
      let b = j.budget in
      let checked =
        check_budget (pos b.max_documents) (pos b.max_model_calls) (pos b.max_input_tokens)
          (pos b.max_output_tokens) in
      let (to, from) =
        check_iff identity
          (value_error "Document proposal job source or document identity is invalid")
          (do c ← checked; ok (make c)) j in
      let (to2, from2) = last_iff checked make (λ k. k.budget) (λ c. refl) j refl in
      let (to3, from3) = check_budget_iff b in
      rw (read, proposal_job-lem lib uuids j q same, budget_of-lem b)
        (
          (λ h. let (p, rest) = to h in (ground arith, ground arith, to3 (to2 rest))),
          (λ (p, d, w). from (ground arith, from2 (from3 w))),
        )
