-- ===== src/Proposals/Pipeline/Gates.antt =====
-- The gates that `execute` sets, and the boundary's results.
use axignal.Common.{
  ◌≤◌, String, true, false, List, [], ◌∷◌, ◌≡◌, refl, ◌⊎◌, inl, inr, All, Any, here, there, Matched,
  none_left, pair, arith, length, is_none, ◌==◌, Bool-cases, eq_iff,
}
use axignal.Common.Dict.{get, put, get-put}
use axignal.Proposals.Types.{InstitutionalDocument, EvidenceDraft, CandidateClaimDraft}
use axignal.Proposals.Drafts.{
  Bound, commercial_reuse, wrong_rights, has_no_key, any_missing, evaluate,
}
use axignal.Proposals.Pipeline.{
  by_key, all_bound, authority_blocked, all_ready, admission_results_of,
}

-- The dictionary of the evidence by its keys.
module _ (key : String) where
  put-present :
      (k : String) (e : EvidenceDraft) (d : Bound)
      → (k ≡ key) ⊎ (is_none (get key d) ≡ false)
      → is_none (get key (put k e d)) ≡ false
  put-present k e d (inl same) = rw (get-put k key e d, (eq_iff k key).1 same) refl
  put-present k e d (inr present) =
      rw (get-put k key e d)
        (elim (Bool-cases (k == key)) [ inl same ↦ rw same refl | inr other ↦ rw other present ])

  by_key-kept :
      (es : List EvidenceDraft) (d : Bound)
      → is_none (get key d) ≡ false
      → is_none (get key (by_key es d)) ≡ false
  unfolding by_key
  by_key-kept [] d h = h
  by_key-kept (e ∷ es) d h =
      by_key-kept es (put e.evidence_key e d) (put-present e.evidence_key e d (inr h))

  by_key-Any :
      (es : List EvidenceDraft) (d : Bound)
      → Any (λ e. e.evidence_key ≡ key) es
      → is_none (get key (by_key es d)) ≡ false
  unfolding by_key
  by_key-Any [] d a = elim a [ ]
  by_key-Any (e ∷ es) d (here same) =
      by_key-kept es (put e.evidence_key e d) (put-present e.evidence_key e d (inl same))
  by_key-Any (e ∷ es) d (there a) = by_key-Any es (put e.evidence_key e d) a

abbrev pub HasEvidence : List EvidenceDraft → String → Type 0
HasEvidence es key = Any (λ e. e.evidence_key ≡ key) es

-- A candidate with a key and with evidence for each of its keys.
abbrev pub Supported : List EvidenceDraft → CandidateClaimDraft → Type 0
Supported es c =
    All (HasEvidence es) c.evidence_keys
    × (has_no_key c.evidence_keys ≡ false)
    × (c.producer_type ≡ "LOCAL_MODEL")

any_missing-Supported :
    (es : List EvidenceDraft) (keys : List String)
    → All (HasEvidence es) keys
    → any_missing keys (by_key es []) ≡ false
unfolding any_missing
any_missing-Supported es [] h = refl
any_missing-Supported es (k ∷ ks) (a, h) =
    rw (by_key-Any k es [] a, any_missing-Supported es ks h) refl

module _ (d : InstitutionalDocument) (es : List EvidenceDraft)
    (rights : wrong_rights d ≡ false) where
  evaluate-Supported :
      (c : CandidateClaimDraft)
      → Supported es c
      → (evaluate d (by_key es []) c).handoff_ready ≡ true
  unfolding evaluate
  evaluate-Supported c (keys, present, local) =
      let commercial : d.rights_status == commercial_reuse ≡ true =
        unfold wrong_rights in ground arith in
      rw
        (
          present,
          any_missing-Supported es c.evidence_keys keys,
          commercial,
          (eq_iff c.producer_type "LOCAL_MODEL").1 local,
        )
        refl

  pub all_ready-Supported :
      (cs : List CandidateClaimDraft)
      → All (Supported es) cs
      → all_ready (admission_results_of d es cs) ≡ true
  unfolding all_ready admission_results_of
  all_ready-Supported [] h = refl
  all_ready-Supported (c ∷ cs) (s, h) = rw (evaluate-Supported c s) (all_ready-Supported cs h)

-- The boundary never admits.
pub authority_blocked-results :
    (d : InstitutionalDocument) (es : List EvidenceDraft) (cs : List CandidateClaimDraft)
    → authority_blocked (admission_results_of d es cs) ≡ true
unfolding authority_blocked admission_results_of evaluate
authority_blocked-results d es [] = refl
authority_blocked-results d es (c ∷ cs) = authority_blocked-results d es cs

pub all_bound-Supported :
    (es : List EvidenceDraft) (cs : List CandidateClaimDraft)
    → 1 ≤ length es
    → All (Supported es) cs
    → all_bound es cs ≡ true
unfolding all_bound
all_bound-Supported [] cs few h = absurd (omega arith)
all_bound-Supported (e ∷ es) [] some_evidence h = refl
all_bound-Supported (e ∷ es) (c ∷ cs) some_evidence ((keys, present, local), h) =
    rw present (all_bound-Supported (e ∷ es) cs some_evidence h)

-- A supported candidate has a key, and so there is evidence.
pub first_key :
    {P : String → Type 0} (keys : List String)
    → has_no_key keys ≡ false
    → All P keys
    → (key : String) × P key
unfolding has_no_key
first_key [] h a = cc h
first_key (k ∷ ks) h (p, a) = (k, p)

pub Any-length {ℓ κ} : {A : Type ℓ} {P : A → Type κ} (xs : List A) → Any P xs → 1 ≤ length xs
Any-length [] a = elim a [ ]
Any-length (x ∷ xs) a = omega arith

pub length-Matched {ℓ κ μ} :
    {A : Type ℓ} {B : Type κ} {R : A → B → Type μ} (xs : List A) (ys : List B)
    → Matched R xs ys
    → length ys ≡ length xs
length-Matched [] [] none_left = refl
length-Matched (x ∷ xs) (y ∷ ys) (pair r m) = omega (arith, length-Matched xs ys m)
length-Matched [] (y ∷ ys) m = elim m [ ]
length-Matched (x ∷ xs) [] m = elim m [ ]
