-- ===== src/Rehearsal/Store/Journal.antt =====
-- The event log: what a series of appends adds to it, and its numbering.
use axignal.Common.{
  ℕ, suc, ◌+◌, ◌≡◌, refl, sym, ap, ◌∙◌, String, Bool, List, [], ◌∷◌, ◌++◌, map, length,
  length-append, append-nil, append_assoc, subst, arith, ok, Bool-cases, inl, inr, ◌&&◌, eqb,
}
use axignal.Common.Json.{Json, text, obj, Library, sha256_of}
use axignal.Rehearsal.Decision.{AdmissionDecision, outcome_text}
use axignal.Rehearsal.Store.{
  AdmissionEvent, AdmissionStore, append_event, recorded, record_decisions,
}

-- The numbers of a log are n + 1, n + 2, …
abbrev pub IsNumbered : ℕ → List AdmissionEvent → Type 0
IsNumbered n [] = Unit
IsNumbered n (e ∷ es) = (e.sequence ≡ n + 1) × IsNumbered (n + 1) es

pub IsNumbered-append :
    (n : ℕ) (es fs : List AdmissionEvent)
    → IsNumbered n es
    → IsNumbered (n + length es) fs
    → IsNumbered n (es ++ fs)
IsNumbered-append n [] fs h k = subst (λ m. IsNumbered m fs) (omega arith) k
IsNumbered-append n (e ∷ es) fs h k =
    (h.0, IsNumbered-append (n + 1) es fs h.1 (subst (λ m. IsNumbered m fs) (omega arith) k))

-- What a decision writes in the log: a type and a payload.
abbrev pub decision_entry : AdmissionDecision → String × Json
decision_entry d = (
  "PROCUREMENT_REHEARSAL_DECISION_RECORDED",
  obj (
      ("candidate_fingerprint", text d.candidate_fingerprint)
      ∷ ("outcome", text (outcome_text d.outcome))
      ∷ []),
)

module _ (lib : Library) (batch : String) where
  -- Events of one batch, numbered from n + 1, for pairs of a type and a payload.
  unfoldable pub numbered : ℕ → List (String × Json) → List AdmissionEvent
  numbered n [] = []
  numbered n ((event_type, payload) ∷ rest) =
      record {
        sequence = n + 1;
        event_type = event_type;
        batch_id = batch;
        payload_hash = sha256_of lib (lib.dumps payload);
      }
      ∷ numbered (n + 1) rest

  pub numbered-IsNumbered :
      (n : ℕ) (entries : List (String × Json)) → IsNumbered n (numbered n entries)
  unfolding numbered
  numbered-IsNumbered n [] = tt
  numbered-IsNumbered n (e ∷ rest) = (refl, numbered-IsNumbered (n + 1) rest)

  pub length-numbered :
      (n : ℕ) (entries : List (String × Json)) → length (numbered n entries) ≡ length entries
  unfolding numbered
  length-numbered n [] = refl
  length-numbered n (e ∷ rest) = ap suc (length-numbered (n + 1) rest)

  abbrev pub extended : AdmissionStore → List (String × Json) → AdmissionStore
  extended s entries = record s { events = s.events ++ numbered (length s.events) entries }

  pub append_event-extended :
      (event_type : String) (payload : Json) (s : AdmissionStore)
      → append_event lib event_type batch payload s ≡ extended s ((event_type, payload) ∷ [])
  unfolding append_event numbered
  append_event-extended event_type payload s = refl

  numbered-append :
      (n : ℕ) (es fs : List (String × Json))
      → numbered n (es ++ fs) ≡ numbered n es ++ numbered (n + length es) fs
  unfolding numbered
  numbered-append n [] fs = ap (λ m. numbered m fs) (omega arith)
  numbered-append n (e ∷ es) fs =
      let e : n + suc (length es) ≡ n + 1 + length es = omega arith in
      rw (e, numbered-append (n + 1) es fs)

  pub extended_twice :
      (s : AdmissionStore) (es fs : List (String × Json))
      → extended (extended s es) fs ≡ extended s (es ++ fs)
  extended_twice s es fs =
      ap (λ l. record s { events = l })
        (append_assoc s.events (numbered (length s.events) es) _
          ∙ ap (λ l. s.events ++ l)
              (ap (λ m. numbered (length s.events) es ++ numbered m fs)
                  (omega (
                    arith,
                    length-append s.events (numbered (length s.events) es),
                    length-numbered (length s.events) es,
                  ))
                ∙ sym (numbered-append (length s.events) es fs)))

  -- The loop, where it does not raise, appends one event for each decision.
  pub record_decisions-extended :
      (fail : Bool) (index : ℕ) (ds : List AdmissionDecision) (s : AdmissionStore)
      → (record_decisions lib fail batch index ds s).0 ≡ ok tt
      → (record_decisions lib fail batch index ds s).1 ≡ extended s (map decision_entry ds)
  unfolding record_decisions recorded numbered
  record_decisions-extended fail index [] s h =
      ap (λ l. record s { events = l }) (sym (append-nil s.events))
  record_decisions-extended fail index (d ∷ ds) s h = elim (Bool-cases (fail && eqb index 0)) [
    | inl e ↦ cc (rw e at h)
    | inr e ↦ rw e (
        record_decisions-extended fail (suc index) ds (recorded lib batch d s) (rw e at h)
        ∙ extended_twice s (decision_entry d ∷ []) (map decision_entry ds))
  ]
