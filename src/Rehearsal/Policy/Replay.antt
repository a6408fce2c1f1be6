-- ===== src/Rehearsal/Policy/Replay.antt =====
-- What `decide` does to the store, and what it replays.
use mathlib.Core.List.{Perm}
use axignal.Common.Order.{sort_by-perm_texts}
use axignal.Common.{refl, ◌≡◌, String, Bool, false, none, some, List, map, arith, ok}
use axignal.Common.Json.{Library}
use axignal.Rehearsal.Context.{AdmissionContext, product_admission_ready, sandbox_ready}
use axignal.Rehearsal.Claim.{fingerprint}
use axignal.Rehearsal.Decision.{RehearsalResult}
use axignal.Rehearsal.Store.{AdmissionStore, existing, as_replay}
use axignal.Rehearsal.Store.Ledger.{
  IsConsistent, commit-IsConsistent, existing-commit, existing-replay,
}
use axignal.Rehearsal.Policy.{
  CandidateEnvelope, ParsedDocument, evaluate_candidate, idempotency_key, blocked_decision,
  unstored, decide_parsed,
}

-- Neither gate of the context is open.
abbrev pub IsBlocked : AdmissionContext → Type 0
IsBlocked c = (product_admission_ready c ≡ false) × (sandbox_ready c ≡ false)

-- Two contexts that the idempotency key does not tell apart.
pub record SameKeyFields (c d : AdmissionContext) : Type 0 where
  pub source : c.source_state ≡ d.source_state
  pub policy : c.policy_state ≡ d.policy_state
  pub sandbox : c.sandbox_authorised ≡ d.sandbox_authorised

idempotency_key-same :
    (lib : Library) (hash : String) (cs ds : List CandidateEnvelope) (c d : AdmissionContext)
    → Perm (map (λ e. fingerprint lib e.candidate) cs) (map (λ e. fingerprint lib e.candidate) ds)
    → SameKeyFields c d
    → idempotency_key lib hash cs c ≡ idempotency_key lib hash ds d
unfolding idempotency_key
idempotency_key-same lib hash cs ds c d same k =
    let sorted = sort_by-perm_texts _ _ same in rw (sorted, k.source, k.policy, k.sandbox) refl

replay_of_existing :
    (lib : Library) (parsed : ParsedDocument) (candidates : List CandidateEnvelope)
    (context : AdmissionContext) (fail : Bool) (batch : String) (s : AdmissionStore)
    {r : RehearsalResult}
    → existing (idempotency_key lib parsed.raw_content_hash candidates context) s ≡ some r
    → decide_parsed lib parsed candidates context fail batch s ≡ (ok r, s)
unfolding decide_parsed
replay_of_existing lib parsed candidates context fail batch s h = ground arith

module _ (lib : Library) (parsed : ParsedDocument) (candidates : List CandidateEnvelope)
    (context : AdmissionContext) (fail : Bool) (batch : String) (s : AdmissionStore) where
  -- `decide` keeps the store consistent, whatever it is given.
  pub decide_parsed-IsConsistent :
      IsConsistent s → IsConsistent (decide_parsed lib parsed candidates context fail batch s).1
  unfolding decide_parsed
  decide_parsed-IsConsistent c = ground (
    arith,
    commit-IsConsistent lib (idempotency_key lib parsed.raw_content_hash candidates context)
        (map (λ e. evaluate_candidate lib e (map (fingerprint lib) parsed.candidate_claims) context)
          candidates)
        fail batch s c,
  )

  -- While neither gate is open and the key is new, `decide` answers each candidate, in order, with
  -- a blocked decision that rederives nothing, and the store is as before.
  pub decide_parsed-blocked :
      IsBlocked context
      → existing (idempotency_key lib parsed.raw_content_hash candidates context) s ≡ none
      → decide_parsed lib parsed candidates context fail batch s
        ≡ (ok (unstored (map (blocked_decision lib context) candidates)), s)
  unfolding decide_parsed
  decide_parsed-blocked b e = ground arith

  decide_parsed-stored :
      {r : RehearsalResult} {s' : AdmissionStore}
      → ¬ IsBlocked context
      → decide_parsed lib parsed candidates context fail batch s ≡ (ok r, s')
      → existing (idempotency_key lib parsed.raw_content_hash candidates context) s'
        ≡ some (as_replay r)
  unfolding decide_parsed
  decide_parsed-stored {r} {s'} ready h =
      let key : String = idempotency_key lib parsed.raw_content_hash candidates context in
      ground (
        arith,
        existing-replay key s {r = r},
        existing-commit lib key
            (map
              (λ e.
                evaluate_candidate lib e (map (fingerprint lib) parsed.candidate_claims) context)
              candidates)
            fail batch s {r = r} {s' = s'},
      )

  -- A result that was decided while a gate was open is replayed for the same document with every
  -- context of the same source state, policy state and sandbox permission and every batch of
  -- candidates of the same fingerprints in any order: the kill switch, the rights and the
  -- producers are not looked at again.
  pub decide_parsed-replays :
      (candidates' : List CandidateEnvelope) (context' : AdmissionContext) (fail' : Bool)
      (batch' : String) {r : RehearsalResult} {s' : AdmissionStore}
      → ¬ IsBlocked context
      → decide_parsed lib parsed candidates context fail batch s ≡ (ok r, s')
      → Perm
          (map (λ e. fingerprint lib e.candidate) candidates')
          (map (λ e. fingerprint lib e.candidate) candidates)
      → SameKeyFields context' context
      → decide_parsed lib parsed candidates' context' fail' batch' s' ≡ (ok (as_replay r), s')
  decide_parsed-replays candidates' context' fail' batch' {r} {s'} ready h same k =
      let key : String = idempotency_key lib parsed.raw_content_hash candidates context in
      let same_key : idempotency_key lib parsed.raw_content_hash candidates' context' ≡ key =
        idempotency_key-same lib parsed.raw_content_hash candidates' candidates context' context
          same k in
      replay_of_existing lib parsed candidates' context' fail' batch' s'
        (rw same_key (decide_parsed-stored ready h))
