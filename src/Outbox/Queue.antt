-- ===== src/Outbox/Queue.antt =====
-- The queues of the cache server, one list of texts each: `enqueue` and `dequeue` of the three queue
-- classes. The server's `rpush` appends and its `blpop` takes the first text.
use axignal.Common.{String, Option, none, some, List, [], ◌∷◌, ◌++◌, Result, ok, err, ◌>>=◌}
use axignal.Common.Json.{object, Fields}
use axignal.Outbox.Payload.{Exception, value_error, PayloadLibrary}
use axignal.Outbox.Jobs.{
  ResearchJob, AdmissionReviewJob, ProposalJob, research_payload, admission_payload,
  proposal_payload, research_job, admission_job, proposal_job,
}

-- A kind of job: `as_payload`, `from_payload`, and the message for a payload that is no object.
pub record JobKind (J : Type 0) : Type 0 where
  pub payload : J → Fields
  pub from_payload : Fields → Result Exception J
  pub no_object : String

module _ (lib : PayloadLibrary) where
  abbrev pub research : JobKind (ResearchJob lib)
  research = record {
    payload = research_payload lib;
    from_payload = research_job lib;
    no_object = "Research queue payload must be an object";
  }

  abbrev pub admission : JobKind (AdmissionReviewJob lib)
  admission = record {
    payload = admission_payload lib;
    from_payload = admission_job lib;
    no_object = "Admission queue payload must be an object";
  }

  abbrev pub proposal : JobKind (ProposalJob lib)
  proposal = record {
    payload = proposal_payload lib;
    from_payload = proposal_job lib;
    no_object = "Document proposal queue payload must be an object";
  }

  module _ {J : Type 0} (k : JobKind J) where
    unfoldable pub encode : J → String
    encode j = lib.dumps (object (k.payload j))

    unfoldable pub enqueue : J → List String → List String
    unfolding encode
    enqueue j queue = queue ++ encode j ∷ []

    unfoldable pub decode : String → Result Exception J
    decode encoded = do
      payload ← lib.loads encoded
      elim payload [ object fs ↦ k.from_payload fs | _ ↦ err (value_error k.no_object) ]

    -- The next job, if any, and the queue without its text.
    unfoldable pub dequeue : List String → Result Exception (Option J) × List String
    unfolding decode
    dequeue [] = (ok none, [])
    dequeue (encoded ∷ rest) = ((do j ← decode encoded; ok (some j)), rest)
