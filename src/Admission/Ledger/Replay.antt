-- ===== src/Admission/Ledger/Replay.antt =====
-- The result that is read off the decisions of a handoff, in whatever order they come.
use mathlib.Core.HLevel.{⊥_prop}
use mathlib.Core.Logic.{∥∥₁_elim}
use mathlib.Core.List.{Perm, Permᴰ, Memᴰ}
use mathlib.Core.List.Perm
use mathlib.Core.List.Memᴰ
use axignal.Common.{
  ◌≡◌, refl, sym, ap, ◌∙◌, subst, String, Bool, true, false, not, ◌&&◌, ◌||◌, Option, none, some,
  List, [], ◌∷◌, map, All, mem, ok, ◌==◌, eq_iff, Bool-cases, Option-cases, inl, inr, arith,
}
use axignal.Common.Order.{String_set}
use axignal.Common.Sorted.{All-Memᴰ}
use axignal.Admission.Types.{Outcome, DecisionRow, AdmissionRunResult}
use axignal.Admission.Ledger.{first_seen, from_keys, present, replayed}

mem-first_seen :
    (id : String) (seen xs : List String)
    → mem id (first_seen seen xs) ≡ (mem id xs && not (mem id seen))
unfolding mem first_seen
mem-first_seen id seen [] = refl
mem-first_seen id seen (x ∷ xs) =
    let rest = mem-first_seen id (x ∷ seen) xs in
    elim (Bool-cases (mem x seen)) [
      | inl known ↦ elim (Bool-cases (id == x)) [
        | inl e ↦
            let same : mem id seen ≡ true = ap (λ y. mem y seen) ((eq_iff id x).0 e) ∙ known in
            rw known (ground (arith, rest, e, same))
        | inr e ↦ rw known (ground (arith, rest, e))
      ]
      | inr fresh ↦ elim (Bool-cases (id == x)) [
        | inl e ↦
            let same : mem id seen ≡ false = ap (λ y. mem y seen) ((eq_iff id x).0 e) ∙ fresh in
            rw fresh (ground (arith, rest, e, same))
        | inr e ↦ rw fresh (ground (arith, rest, e))
      ]
    ]

pub mem-from_keys : (id : String) (xs : List String) → mem id (from_keys xs) ≡ mem id xs
unfolding from_keys mem
mem-from_keys id xs = ground (arith, mem-first_seen id [] xs)

names : String → Option String → Bool
names id none = false
names id (some other) = id == other

mem-present :
    (id : String) (r : DecisionRow) (rs : List DecisionRow)
    → mem id (present (r ∷ rs)) ≡ (names id r.canonical_claim_id || mem id (present rs))
unfolding present mem names
mem-present id r rs = elim (Option-cases r.canonical_claim_id) [
  | inl e ↦ rw e refl
  | inr (other, e) ↦ rw e refl
]

or_swap : (a b c : Bool) → (a || (b || c)) ≡ (b || (a || c))
or_swap a b c = ground arith

mem-present-Permᴰ :
    (id : String) (rs ss : List DecisionRow)
    → Permᴰ rs ss
    → mem id (present rs) ≡ mem id (present ss)
mem-present-Permᴰ id _ _ Permᴰ.nil = refl
mem-present-Permᴰ id _ _ (Permᴰ.cons {a} {b} {l₁ = rs} {l₂ = ss} e d) =
    mem-present id a rs
    ∙ ap (λ (r : DecisionRow). names id r.canonical_claim_id || mem id (present rs)) e
    ∙ ap (λ c. names id b.canonical_claim_id || c) (mem-present-Permᴰ id rs ss d)
    ∙ sym (mem-present id b ss)
mem-present-Permᴰ id _ _ (Permᴰ.swap {a} {b} {a'} {b'} {l} e f) =
    let name = λ (r : DecisionRow). names id r.canonical_claim_id in
    mem-present id a (b ∷ l)
    ∙ ap (λ c. name a || c) (mem-present id b l)
    ∙ or_swap (name a) (name b) (mem id (present l))
    ∙ ap (λ r. name r || (name a || mem id (present l))) f
    ∙ ap (λ r. name a' || (name r || mem id (present l))) e
    ∙ sym (mem-present id a' (b' ∷ l) ∙ ap (λ c. name a' || c) (mem-present id b' l))
mem-present-Permᴰ id _ _ (Permᴰ.trans {l₁ = rs} {l₂ = ss} {l₃ = ts} d c) =
    mem-present-Permᴰ id rs ss d ∙ mem-present-Permᴰ id ss ts c

Bool_set : IsSet Bool
Bool_set = hlevel

mem-present-Perm :
    (id : String) (rs ss : List DecisionRow)
    → Perm rs ss
    → mem id (present rs) ≡ mem id (present ss)
mem-present-Perm id rs ss p =
    ∥∥₁_elim p (Bool_set (mem id (present rs)) (mem id (present ss))) (mem-present-Permᴰ id rs ss)

-- `again` is a replay of `r`: the same batch, the same outcomes in some order, the same canonical
-- identifiers.
pub record IsReplayOf (r again : AdmissionRunResult) : Type 0 where
  pub batch_same : again.admission_batch_id ≡ r.admission_batch_id
  pub outcomes_same : Perm again.outcomes r.outcomes
  pub ids_same : (id : String) → mem id again.canonical_claim_ids ≡ mem id r.canonical_claim_ids
  pub marked : again.idempotent_replay ≡ true

-- The rows are the decisions of `r`.
pub record AreOf (batch_id : String) (r : AdmissionRunResult) (rows : List DecisionRow)
    : Type 0 where
  pub batch_eq : r.admission_batch_id ≡ some batch_id
  pub outcomes_eq : map (λ (row : DecisionRow). row.outcome) rows ≡ r.outcomes
  pub ids_eq : from_keys (present rows) ≡ r.canonical_claim_ids
  pub of_batch : All (λ (row : DecisionRow). row.admission_batch_id ≡ batch_id) rows

in_batch :
    (batch_id : String) (rows : List DecisionRow) (x : DecisionRow) (xs : List DecisionRow)
    → All (λ (row : DecisionRow). row.admission_batch_id ≡ batch_id) rows
    → Perm (x ∷ xs) rows
    → x.admission_batch_id ≡ batch_id
in_batch batch_id rows x xs all p =
    ∥∥₁_elim ((Perm.mem_iff p).0 ∣ Memᴰ.head refl ∣₁) (String_set x.admission_batch_id batch_id)
      (λ m. All-Memᴰ (λ (row : DecisionRow). row.admission_batch_id ≡ batch_id) x rows all m)

no_outcome :
    (r : AdmissionRunResult) (rows : List DecisionRow) (first : Outcome) (others : List Outcome)
    → Perm [] rows
    → map (λ (row : DecisionRow). row.outcome) rows ≡ r.outcomes
    → r.outcomes ≡ first ∷ others
    → ⊥
no_outcome r [] first others p same some_outcome = cc (same, some_outcome)
no_outcome r (x ∷ rows) first others p same some_outcome =
    ∥∥₁_elim ((Perm.mem_iff p).1 ∣ Memᴰ.head refl ∣₁) ⊥_prop Memᴰ.not-nil

-- The rows of a decision with an outcome, in any order, give a replay of it.
pub replayed-IsReplayOf :
    (batch_id : String) (r : AdmissionRunResult) (rows ds : List DecisionRow) (first : Outcome)
    (others : List Outcome)
    → AreOf batch_id r rows
    → Perm ds rows
    → r.outcomes ≡ first ∷ others
    → (again : AdmissionRunResult) × (replayed ds ≡ ok again) × IsReplayOf r again
unfolding replayed
replayed-IsReplayOf batch_id r rows [] first others of p some_outcome =
    absurd (no_outcome r rows first others p of.outcomes_eq some_outcome)
replayed-IsReplayOf batch_id r rows (x ∷ xs) first others of p some_outcome = (
  record {
    admission_batch_id = some x.admission_batch_id;
    canonical_claim_ids = from_keys (present (x ∷ xs));
    outcomes = map (λ (row : DecisionRow). row.outcome) (x ∷ xs);
    idempotent_replay = true;
  },
  refl,
  record {
    batch_same = ap some (in_batch batch_id rows x xs of.of_batch p) ∙ sym of.batch_eq;
    outcomes_same =
        subst (Perm (map (λ (row : DecisionRow). row.outcome) (x ∷ xs))) of.outcomes_eq
          (Perm.map (λ (row : DecisionRow). row.outcome) p);
    ids_same = λ id.
        mem-from_keys id (present (x ∷ xs))
        ∙ mem-present-Perm id (x ∷ xs) rows p
        ∙ sym (mem-from_keys id (present rows))
        ∙ ap (mem id) of.ids_eq;
    marked = refl;
  },
)
