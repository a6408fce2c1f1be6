-- ===== src/Lifecycle/Assembler/Parsed.antt =====
-- The notices of a run that has the program's own parser.
use axignal.Common.{
  ◌≡◌, ap, Bool, String, List, [], ◌∷◌, All, All-weaken, Any, here, there, Result, ok, err,
  reject_if, not, traverse, >>=-eq-ok, ok_injective, subst,
}
use axignal.Common.Json.{Library}
use axignal.Common.Xml.{XmlLibrary}
use axignal.Common.Occurrence.{Any-item}
use axignal.Lifecycle.Notice.{LifecycleNotice, LifecycleError, no_notices, reparse_diverged}
use axignal.Lifecycle.Lineage.{validate_lineage}
use axignal.Lifecycle.Lineage.Ordered.{All-order_notices, validate_lineage-ordered}
use axignal.Lifecycle.Lineage.Chain.{IsLineage}
use axignal.Lifecycle.Evidence.{EvidenceObject, build_evidence}
use axignal.Lifecycle.Parser.{parse}
use axignal.Lifecycle.Parser.Kinds.{Described, parse-Described}
use axignal.Lifecycle.Assembler.{lifecycle_parser, passed_on, prepare, has_no_notice}

-- Every result of `traverse` comes from an item.
traverse-items {ℓ κ μ} :
    {E : Type κ} {A : Type ℓ} {B : Type μ} (f : A → Result E B) (xs : List A) (ys : List B)
    → traverse f xs ≡ ok ys
    → All (λ y. Any (λ x. f x ≡ ok y) xs) ys
unfolding traverse
traverse-items f [] ys h = subst (λ l. All (λ y. Any (λ x. f x ≡ ok y) []) l) (ok_injective h) tt
traverse-items f (x ∷ xs) ys h =
    let (y, first, h) = >>=-eq-ok (f x) _ h in
    let (rest, others, last) = >>=-eq-ok (traverse f xs) _ h in
    subst (λ l. All (λ z. Any (λ w. f w ≡ ok z) (x ∷ xs)) l) (ok_injective last)
      (
        here first,
        All-weaken (λ z. Any (λ w. f w ≡ ok z) xs) (λ z. Any (λ w. f w ≡ ok z) (x ∷ xs))
            (λ z a. there a) rest (traverse-items f xs rest others),
      )

passed_on-eq-ok :
    (r : Result String LifecycleNotice) (n : LifecycleNotice) → passed_on r ≡ ok n → r ≡ ok n
unfolding passed_on
passed_on-eq-ok (ok m) n h = ap ok (ok_injective h)
passed_on-eq-ok (err e) n h = cc h

module _ (x : XmlLibrary) (lib : Library)
    (same : List LifecycleNotice → List LifecycleNotice → Bool) where
  documents :
      (raws : List String) (n : LifecycleNotice)
      → Any (λ raw. passed_on (parse x lib raw) ≡ ok n) raws
      → Any (λ raw. parse x lib raw ≡ ok n) raws
  documents [] n a = elim a [ ]
  documents (r ∷ rs) n (here h) = here (passed_on-eq-ok (parse x lib r) n h)
  documents (r ∷ rs) n (there a) = there (documents rs n a)

  from_document :
      (raws : List String) (n : LifecycleNotice)
      → Any (λ raw. passed_on (parse x lib raw) ≡ ok n) raws
      → Any (λ raw. parse x lib raw ≡ ok n) raws × Described x n.identity
  from_document raws n a =
      let (raw, h) = Any-item raws a in
      (documents raws n a, parse-Described x lib raw n (passed_on-eq-ok (parse x lib raw) n h))

  -- With the program's own parser, each notice that the run goes on with is what the parser returned
  -- for one of the documents, and so has a procedure, its lots in order, and a kind with what goes with
  -- it; and the notices form a lineage.
  pub prepare-Described :
      (raws : List String) (notices : List LifecycleNotice) (evidence : List EvidenceObject)
      → prepare lib (lifecycle_parser x lib same) raws ≡ ok (notices, evidence)
      → All (λ n. Any (λ raw. parse x lib raw ≡ ok n) raws × Described x n.identity) notices
        × IsLineage notices
  unfolding prepare
  prepare-Described raws notices evidence ran =
      let pass : String → Result LifecycleError LifecycleNotice = λ r. passed_on (parse x lib r) in
      let (_, _, ran) = >>=-eq-ok (reject_if (has_no_notice raws) no_notices) _ ran in
      let (first, parsed, ran) = >>=-eq-ok (traverse pass raws) _ ran in
      let (second, _, ran) = >>=-eq-ok (traverse pass raws) _ ran in
      let (_, _, ran) = >>=-eq-ok (reject_if (not (same first second)) reparse_diverged) _ ran in
      let (ordered, valid, ran) = >>=-eq-ok (validate_lineage lib first) _ ran in
      let (made, _, last) = >>=-eq-ok (build_evidence lib ordered) _ ran in
      let (to, _) = validate_lineage-ordered lib first ordered in
      let (sorted, lineage) = to valid in
      let P : LifecycleNotice → Type 0 =
        λ n. Any (λ raw. parse x lib raw ≡ ok n) raws × Described x n.identity in
      let all =
        All-order_notices lib (λ n. Any (λ raw. pass raw ≡ ok n) raws) first sorted
          (traverse-items pass raws first parsed) in
      subst (λ l. All P l × IsLineage l) (ap (λ r. r.0) (ok_injective last))
        (
          All-weaken (λ n. Any (λ raw. pass raw ≡ ok n) raws) P (λ n a. from_document raws n a)
              ordered all,
          lineage,
        )
