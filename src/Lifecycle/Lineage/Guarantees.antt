-- ===== src/Lifecycle/Lineage/Guarantees.antt =====
-- What follows from a lineage: unique references, one initial notice, stable lots, and silence after a
-- cancellation.
use axignal.Common.{
  ◌≡◌, ◌⊎◌, inl, inr, refl, String, true, false, List, [], ◌∷◌, ◌++◌, map, All, mem, mem-subset,
}
use axignal.Lifecycle.Notice.{
  LifecycleNotice, competition_initial, notice_cancellation, procedure_result, reference, kind,
}
use axignal.Lifecycle.Lineage.Chain.{
  is_cancellation, is_change, Link, change, result, Chain, done, link, IsLineage, begin,
}

-- No text of `xs` stands in it twice, nor in `seen`.
abbrev pub Fresh : List String → List String → Type 0
Fresh seen [] = Unit
Fresh seen (x ∷ xs) = (mem x seen ≡ false) × Fresh (x ∷ seen) xs

-- What every later notice of a lineage is: a change or a result of the same procedure, over lots of
-- the initial notice.
pub record IsFollower (first n : LifecycleNotice) : Type 0 where
  pub kinds : (is_change (kind n) ≡ true) ⊎ (kind n ≡ procedure_result)
  pub procedure : n.identity.procedure_identifier ≡ first.identity.procedure_identifier
  pub lots : (s : String) → mem s n.identity.lot_ids ≡ true → mem s first.identity.lot_ids ≡ true

Link-Fresh :
    {p : String} {l n next : LifecycleNotice} {refs : List String}
    → Link p l refs n next
    → mem (reference n) refs ≡ false
Link-Fresh (change _ _ _ _ f _) = f
Link-Fresh (result _ _ f _) = f

Chain-Fresh :
    {p : String} {l : LifecycleNotice} {refs : List String} {ns : List LifecycleNotice}
    → Chain p l refs ns
    → Fresh refs (map reference ns)
Chain-Fresh done = tt
Chain-Fresh (link k c) = (Link-Fresh k, Chain-Fresh c)

Link-IsFollower :
    {l n next : LifecycleNotice} {refs : List String} (first : LifecycleNotice)
    → ((s : String) → mem s l.identity.lot_ids ≡ true → mem s first.identity.lot_ids ≡ true)
    → Link first.identity.procedure_identifier l refs n next
    → IsFollower first n
      × ((s : String) → mem s next.identity.lot_ids ≡ true → mem s first.identity.lot_ids ≡ true)
Link-IsFollower {l} {n} first within (change k _ _ lots _ p) = (
  record { kinds = inl k; procedure = p; lots = λ s. rw lots (within s) },
  λ s. rw lots (within s),
)
Link-IsFollower {l} {n} first within (result k lots _ p) = (
  record {
    kinds = inr k;
    procedure = p;
    lots = λ s m. within s (mem-subset s n.identity.lot_ids l.identity.lot_ids lots m);
  },
  within,
)

Chain-IsFollower :
    (first : LifecycleNotice) {l : LifecycleNotice} {refs : List String} {ns : List LifecycleNotice}
    → ((s : String) → mem s l.identity.lot_ids ≡ true → mem s first.identity.lot_ids ≡ true)
    → Chain first.identity.procedure_identifier l refs ns
    → All (IsFollower first) ns
Chain-IsFollower first within done = tt
Chain-IsFollower first within (link k c) =
    let (f, within') = Link-IsFollower first within k in (f, Chain-IsFollower first within' c)

-- In a lineage no reference is repeated, the first notice is the initial one, and every later one is
-- a change or a result of the same procedure over lots of the first.
pub IsLineage-followers :
    (n : LifecycleNotice) (ns : List LifecycleNotice)
    → IsLineage (n ∷ ns)
    → (kind n ≡ competition_initial) × Fresh [] (map reference (n ∷ ns)) × All (IsFollower n) ns
unfolding mem
IsLineage-followers n ns (begin k c) = (k, (refl, Chain-Fresh c), Chain-IsFollower n (λ s h. h) c)

Chain-closed :
    {p : String} {l : LifecycleNotice} {refs : List String} {ns : List LifecycleNotice}
    → is_cancellation (kind l) ≡ true
    → Chain p l refs ns
    → All (λ n. kind n ≡ procedure_result) ns
Chain-closed e done = tt
Chain-closed e (link (change _ open_ _ _ _ _) c) = absurd (cc (e, open_))
Chain-closed e (link (result k _ _ _) c) = (k, Chain-closed e c)

Chain-split :
    (before after : List LifecycleNotice) (c : LifecycleNotice) {p : String} {l : LifecycleNotice}
    {refs : List String}
    → kind c ≡ notice_cancellation
    → Chain p l refs (before ++ c ∷ after)
    → All (λ n. kind n ≡ procedure_result) after
Chain-split [] after c e (link (change _ _ _ _ _ _) rest) = Chain-closed (rw e) rest
Chain-split [] after c e (link (result k _ _ _) rest) = absurd (cc (e, k))
Chain-split (b ∷ bs) after c e (link k rest) = Chain-split bs after c e rest

-- After a cancellation of the notice only results may follow: no correction, and no second
-- cancellation.
pub IsLineage-closed :
    (before after : List LifecycleNotice) (c : LifecycleNotice)
    → kind c ≡ notice_cancellation
    → IsLineage (before ++ c ∷ after)
    → All (λ n. kind n ≡ procedure_result) after
IsLineage-closed [] after c e (begin k _) = absurd (cc (e, k))
IsLineage-closed (b ∷ bs) after c e (begin k rest) = Chain-split bs after c e rest
