-- ===== src/Lifecycle/Lineage/Ordered.antt =====
-- The order of the notices, and what `_validate_lineage` accepts.
use axignal.Common.{
  ℕ, ◌≡◌, refl, sym, ◌↔◌, ◌&&◌, ◌||◌, Bool, true, false, none, some, List, [], ◌∷◌, map, All,
  All-map, All-unmap, ltb, eqb, text_le, arith, ok, traverse, ok_injective, subst, ◌>>=◌, >>=-eq-ok,
}
use mathlib.Core.List.{Perm}
use mathlib.Core.List.Perm
use axignal.Common.Order.{text_le_total, text_le_trans}
use axignal.Common.Sort.{sort_by, sort_by-perm, IsSortedBy, sort_by-IsSortedBy, All-sort_by}
use axignal.Common.Json.{Library}
use axignal.Lifecycle.Notice.{LifecycleNotice, reference}
use axignal.Lifecycle.Lineage.{date_key, key_le, order_notices, check_lineage, validate_lineage}
use axignal.Lifecycle.Lineage.Chain.{IsLineage}
use axignal.Lifecycle.Lineage.Accepted.{check_lineage_sound, check_lineage_complete}

key_le_total : (x y : ℕ × LifecycleNotice) → key_le x y ≡ false → key_le y x ≡ true
unfolding key_le
key_le_total (d, n) (e, m) h = ground (arith, text_le_total (reference n) (reference m))

key_le_trans :
    (x y z : ℕ × LifecycleNotice) → key_le x y ≡ true → key_le y z ≡ true → key_le x z ≡ true
unfolding key_le
key_le_trans (d, n) (e, m) (f, o) h k =
    ground (arith, text_le_trans (reference n) (reference m) (reference o))

module _ (lib : Library) where
  -- The day of a notice, where its issue date is valid.
  abbrev pub day : LifecycleNotice → ℕ
  day n = elim (lib.iso_day n.identity.issue_date) [ none ↦ 0 | some d ↦ d ]

  -- By day, then by reference.
  abbrev pub before : LifecycleNotice → LifecycleNotice → Bool
  before n m = ltb (day n) (day m) || (eqb (day n) (day m) && text_le (reference n) (reference m))

  abbrev IsKeyed : ℕ × LifecycleNotice → Type 0
  IsKeyed p = p.0 ≡ day p.1

  date_key_facts :
      (n m : LifecycleNotice) (d : ℕ) → date_key lib n ≡ ok (d, m) → (m ≡ n) × (d ≡ day m)
  unfolding date_key
  date_key_facts n m d h = ground arith

  traverse_keys :
      (ns : List LifecycleNotice) {keyed : List (ℕ × LifecycleNotice)}
      → traverse (date_key lib) ns ≡ ok keyed
      → (map (λ p. p.1) keyed ≡ ns) × All IsKeyed keyed
  unfolding traverse
  traverse_keys [] h = rw (sym (ok_injective h)) (refl, tt)
  traverse_keys (n ∷ ns) h =
      let (p, e, rest) =
        >>=-eq-ok (date_key lib n) (λ y. traverse (date_key lib) ns >>= λ ys. ok (y ∷ ys)) h in
      let (ps, f, last) = >>=-eq-ok (traverse (date_key lib) ns) (λ ys. ok (p ∷ ys)) rest in
      let (d, m) = p in
      let (same, keyed_by) = date_key_facts n m d e in
      let (maps, all_keyed) = traverse_keys ns f in
      rw (sym (ok_injective last)) ((λ i. same i ∷ maps i), (keyed_by, all_keyed))

  IsSortedBy-day :
      (ps : List (ℕ × LifecycleNotice))
      → All IsKeyed ps
      → IsSortedBy key_le ps
      → IsSortedBy before (map (λ p. p.1) ps)
  unfolding key_le
  IsSortedBy-day [] a s = tt
  IsSortedBy-day (p ∷ ps) a s = (below ps a.1 s.0, IsSortedBy-day ps a.1 s.1)
    where
      below :
          (qs : List (ℕ × LifecycleNotice))
          → All IsKeyed qs
          → All (λ q. key_le p q ≡ true) qs
          → All (λ m. before p.1 m ≡ true) (map (λ q. q.1) qs)
      below [] b t = tt
      below (q ∷ qs) b t = (rw (a.0, b.0) at t.0, below qs b.1 t.1)

  -- The notices that the lineage check walks are the given ones, by day and then by reference.
  pub order_notices-sorts :
      (ns : List LifecycleNotice) {out : List LifecycleNotice}
      → order_notices lib ns ≡ ok out
      → Perm out ns × IsSortedBy before out
  unfolding order_notices
  order_notices-sorts ns h =
      let (keyed, e, last) = >>=-eq-ok (traverse (date_key lib) ns) _ h in
      let (maps, all_keyed) = traverse_keys ns e in
      rw (sym (ok_injective last)) (
        subst (λ l. Perm (map (λ p. p.1) (sort_by key_le keyed)) l) maps
            (Perm.map (λ (p : ℕ × LifecycleNotice). p.1) (sort_by-perm key_le keyed)),
        IsSortedBy-day (sort_by key_le keyed) (All-sort_by key_le IsKeyed keyed all_keyed)
            (sort_by-IsSortedBy key_le key_le_total key_le_trans keyed),
      )

  -- What holds of every notice holds of the ordered ones.
  pub All-order_notices {κ} :
      (P : LifecycleNotice → Type κ) (ns : List LifecycleNotice) {out : List LifecycleNotice}
      → order_notices lib ns ≡ ok out
      → All P ns
      → All P out
  unfolding order_notices
  All-order_notices P ns h a =
      let (keyed, e, last) = >>=-eq-ok (traverse (date_key lib) ns) _ h in
      let (maps, _) = traverse_keys ns e in
      subst (λ l. All P l) (ok_injective last)
        (All-map P (λ p. p.1) (sort_by key_le keyed)
          (All-sort_by key_le (λ p. P p.1) keyed
            (All-unmap P (λ p. p.1) keyed (subst (λ l. All P l) (sym maps) a))))

  -- `validate_lineage` is the order, and then a lineage.
  pub validate_lineage-ordered :
      (ns out : List LifecycleNotice)
      → (validate_lineage lib ns ≡ ok out) ↔ ((order_notices lib ns ≡ ok out) × IsLineage out)
  unfolding validate_lineage
  validate_lineage-ordered ns out = (forth, back)
    where
      forth : validate_lineage lib ns ≡ ok out → (order_notices lib ns ≡ ok out) × IsLineage out
      forth h =
          let (o, e, last) = >>=-eq-ok (order_notices lib ns) check_lineage h in
          let (l, same) = check_lineage_sound o last in rw same (e, l)

      back : (order_notices lib ns ≡ ok out) × IsLineage out → validate_lineage lib ns ≡ ok out
      back (e, l) = rw e (check_lineage_complete out l)
