-- ===== src/Lifecycle/Lineage/Validated.antt =====
-- What `_validate_lineage` accepts and returns, without the sort.
use mathlib.Core.List.{Perm, Memᴰ}
use mathlib.Core.List.Perm
use mathlib.Core.List.Memᴰ
use mathlib.Core.Logic.{∥∥₁_elim}
use native.Mathlib.Nat.{ℕ_set}
use axignal.Common.{
  ℕ, ◌≡◌, refl, sym, ap, ◌∙◌, ◌↔◌, inl, inr, String, true, false, some, List, [], ◌∷◌, map, All,
  mem, arith, ok, traverse, traverse-cons, >>=-eq-ok, Option-cases, eq_iff,
}
use axignal.Common.Order.{text_le_antisym, String_set}
use axignal.Common.Sort.{IsSortedBy, sort_by}
use axignal.Common.Sorted.{Told, sorted_unique}
use axignal.Common.Json.{Library}
use axignal.Lifecycle.Notice.{LifecycleNotice, reference}
use axignal.Lifecycle.Lineage.{date_key, key_le, order_notices, validate_lineage}
use axignal.Lifecycle.Lineage.Chain.{IsLineage}
use axignal.Lifecycle.Lineage.Guarantees.{Fresh, IsLineage-followers}
use axignal.Lifecycle.Lineage.Ordered.{before, order_notices-sorts, validate_lineage-ordered}

LifecycleNotice_set : IsSet LifecycleNotice
LifecycleNotice_set = hlevel (String_set, ℕ_set)

mem-later : (s x : String) (seen : List String) → mem s (x ∷ seen) ≡ false → mem s seen ≡ false
unfolding mem
mem-later s x seen h = ground arith

mem-own : (s x : String) (seen : List String) → s ≡ x → mem s (x ∷ seen) ≡ true
unfolding mem
mem-own s x seen e = ground (arith, eq_iff s x)

Fresh-apart :
    (seen : List String) (ns : List LifecycleNotice) (n : LifecycleNotice)
    → Fresh seen (map reference ns)
    → Memᴰ n ns
    → mem (reference n) seen ≡ false
Fresh-apart seen [] n f m = absurd (Memᴰ.not-nil m)
Fresh-apart seen (x ∷ xs) n f m = elim (Memᴰ.cases_cons m) [
  | inl e ↦ ap (λ y. mem (reference y) seen) e ∙ f.0
  | inr later ↦
      mem-later (reference n) (reference x) seen (Fresh-apart (reference x ∷ seen) xs n f.1 later)
]

-- Where no reference is repeated, a notice is known by its reference.
Fresh-same :
    (seen : List String) (ns : List LifecycleNotice) (n m : LifecycleNotice)
    → Fresh seen (map reference ns)
    → Memᴰ n ns
    → Memᴰ m ns
    → reference n ≡ reference m
    → n ≡ m
Fresh-same seen [] n m f a b e = absurd (Memᴰ.not-nil a)
Fresh-same seen (x ∷ xs) n m f a b e = elim (Memᴰ.cases_cons a) [
  | inl n_first ↦ elim (Memᴰ.cases_cons b) [
    | inl m_first ↦ n_first ∙ sym m_first
    | inr later ↦ absurd (
        cc (
          mem-own (reference m) (reference x) seen (sym e ∙ ap reference n_first),
          Fresh-apart (reference x ∷ seen) xs m f.1 later,
        ))
  ]
  | inr earlier ↦ elim (Memᴰ.cases_cons b) [
    | inl m_first ↦ absurd (
        cc (
          mem-own (reference n) (reference x) seen (e ∙ ap reference m_first),
          Fresh-apart (reference x ∷ seen) xs n f.1 earlier,
        ))
    | inr later ↦ Fresh-same (reference x ∷ seen) xs n m f.1 earlier later e
  ]
]

pub IsLineage-Fresh : (ns : List LifecycleNotice) → IsLineage ns → Fresh [] (map reference ns)
IsLineage-Fresh [] l = elim l [ ]
IsLineage-Fresh (n ∷ ns) l = let (k, f, _) = IsLineage-followers n ns l in f

module _ (lib : Library) where
  -- The issue date of the notice is a date.
  abbrev pub IsDated : LifecycleNotice → Type 0
  IsDated n = (day : ℕ) × (lib.iso_day n.identity.issue_date ≡ some day)

  date_key-IsDated :
      (n : LifecycleNotice) (p : ℕ × LifecycleNotice) → date_key lib n ≡ ok p → IsDated n
  unfolding date_key
  date_key-IsDated n p h = elim (Option-cases (lib.iso_day n.identity.issue_date)) [
    | inl e ↦ absurd (cc (rw (e, date_key) at h))
    | inr found ↦ found
  ]

  IsDated-date_key : (n : LifecycleNotice) (d : IsDated n) → date_key lib n ≡ ok (d.0, n)
  unfolding date_key
  IsDated-date_key n d = rw (d.1, date_key) refl

  keys-IsDated :
      (ns : List LifecycleNotice) (keyed : List (ℕ × LifecycleNotice))
      → traverse (date_key lib) ns ≡ ok keyed
      → All IsDated ns
  unfolding traverse
  keys-IsDated [] keyed h = tt
  keys-IsDated (n ∷ ns) keyed h =
      let (p, e, rest) = >>=-eq-ok (date_key lib n) _ h in
      let (ps, f, last) = >>=-eq-ok (traverse (date_key lib) ns) _ rest in
      (date_key-IsDated n p e, keys-IsDated ns ps f)

  IsDated-keys :
      (ns : List LifecycleNotice)
      → All IsDated ns
      → (keyed : List (ℕ × LifecycleNotice)) × (traverse (date_key lib) ns ≡ ok keyed)
  unfolding traverse
  IsDated-keys [] a = ([], refl)
  IsDated-keys (n ∷ ns) (d, a) =
      let (keyed, e) = IsDated-keys ns a in
      ((d.0, n) ∷ keyed, traverse-cons (date_key lib) n ns (IsDated-date_key n d) e)

  order_notices-IsDated :
      (ns out : List LifecycleNotice) → order_notices lib ns ≡ ok out → All IsDated ns
  unfolding order_notices
  order_notices-IsDated ns out h =
      let (keyed, e, last) = >>=-eq-ok (traverse (date_key lib) ns) _ h in keys-IsDated ns keyed e

  IsDated-order_notices :
      (ns : List LifecycleNotice)
      → All IsDated ns
      → (out : List LifecycleNotice) × (order_notices lib ns ≡ ok out)
  unfolding order_notices
  IsDated-order_notices ns a =
      let (keyed, e) = IsDated-keys ns a in (map (λ p. p.1) (sort_by key_le keyed), rw e refl)

  before-reference :
      (n m : LifecycleNotice)
      → before lib n m ≡ true
      → before lib m n ≡ true
      → reference n ≡ reference m
  before-reference n m h k = ground (arith, text_le_antisym (reference n) (reference m))

  before-Told : (out : List LifecycleNotice) → Fresh [] (map reference out) → Told (before lib) out
  before-Told out f n m a b h k = ∥∥₁_elim a (LifecycleNotice_set n m) (λ c.
      ∥∥₁_elim b (LifecycleNotice_set n m)
        (λ d. Fresh-same [] out n m f c d (before-reference n m h k)))

  -- `validate_lineage` returns `out` exactly when the issue date of every notice is a date, `out` has
  -- the given notices, by day and then by reference, and they form a lineage.
  pub validate_lineage_iff :
      (ns out : List LifecycleNotice)
      → (validate_lineage lib ns ≡ ok out)
        ↔ (All IsDated ns × Perm out ns × IsSortedBy (before lib) out × IsLineage out)
  validate_lineage_iff ns out = (forth, back)
    where
      forth :
          validate_lineage lib ns ≡ ok out
          → All IsDated ns × Perm out ns × IsSortedBy (before lib) out × IsLineage out
      forth h =
          let (ordered, l) = (validate_lineage-ordered lib ns out).0 h in
          let (same, sorted) = order_notices-sorts lib ns ordered in
          (order_notices-IsDated ns out ordered, same, sorted, l)

      back :
          All IsDated ns × Perm out ns × IsSortedBy (before lib) out × IsLineage out
          → validate_lineage lib ns ≡ ok out
      back (dated, same, sorted, l) =
          let (o, ordered) = IsDated-order_notices ns dated in
          let (o_same, o_sorted) = order_notices-sorts lib ns ordered in
          let e : out ≡ o =
            sorted_unique (before lib) LifecycleNotice_set out o
              (before-Told out (IsLineage-Fresh out l)) sorted o_sorted
              (Perm.trans same (Perm.symm o_same)) in
          (validate_lineage-ordered lib ns out).1 (ordered ∙ ap ok (sym e), l)
