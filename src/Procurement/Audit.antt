-- ===== src/Procurement/Audit.antt =====
-- Which details an audit event may hold.
use axignal.Common.{
  ◌≡◌, refl, ◌↔◌, String, true, false, List, [], ◌∷◌, ◌++◌, mem, Any, here, there, ok,
  reject_if-eq-ok, arith, Bool-cases, inl, inr, subst, ap, ◌⊎◌,
}
use axignal.Common.Occurrence.{Any-left, Any-right}
use axignal.Common.Json.{
  Json, null, boolean, number, text, array, object, Items, nil, cons, Fields, end, field, Library,
}
use axignal.Procurement.{
  prohibited_keys, intersects, iter_keys, field_keys, item_keys, reject_contact_replication,
}

-- A key of a dictionary in the value, at some depth of dictionaries and lists.
mutual
  pub data KeyIn (k : String) : Json → Type 0 where
    in_object : {fs : Fields} → KeyInFields k fs → KeyIn k (object fs)
    in_array : {js : Items} → KeyInItems k js → KeyIn k (array js)

  pub data KeyInFields (k : String) : Fields → Type 0 where
    this_key : {j : String} {v : Json} {fs : Fields} → j ≡ k → KeyInFields k (field j v fs)
    in_value : {j : String} {v : Json} {fs : Fields} → KeyIn k v → KeyInFields k (field j v fs)
    in_rest :
        {j : String} {v : Json} {fs : Fields} → KeyInFields k fs → KeyInFields k (field j v fs)

  pub data KeyInItems (k : String) : Items → Type 0 where
    in_item : {j : Json} {js : Items} → KeyIn k j → KeyInItems k (cons j js)
    in_others : {j : Json} {js : Items} → KeyInItems k js → KeyInItems k (cons j js)

Any-split : {A : Type 0} {P : A → Type 0} (xs ys : List A) → Any P (xs ++ ys) → Any P xs ⊎ Any P ys
Any-split [] ys a = inr a
Any-split (x ∷ xs) ys (here p) = inl (here p)
Any-split (x ∷ xs) ys (there a) = elim (Any-split xs ys a) [ inl b ↦ inl (there b) | inr b ↦ inr b ]

intersects-none :
    (xs ys : List String) (s : String)
    → intersects xs ys ≡ false
    → Any (λ x. x ≡ s) xs
    → mem s ys ≡ false
unfolding intersects
intersects-none [] ys s h a = elim a [ ]
intersects-none (x ∷ xs) ys s h (here e) = subst (λ t. mem t ys ≡ false) e (ground arith)
intersects-none (x ∷ xs) ys s h (there a) = intersects-none xs ys s (ground arith) a

intersects-some : (xs ys : List String) → intersects xs ys ≡ true → Any (λ x. mem x ys ≡ true) xs
unfolding intersects
intersects-some [] ys h = cc h
intersects-some (x ∷ xs) ys h = elim (Bool-cases (mem x ys)) [
  | inl e ↦ here e
  | inr e ↦ there (intersects-some xs ys (ground arith))
]

module _ (lib : Library) where
  mutual
    unfolding iter_keys field_keys item_keys

    keys_complete :
        (k : String) (j : Json) → KeyIn k j → Any (λ x. x ≡ lib.casefold k) (iter_keys lib j)
    keys_complete k (object fs) (in_object i) = fields_complete k fs i
    keys_complete k (array js) (in_array i) = items_complete k js i
    keys_complete k null i = elim i [ ]
    keys_complete k (boolean b) i = elim i [ ]
    keys_complete k (number n) i = elim i [ ]
    keys_complete k (text s) i = elim i [ ]

    fields_complete :
        (k : String) (fs : Fields)
        → KeyInFields k fs
        → Any (λ x. x ≡ lib.casefold k) (field_keys lib fs)
    fields_complete k (field j v fs) (this_key e) = here (ap lib.casefold e)
    fields_complete k (field j v fs) (in_value i) =
        there (Any-left (iter_keys lib v) (field_keys lib fs) (keys_complete k v i))
    fields_complete k (field j v fs) (in_rest i) =
        there (Any-right (iter_keys lib v) (field_keys lib fs) (fields_complete k fs i))
    fields_complete k end i = elim i [ ]

    items_complete :
        (k : String) (js : Items)
        → KeyInItems k js
        → Any (λ x. x ≡ lib.casefold k) (item_keys lib js)
    items_complete k nil i = elim i [ ]
    items_complete k (cons j js) (in_item i) =
        Any-left (iter_keys lib j) (item_keys lib js) (keys_complete k j i)
    items_complete k (cons j js) (in_others i) =
        Any-right (iter_keys lib j) (item_keys lib js) (items_complete k js i)

  module _ {P : String → Type 0} where
    mutual
      unfolding iter_keys field_keys item_keys

      keys_sound :
          (j : Json) → Any P (iter_keys lib j) → (k : String) × KeyIn k j × P (lib.casefold k)
      keys_sound (object fs) a = let (k, i, p) = fields_sound fs a in (k, in_object i, p)
      keys_sound (array js) a = let (k, i, p) = items_sound js a in (k, in_array i, p)
      keys_sound null a = elim a [ ]
      keys_sound (boolean b) a = elim a [ ]
      keys_sound (number n) a = elim a [ ]
      keys_sound (text s) a = elim a [ ]

      fields_sound :
          (fs : Fields)
          → Any P (field_keys lib fs)
          → (k : String) × KeyInFields k fs × P (lib.casefold k)
      fields_sound end a = elim a [ ]
      fields_sound (field j v fs) (here p) = (j, this_key refl, p)
      fields_sound (field j v fs) (there a) =
          elim (Any-split (iter_keys lib v) (field_keys lib fs) a) [
            | inl b ↦ let (k, i, p) = keys_sound v b in (k, in_value i, p)
            | inr b ↦ let (k, i, p) = fields_sound fs b in (k, in_rest i, p)
          ]

      items_sound :
          (js : Items)
          → Any P (item_keys lib js)
          → (k : String) × KeyInItems k js × P (lib.casefold k)
      items_sound nil a = elim a [ ]
      items_sound (cons j js) a = elim (Any-split (iter_keys lib j) (item_keys lib js) a) [
        | inl b ↦ let (k, i, p) = keys_sound j b in (k, in_item i, p)
        | inr b ↦ let (k, i, p) = items_sound js b in (k, in_others i, p)
      ]

  -- The details of an audit event are accepted exactly when no key of theirs, at any depth of
  -- dictionaries and lists, is a prohibited one once its case is folded.
  pub reject_contact_replication_iff :
      (details : Fields)
      → (reject_contact_replication lib details ≡ ok tt)
        ↔ ((k : String) → KeyIn k (object details) → mem (lib.casefold k) prohibited_keys ≡ false)
  unfolding reject_contact_replication
  reject_contact_replication_iff details =
      let keys = iter_keys lib (object details) in
      (
        (λ h k i.
            intersects-none keys prohibited_keys (lib.casefold k)
              (reject_if-eq-ok (intersects keys prohibited_keys)
                "Audit details must not replicate contact endpoints or message bodies" h)
              (keys_complete k (object details) i)),
        (λ f. elim (Bool-cases (intersects keys prohibited_keys)) [
          | inl e ↦
              let (k, i, p) =
                keys_sound (object details) (intersects-some keys prohibited_keys e) in
              let no = f k i in ground arith
          | inr e ↦ rw (reject_contact_replication, e) refl
        ]),
      )
