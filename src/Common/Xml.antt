-- ===== src/Common/Xml.antt =====
-- The element trees that the notice parsers read. defusedxml's `ElementTree`, the regular
-- expressions and Python's methods on texts are the fields of `XmlLibrary`.
use Prim.Native.Nat.{ℕ, suc}
use Prim.Native.String.{String}
use mathlib.Core.Bool.{Bool, ◌||◌}
use mathlib.Core.Option.{Option, none, some}
use mathlib.Core.List.{List, [], ◌∷◌}
use axignal.Common.Tests.{if◌then◌else◌}
use axignal.Common.Text.{is_empty, mem, occurs_in}
use axignal.Common.Integers.{ℤ}

-- `find(path, NS)` and `findall(path, NS)` from an element, `iter()` from the root, an element's tag,
-- text and attributes, and `fromstring`, `none` where it raises. `squeeze` is `" ".join(s.split())`,
-- `local_name` is `s.rsplit("}", 1)[-1]`.
pub record XmlLibrary : Type 1 where
  pub Element : Type 0
  pub from_string : String → Option Element
  pub tag : Element → String
  pub content : Element → Option String
  pub attribute : Element → String → Option String
  pub find : Element → String → Option Element
  pub findall : Element → String → List Element
  pub iter : Element → List Element
  pub byte_length : String → ℕ
  pub lower : String → String
  pub squeeze : String → String
  pub local_name : String → String
  pub is_uuid4 : String → Bool
  pub is_two_digits : String → Bool
  pub is_notice_reference : String → Bool
  pub to_int : String → Option ℤ

-- `b"<!doctype" in lowered or b"<!entity" in lowered`
unfoldable pub has_declaration : String → Bool
unfolding occurs_in
has_declaration lowered = occurs_in "<!doctype" lowered || occurs_in "<!entity" lowered

-- `value or None`
unfoldable pub non_empty : String → Option String
non_empty s = if is_empty s then none else some s

-- `[value for value in values if value]`
unfoldable pub drop_empty : List String → List String
drop_empty [] = []
drop_empty (s ∷ ss) = let rest = drop_empty ss in if is_empty s then rest else s ∷ rest

module _ (x : XmlLibrary) where
  open x use {Element, content, find, findall, squeeze, iter, local_name, tag}

  -- `_text`
  unfoldable pub text_of : Option Element → String
  text_of none = ""
  text_of (some e) = elim (content e) [ none ↦ "" | some s ↦ squeeze s ]

  unfoldable pub optional_text : Element → String → Option String
  unfolding text_of non_empty
  optional_text e path = non_empty (text_of (find e path))

  unfoldable pub texts_of : List Element → List String
  unfolding text_of
  texts_of [] = []
  texts_of (e ∷ es) = text_of (some e) ∷ texts_of es

  -- The texts at a path that are not empty.
  unfoldable pub found_texts : Element → String → List String
  unfolding texts_of drop_empty
  found_texts e path = drop_empty (texts_of (findall e path))

  unfoldable pub personal_names : List String
  personal_names =
      "Contact" ∷ "ElectronicMail" ∷ "FamilyName" ∷ "FirstName" ∷ "Person" ∷ "Telefax" ∷ "Telephone"
      ∷ []

  unfoldable pub count_personal : List Element → ℕ
  unfolding personal_names mem
  count_personal [] = 0
  count_personal (e ∷ es) =
      let rest = count_personal es in
      if mem (local_name (tag e)) personal_names then suc rest else rest
