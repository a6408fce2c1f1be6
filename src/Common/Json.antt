-- ===== src/Common/Json.antt =====
-- The values that the program hashes and puts in audit payloads, and the standard library's
-- functions that it applies to them.
use Prim.Native.Nat.{ℕ}
use Prim.Native.String.{String}
use mathlib.Core.Bool.{Bool}
use mathlib.Core.Option.{Option, none, some}
use mathlib.Core.List.{List, [], ◌∷◌, map}
use axignal.Common.Text.{◌⧺◌}

mutual
  pub data Json : Type 0 where
    null : Json
    boolean : Bool → Json
    number : ℕ → Json
    text : String → Json
    array : Items → Json
    object : Fields → Json

  pub data Items : Type 0 where
    nil : Items
    cons : Json → Items → Items

  pub data Fields : Type 0 where
    end : Fields
    field : String → Json → Fields → Fields

unfoldable pub items : List Json → Items
items [] = nil
items (j ∷ js) = cons j (items js)

unfoldable pub fields : List (String × Json) → Fields
fields [] = end
fields ((k, j) ∷ rest) = field k j (fields rest)

unfoldable pub obj : List (String × Json) → Json
unfolding fields
obj kvs = object (fields kvs)

unfoldable pub list {ℓ} : {A : Type ℓ} → (A → Json) → List A → Json
unfolding items
list f xs = array (items (map f xs))

unfoldable pub texts : List String → Json
unfolding list
texts xs = list text xs

unfoldable pub optional {ℓ} : {A : Type ℓ} → (A → Json) → Option A → Json
optional f none = null
optional f (some a) = f a

-- `json.dumps` in its canonical form, `repr`, the hexadecimal SHA-256 of a text, `str.casefold`, and
-- `date.fromisoformat(s[:10])` as a day number, `none` where it raises.
pub record Library : Type 0 where
  pub dumps : Json → String
  pub repr : Json → String
  pub sha256_hex : String → String
  pub casefold : String → String
  pub iso_day : String → Option ℕ

unfoldable pub sha256_of : Library → String → String
sha256_of lib s = "sha256:" ⧺ lib.sha256_hex s
