-- ===== src/Outbox/Payload.antt =====
-- Payloads: Python's dictionaries as JSON values, and how the code reads them. UUIDs, `json` and the
-- conversions of values of other types are the fields of `PayloadLibrary`.
use axignal.Common.{
  ℕ, String, Bool, true, false, Option, none, some, eqb, ◌==◌, ◌⧺◌, if◌then◌else◌, Result, ok, err,
  ◌>>=◌,
}
use axignal.Common.Integers.{ℤ, pos}
use axignal.Common.Json.{Json, boolean, number, text, object, Fields, end, field}

-- An exception: its class's name and its message.
pub record Exception : Type 0 where
  pub class_name : String
  pub message : String

abbrev pub value_error : String → Exception
value_error m = record { class_name = "ValueError"; message = m }

-- `f"{exc.__class__.__name__}: {exc}"`
unfoldable pub describe : Exception → String
describe e = e.class_name ⧺ ": " ⧺ e.message

-- `UUID(s)`, `str(u)`, `repr(s)` of a key, `str`, `int` and `dict` of values that the clauses below
-- leave to Python, `json.dumps(payload, sort_keys=True, separators=(",", ":"))` and `json.loads`.
pub record PayloadLibrary : Type 1 where
  pub Uuid : Type 0
  pub parse_uuid : String → Result Exception Uuid
  pub print_uuid : Uuid → String
  pub repr : String → String
  pub str_other : Json → String
  pub int_other : Json → Result Exception ℤ
  pub dict_other : Json → Result Exception Fields
  pub dumps : Json → String
  pub loads : String → Result Exception Json

-- `payload.get(key)`
unfoldable pub lookup : String → Fields → Option Json
lookup k end = none
lookup k (field j v fs) = if j == k then some v else lookup k fs

-- `payload.get(key) == n`, for Python's numbers and Booleans.
unfoldable pub is_number : ℕ → Option Json → Bool
is_number n (some (number m)) = eqb m n
is_number n (some (boolean true)) = eqb n 1
is_number n (some (boolean false)) = eqb n 0
is_number n _ = false

-- `payload.get(key) == s`
unfoldable pub is_text : String → Option Json → Bool
is_text s (some (text t)) = t == s
is_text s _ = false

module _ (lib : PayloadLibrary) where
  -- `payload[key]`
  unfoldable pub item : String → Fields → Result Exception Json
  unfolding lookup
  item k fs = elim (lookup k fs) [
    | none ↦ err (record { class_name = "KeyError"; message = lib.repr k })
    | some v ↦ ok v
  ]

  -- `str(value)`
  unfoldable pub str_of : Json → String
  str_of (text s) = s
  str_of j = lib.str_other j

  -- `int(value)`
  unfoldable pub int_of : Json → Result Exception ℤ
  int_of (number n) = ok (pos n)
  int_of (boolean true) = ok (pos 1)
  int_of (boolean false) = ok (pos 0)
  int_of j = lib.int_other j

  -- `dict(value)`
  unfoldable pub dict_of : Json → Result Exception Fields
  dict_of (object fs) = ok fs
  dict_of j = lib.dict_other j

  -- `str(payload[key])`
  unfoldable pub str_item : String → Fields → Result Exception String
  unfolding item str_of
  str_item k fs = do j ← item k fs; ok (str_of j)

  -- `UUID(str(payload[key]))`
  unfoldable pub uuid_item : String → Fields → Result Exception lib.Uuid
  unfolding str_item
  uuid_item k fs = do s ← str_item k fs; lib.parse_uuid s

  -- `int(payload.get(key, default))`
  unfoldable pub int_item : String → ℕ → Fields → Result Exception ℤ
  unfolding lookup int_of
  int_item k default fs = elim (lookup k fs) [ none ↦ ok (pos default) | some v ↦ int_of v ]
