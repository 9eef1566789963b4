-- ===== src/Python.antt =====
-- What the package uses of Python's standard library: JSON values as `json.loads` returns them, and
-- the functions of the library that are not spelled out, as a record of operations.
use quidz.Prelude.{ℕ, String, str_eq, Bool, true, false, Option, List, if◌then◌else◌}
use quidz.Prelude.Int.{ℤ}
use quidz.Errors.{Result}

-- A float is kept as its `str`, since the package never computes with one from a payload.
mutual
  pub data Value : Type 0 where
    null : Value
    bool : Bool → Value
    int : ℤ → Value
    float : String → Value
    str : String → Value
    obj : Fields → Value
    arr : Items → Value

  pub data Fields : Type 0 where
    end : Fields
    field : String → Value → Fields → Fields

  pub data Items : Type 0 where
    nil : Items
    cons : Value → Items → Items

-- `source.get(key)`, where `None` is also what a missing key gives.
unfoldable pub get : Fields → String → Value
get end key = null
get (field k v rest) key = if str_eq k key then v else get rest key

-- `key in source`
unfoldable pub has_key : Fields → String → Bool
has_key end key = false
has_key (field k v rest) key = if str_eq k key then true else has_key rest key

pub record Python : Type 1 where
  -- `json.loads` on the bytes of a body.
  pub loads : List ℕ → Result Value
  -- `str(value)`, `text.strip().lower()` and `text.upper()`.
  pub to_str : Value → String
  pub strip_lower : String → String
  pub upper : String → String
  -- `datetime.fromisoformat`, with `None` for its ValueError; times are in ticks.
  pub Datetime : Type 0
  pub fromisoformat : String → Option Datetime
  pub has_tzinfo : Datetime → Bool
  pub replace_utc : Datetime → Datetime
  pub timestamp : Datetime → ℤ
