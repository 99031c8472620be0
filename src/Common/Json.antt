-- ===== src/Common/Json.antt =====
-- JSON values as `json.loads` returns them, and the reads that the services make of them.
use Prim.Native.String.{String}
use Prim.Native.Nat.{zero}
use mathlib.Core.Bool.{Bool, true, false, ◌||◌, not}
use mathlib.Core.Option.{Option, none, some}
use text.Mathlib.Text.{◌==◌}
use codex_collaboration_coor.Common.Int.{ℤ, pos}
use codex_collaboration_coor.Common.Tests.{if◌then◌else◌}

-- A float is held as its `repr`. A `dict` lists its items, no key twice.
mutual
  pub data Json : Type 0 where
    null : Json
    bool : Bool → Json
    int : ℤ → Json
    float : String → Json
    str : String → Json
    arr : Items → Json
    obj : Fields → Json

  pub data Items : Type 0 where
    nil : Items
    cons : Json → Items → Items

  pub data Fields : Type 0 where
    end : Fields
    field : String → Json → Fields → Fields

-- `payload.get(key)`: `none` where the key is missing.
abbrev pub get : Fields → String → Option Json
get end k = none
get (field j v fs) k = let rest = get fs k in if j == k then some v else rest

-- The value if it is a `str`.
abbrev pub as_str : Option Json → Option String
as_str (some (str s)) = some s
as_str _ = none

-- The value if it is a `bool`.
abbrev pub as_bool : Option Json → Option Bool
as_bool (some (bool b)) = some b
as_bool _ = none

-- `bool(value)`
abbrev pub truthy : Json → Bool
truthy null = false
truthy (bool b) = b
truthy (int (pos zero)) = false
truthy (int _) = true
truthy (float s) = not (s == "0.0" || s == "-0.0")
truthy (str s) = not (s == "")
truthy (arr nil) = false
truthy (arr (cons _ _)) = true
truthy (obj end) = false
truthy (obj (field _ _ _)) = true

-- `None`, a missing key included, as JSON.
abbrev pub or_null : Option String → Json
or_null none = null
or_null (some s) = str s

-- `a or b`, over the results of `get`: `None` is false.
abbrev pub or_json : Option Json → Option Json → Option Json
or_json (some v) w = if truthy v then some v else w
or_json none w = w

-- `value is not None`
abbrev pub not_null : Option Json → Option Json
not_null (some null) = none
not_null v = v
