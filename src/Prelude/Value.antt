-- ===== src/Prelude/Value.antt =====
-- Values of JSON and YAML documents, as Python reads them: `dict`, `list`, `str`, `int`, `bool` and
-- `None`. Of the numbers only the natural ones are represented; a setting that is a fraction stands in a
-- smaller unit, since only `float`, a parameter, reads it.
use Prim.Native.Nat.{ℕ}
use Prim.Native.String.{String}
use mathlib.Core.Bool.{Bool, true, false, not}
use mathlib.Core.Option.{Option, none, some}
use mathlib.Core.List.{List, [], ◌∷◌}
use repo_mcp.Prelude.Classes.{◌==◌, ℕ_eq, String_eq}
use repo_mcp.Prelude.Tests.{if◌then◌else◌}

mutual
  pub data Value : Type 0 where
    null : Value
    bool : Bool → Value
    num : ℕ → Value
    str : String → Value
    arr : Items → Value
    obj : Fields → Value

  pub data Fields : Type 0 where
    end : Fields
    field : String → Value → Fields → Fields

  pub data Items : Type 0 where
    nil : Items
    cons : Value → Items → Items

unfoldable pub items : Items → List Value
items nil = []
items (cons v vs) = v ∷ items vs

unfoldable pub fields : Fields → List (String × Value)
fields end = []
fields (field k v fs) = (k, v) ∷ fields fs

-- `d.get(k)`: a document's keys are distinct
unfoldable pub get : String → Fields → Option Value
get k end = none
get k (field j v fs) = if j == k then some v else get k fs

-- `bool(v)`
unfoldable pub truthy : Value → Bool
truthy null = false
truthy (bool b) = b
truthy (num n) = not (n == 0)
truthy (str s) = not (s == "")
truthy (arr nil) = false
truthy (arr (cons v vs)) = true
truthy (obj end) = false
truthy (obj (field k v fs)) = true

-- `str(v)`; `repr` prints what is no text, in a way on which nothing depends
unfoldable pub text_of : (Value → String) → Value → String
text_of repr (str s) = s
text_of repr v = repr v
