-- ===== src/Value.antt =====
-- Values of unknown shape: what `JSON.parse` returns and what the bus reads fields of. A number is
-- an integer or, if `Number.isInteger` rejects it, its literal.
pub mod Equal
use deputy_agent.Prelude.{
  String, ℤ, Bool, true, false, ◌||◌, ◌&&◌, List, [], ◌∷◌, str_eq, if◌then◌else◌, ◌≡◌, refl, arith,
  eq_iff, any,
}

mutual
  pub data Value : Type 0 where
    undefined : Value
    null : Value
    bool : Bool → Value
    int : ℤ → Value
    float : String → Value
    str : String → Value
    arr : Items → Value
    obj : Fields → Value

  pub data Items : Type 0 where
    nil : Items
    cons : (item : Value) (items : Items) → Items

  -- an object's own properties, each key once
  pub data Fields : Type 0 where
    end : Fields
    field : (key : String) (value : Value) (fields : Fields) → Fields

-- `o[k]`
unfoldable pub property : String → Fields → Value
property k end = undefined
property k (field j v fs) = if str_eq j k then v else property k fs

-- `(v as Record<string, unknown>)[k]` for a `v` that is neither null nor undefined
unfoldable pub property_of : String → Value → Value
unfolding property
property_of k (obj fs) = property k fs
property_of k _ = undefined

-- `Object.keys(o)`
unfoldable pub keys : Fields → List String
keys end = []
keys (field k v fs) = k ∷ keys fs

unfoldable pub includes : List String → String → Bool
includes ks k = any (λ j. str_eq j k) ks

unfoldable pub is_plain_object : Value → Bool
is_plain_object (obj fs) = true
is_plain_object _ = false

-- `v ?? d`
unfoldable pub or_default : Value → Value → Value
or_default undefined d = d
or_default null d = d
or_default v d = v
