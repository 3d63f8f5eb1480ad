-- ===== src/Kube/Dynamic.antt =====
-- Values of a dynamic Go type: what `interface{}` holds in the maps of a rendered object or of the
-- configuration of a database. The keys of a map are kept in ascending order, as in Base/Dict.antt.
use Prim.Native.Nat.{Ordering}
use Prim.Native.String.{compare}
use native.Mathlib.Decide.{ℕ_discrete}
use text.Mathlib.TextPositions.{eq_refl}
use unbind_operator.Base.{
  String, ℤ, Bool, true, Option, none, some, ◌==◌, eq_iff, if◌then◌else◌, arith, ◌≡◌, refl,
}
use unbind_operator.Base.Equal.{string_discrete}

mutual
  -- the entries of a map
  pub data Fields : Type 0 where
    field : String → Value → Fields → Fields
    end : Fields

  -- `[]interface{}`
  pub data Items : Type 0 where
    cons : Value → Items → Items
    nil : Items

  pub data Value : Type 0 where
    obj : Fields → Value
    arr : Items → Value
    str : String → Value
    int : ℤ → Value
    bool : Bool → Value
    null : Value

pub Value-discrete : Discrete Value
Value-discrete = hlevel (ℕ_discrete, string_discrete)

pub Fields-discrete : Discrete Fields
Fields-discrete = hlevel (ℕ_discrete, string_discrete)

abbrev is_before : String → String → Bool
is_before k j = elim (compare k j) [ Ordering.lt ↦ true | _ ↦ Bool.false ]

-- `v, ok := m[k]`
unfoldable pub get : String → Fields → Option Value
get k end = none
get k (field j v m) = if j == k then some v else get k m

-- `m[k] = v`
unfoldable pub set : String → Value → Fields → Fields
set k v end = field k v end
set k v (field j w m) =
    if j == k
    then field k v m
    else if is_before k j
    then field k v (field j w m)
    else field j w (set k v m)

-- `v.(map[string]interface{})`
abbrev pub as_fields : Option Value → Option Fields
as_fields (some (obj m)) = some m
as_fields _ = none

-- the entries whose key passes the test
unfoldable pub filter_keys : (String → Bool) → Fields → Fields
filter_keys p end = end
filter_keys p (field k v m) = let rest = filter_keys p m in if p k then field k v rest else rest

pub get-end : (k : String) → get k end ≡ none
unfolding get
get-end k = refl

pub get-set :
    (j k : String) (v : Value) (m : Fields)
    → get j (set k v m) ≡ (if k == j then some v else get j m)
unfolding get set
get-set j k v end = refl
get-set j k v (field i w m) = ground (arith, eq_iff k j, eq_iff i k, eq_iff i j, get-set j k v m)

pub get-filter_keys :
    (p : String → Bool) (k : String) (m : Fields)
    → get k (filter_keys p m) ≡ (if p k then get k m else none)
unfolding get filter_keys
get-filter_keys p k end = ground arith
get-filter_keys p k (field i w m) = ground (arith, eq_iff i k, get-filter_keys p k m)

pub ruleset fields_laws = (get-set, get-filter_keys, get-end, eq_refl)
