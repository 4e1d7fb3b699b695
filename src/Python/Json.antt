-- ===== src/Python/Json.antt =====
-- The values that `json.loads` returns and `json.dumps` takes, and the operations of a `dict`.
use par.Prelude.{
  ℕ, ◌≡◌, refl, Bool, true, false, not, Option, none, some, arith, ◌==◌, eq_iff, String,
  if◌then◌else◌, is_some,
}
use par.Python.Int.{ℤ, is_zero}

-- `dec m k` is the number m / 10^k, for what Python reads as a float: a decimal stands for the
-- double nearest to it. A dict is a list of pairs in insertion order.
mutual
  pub data Json : Type 0 where
    null : Json
    bool : Bool → Json
    int : ℤ → Json
    dec : ℤ → ℕ → Json
    str : String → Json
    arr : Items → Json
    obj : Fields → Json

  pub data Items : Type 0 where
    nil : Items
    cons : Json → Items → Items

  pub data Fields : Type 0 where
    end : Fields
    field : String → Json → Fields → Fields

-- `d.get(k)`, with `none` for a missing key.
abbrev pub get : String → Fields → Option Json
get k end = none
get k (field j v fs) = if j == k then some v else get k fs

-- `k in d`
abbrev pub contains : String → Fields → Bool
contains k fs = is_some (get k fs)

-- `d.get(k, default)`
abbrev pub get_or : String → Json → Fields → Json
get_or k d fs = elim (get k fs) [ none ↦ d | some v ↦ v ]

-- `d[k] = v`: in place, or at the end for a new key.
unfoldable pub put : String → Json → Fields → Fields
put k v end = field k v end
put k v (field j w fs) = if j == k then field j v fs else field j w (put k v fs)

-- `d.setdefault(k, v)`
unfoldable pub set_default : String → Json → Fields → Fields
unfolding put
set_default k v fs = if contains k fs then fs else put k v fs

-- `bool(x)`
abbrev pub truthy : Json → Bool
truthy null = false
truthy (bool b) = b
truthy (int z) = not (is_zero z)
truthy (dec z k) = not (is_zero z)
truthy (str s) = not (s == "")
truthy (arr nil) = false
truthy (arr (cons x xs)) = true
truthy (obj end) = false
truthy (obj (field k v fs)) = true

abbrev pub is_obj : Json → Bool
is_obj (obj fs) = true
is_obj _ = false

pub get-put :
    (k j : String) (v : Json) (fs : Fields)
    → get j (put k v fs) ≡ (if k == j then some v else get j fs)
unfolding put
get-put k j v end = refl
get-put k j v (field i w fs) = ground (arith, eq_iff k j, eq_iff i k, eq_iff i j, get-put k j v fs)

-- A default is read back only where the key was missing.
pub get-set_default :
    (k j : String) (v : Json) (fs : Fields)
    → get j (set_default k v fs) ≡ (if k == j then some (get_or k v fs) else get j fs)
unfolding set_default
get-set_default k j v fs = ground (arith, eq_iff k j, get-put k j v fs)
