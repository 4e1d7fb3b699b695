-- ===== src/Config/Lookup.antt =====
-- What each pass of `_normalize_config` leaves under a key, as a function of what was there before.
use par.Prelude.{
  String, ◌≡◌, refl, ap, ◌∙◌, true, Option, none, some, arith, eq_iff, if◌then◌else◌, ◌==◌,
}
use par.Python.Json.{
  Json, Fields, obj, end, field, get, get_or, contains, put, set_default, get-put, get-set_default,
}
use par.Config.{set_defaults, fill, fill_all, update_section, fill_section, update_value}

abbrev pub or_else {ℓ} : {A : Type ℓ} → Option A → Option A → Option A
or_else none p = p
or_else (some a) p = some a

or_else-default :
    (k j : String) (d : Json) (fs ds : Fields)
    → or_else (if k == j then some (get_or k d fs) else get j fs) (get j ds)
      ≡ or_else (get j fs) (if k == j then some d else get j ds)
or_else-default k j d fs ds = ground (arith, eq_iff k j)

-- The user's entry, and the default for a missing one.
pub get-set_defaults :
    (j : String) (ds fs : Fields) → get j (set_defaults ds fs) ≡ or_else (get j fs) (get j ds)
unfolding set_defaults
get-set_defaults j end fs = ground arith
get-set_defaults j (field k d ds) fs =
    get-set_defaults j ds (set_default k d fs)
    ∙ ap (λ o. or_else o (get j ds)) (get-set_default k j d fs)
    ∙ or_else-default k j d fs ds

-- A section after its round: a missing one is the default, a dict is filled in.
abbrev pub filled : Json → Option Json → Json
filled d none = d
filled (obj ds) (some (obj vs)) = obj (set_defaults ds vs)
filled d (some v) = v

get-fill_section :
    (key j : String) (d : Json) (o : Option Json) (cfg : Fields)
    → get key cfg ≡ o
    → get j (fill_section key d o cfg) ≡ (if key == j then some (filled d o) else get j cfg)
get-fill_section key j d none cfg e = ground (arith, get-put key j d cfg, eq_iff key j)
get-fill_section key j (obj ds) (some (obj vs)) cfg e = get-put key j (obj (set_defaults ds vs)) cfg
get-fill_section key j d (some v) cfg e = ground (arith, eq_iff key j)

pub get-fill :
    (key j : String) (d : Json) (cfg : Fields)
    → get j (fill key d cfg) ≡ (if key == j then some (filled d (get key cfg)) else get j cfg)
unfolding fill
get-fill key j d cfg = get-fill_section key j d (get key cfg) cfg refl

-- No key stands twice.
abbrev pub IsDistinct : Fields → Type 0
IsDistinct end = Unit
IsDistinct (field k v fs) = (get k fs ≡ none) × IsDistinct fs

abbrev pub sectioned : Option Json → Option Json → Option Json
sectioned none o = o
sectioned (some d) o = some (filled d o)

pub get-fill_all :
    (j : String) (ds cfg : Fields)
    → IsDistinct ds
    → get j (fill_all ds cfg) ≡ sectioned (get j ds) (get j cfg)
unfolding fill_all
get-fill_all j end cfg h = refl
get-fill_all j (field k d ds) cfg h =
    ground (arith, get-fill_all j ds (fill k d cfg) h.1, get-fill k j d cfg, eq_iff k j)

abbrev pub mapped : (Fields → Fields) → Option Json → Option Json
mapped f (some (obj fs)) = some (obj (f fs))
mapped f o = o

get-update_value :
    (key j : String) (f : Fields → Fields) (o : Option Json) (cfg : Fields)
    → get key cfg ≡ o
    → get j (update_value key f o cfg) ≡ (if key == j then mapped f o else get j cfg)
get-update_value key j f (some (obj fs)) cfg e = get-put key j (obj (f fs)) cfg
get-update_value key j f o cfg e = ground (arith, eq_iff key j)

pub get-update_section :
    (key j : String) (f : Fields → Fields) (cfg : Fields)
    → get j (update_section key f cfg) ≡ (if key == j then mapped f (get key cfg) else get j cfg)
unfolding update_section
get-update_section key j f cfg = get-update_value key j f (get key cfg) cfg refl

-- Writing what is there changes nothing.
pub put-get : (k : String) (v : Json) (fs : Fields) → get k fs ≡ some v → put k v fs ≡ fs
unfolding put
put-get k v end e = cc
put-get k v (field j w fs) e = ground (arith, eq_iff j k, put-get k v fs)

pub set_default-present :
    (k : String) (d : Json) (fs : Fields) → contains k fs ≡ true → set_default k d fs ≡ fs
unfolding set_default
set_default-present k d fs h = ground arith

-- Every key of the first dict is one of the second.
abbrev pub Covers : Fields → Fields → Type 0
Covers end gs = Unit
Covers (field k d ds) gs = (contains k gs ≡ true) × Covers ds gs

pub set_defaults-covered : (ds gs : Fields) → Covers ds gs → set_defaults ds gs ≡ gs
unfolding set_defaults
set_defaults-covered end gs h = refl
set_defaults-covered (field k d ds) gs h =
    ap (set_defaults ds) (set_default-present k d gs h.0) ∙ set_defaults-covered ds gs h.1
