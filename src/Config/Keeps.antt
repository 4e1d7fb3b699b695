-- ===== src/Config/Keeps.antt =====
-- `_normalize_config` overwrites nothing that the caller wrote.
use par.Prelude.{
  String, ◌≡◌, refl, ap, ◌∙◌, Bool, true, false, Option, none, some, arith, if◌then◌else◌, ◌==◌,
}
use par.Python.Json.{Json, Items, Fields, null, bool, int, dec, str, arr, obj, get, end, field}
use par.Python.Errors.{ok}
use par.Config.{
  set_defaults, fill_event_bus, fill_delivery, fill_vector_store, normalize_fields, fix_entries,
}
use par.Config.Defaults.{defaults, event_bus_defaults, delivery_defaults}
use par.Config.Lookup.{sectioned, mapped, get-set_defaults, get-update_section}
use par.Config.Spec.{at_key, mapped_items, normal, normalize-get}

-- Under `j`, if it is a dict, stands `v`.
abbrev pub Holds : String → Json → Option Json → Type 0
Holds j v (some (obj vs)) = get j vs ≡ some v
Holds j v o = ⊥

-- A pass that leaves what stands under `j`.
abbrev Spares : String → (Fields → Fields) → Type 0
Spares j f = (v : Json) (fs : Fields) → get j fs ≡ some v → get j (f fs) ≡ some v

Spares-set_defaults : (j : String) (ds : Fields) → Spares j (set_defaults ds)
Spares-set_defaults j ds v fs h = ground (arith, get-set_defaults j ds fs)

Spares-fill_event_bus : (j : String) → ("delivery" == j) ≡ false → Spares j fill_event_bus
unfolding fill_event_bus fill_delivery
Spares-fill_event_bus j ne v fs h = ground (
  arith,
  get-update_section "delivery" j (set_defaults delivery_defaults)
      (set_defaults event_bus_defaults fs),
  get-set_defaults j event_bus_defaults fs,
)

Spares-fill_vector_store : (j : String) → Spares j fill_vector_store
unfolding fill_vector_store set_defaults
Spares-fill_vector_store j v fs h =
    Spares-set_defaults j (field "backend" (str "sqlite_vec") end) v fs h

Holds-sectioned :
    (j : String) (v : Json) (d o : Option Json) → Holds j v o → Holds j v (sectioned d o)
Holds-sectioned j v none o h = h
Holds-sectioned j v (some d) none h = absurd h
Holds-sectioned j v (some (obj ds)) (some (obj vs)) h = Spares-set_defaults j ds v vs h
Holds-sectioned j v (some null) (some (obj vs)) h = h
Holds-sectioned j v (some (bool b)) (some (obj vs)) h = h
Holds-sectioned j v (some (int z)) (some (obj vs)) h = h
Holds-sectioned j v (some (dec z k)) (some (obj vs)) h = h
Holds-sectioned j v (some (str s)) (some (obj vs)) h = h
Holds-sectioned j v (some (arr xs)) (some (obj vs)) h = h
Holds-sectioned j v (some d) (some w) h = absurd h

Holds-mapped :
    (j : String) (v : Json) (f : Fields → Fields) (o : Option Json)
    → Spares j f
    → Holds j v o
    → Holds j v (mapped f o)
Holds-mapped j v f (some (obj vs)) sp h = sp v vs h
Holds-mapped j v f none sp h = absurd h
Holds-mapped j v f (some w) sp h = absurd h

Holds-mapped_items :
    (j : String) (v : Json) (f : Items → Items) (o : Option Json)
    → Holds j v o
    → Holds j v (mapped_items f o)
Holds-mapped_items j v f (some (obj vs)) h = h
Holds-mapped_items j v f none h = absurd h
Holds-mapped_items j v f (some w) h = absurd h

Holds-at_key :
    (j : String) (v : Json) (key k : String) (f : Option Json → Option Json) (o : Option Json)
    → ((p : Option Json) → Holds j v p → Holds j v (f p))
    → Holds j v o
    → Holds j v (at_key key f k o)
Holds-at_key j v key k f o keep h = go (key == k)
  where
    go : (b : Bool) → Holds j v (if b then f o else o)
    go true = keep o h
    go false = h

Holds-normal :
    (key j : String) (v : Json) (o : Option Json)
    → ("delivery" == j) ≡ false
    → Holds j v o
    → Holds j v (normal key o)
Holds-normal key j v o ne h =
    Holds-at_key j v "llm_providers" key (mapped_items fix_entries) _
      (Holds-mapped_items j v fix_entries)
      (Holds-at_key j v "vector_store" key (mapped fill_vector_store) _
        (λ p. Holds-mapped j v fill_vector_store p (Spares-fill_vector_store j))
        (Holds-at_key j v "event_bus" key (mapped fill_event_bus) _
          (λ p. Holds-mapped j v fill_event_bus p (Spares-fill_event_bus j ne))
          (Holds-sectioned j v (get key defaults) o h)))

-- The dict that stands where a value is held.
held :
    (j : String) (v : Json) (o : Option Json)
    → Holds j v o
    → (vs : Fields) × (o ≡ some (obj vs)) × (get j vs ≡ some v)
held j v (some (obj vs)) h = (vs, refl, h)
held j v none h = absurd h
held j v (some w) h = absurd h

-- An option that the caller set in a section is still set to that value. The section may be any key but
-- `persistence`, and the option any but `delivery`, a dict which is filled in too.
pub normalize_keeps :
    (key j : String) (v : Json) (cfg fs us : Fields)
    → normalize_fields cfg ≡ ok fs
    → ("persistence" == key) ≡ false
    → ("delivery" == j) ≡ false
    → get key cfg ≡ some (obj us)
    → get j us ≡ some v
    → (vs : Fields) × (get key fs ≡ some (obj vs)) × (get j vs ≡ some v)
normalize_keeps key j v cfg fs us accepted ne nd e h =
    rw (normalize-get key cfg fs ne accepted, e)
      (held j v (normal key (some (obj us))) (Holds-normal key j v (some (obj us)) nd h))

-- No dict and no list.
abbrev pub is_scalar : Json → Bool
is_scalar (obj fs) = false
is_scalar (arr xs) = false
is_scalar v = true

sectioned-scalar : (d : Option Json) (v : Json) → is_scalar v ≡ true → sectioned d (some v) ≡ some v
sectioned-scalar none v h = refl
sectioned-scalar (some d) v h = ground arith

-- A plain value, no dict and no list, that the caller set at the top level of an accepted
-- configuration is left alone, under any key but `persistence`.
pub normalize_scalar :
    (key : String) (v : Json) (cfg fs : Fields)
    → normalize_fields cfg ≡ ok fs
    → ("persistence" == key) ≡ false
    → get key cfg ≡ some v
    → is_scalar v ≡ true
    → get key fs ≡ some v
normalize_scalar key v cfg fs accepted ne e h =
    normalize-get key cfg fs ne accepted
    ∙ ap (normal key) e
    ∙ ground (arith, sectioned-scalar (get key defaults) v h)
