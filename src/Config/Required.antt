-- ===== src/Config/Required.antt =====
-- What `_normalize_config` promises the library's decoder: the required keys are there.
use par.Prelude.{
  String, ◌≡◌, refl, ap, ◌∙◌, sym, Bool, true, false, Option, none, some, arith, eq_iff,
  if◌then◌else◌, ◌==◌, ◌||◌, is_some, Bool-cases, inl, inr,
}
use par.Python.Json.{Json, Items, Fields, obj, get, contains, end, field}
use par.Python.Errors.{ok}
use par.Config.{
  set_defaults, update_section, fill_event_bus, fill_delivery, fill_vector_store, normalize_fields,
  fix_entries,
}
use par.Config.Defaults.{defaults, event_bus_defaults, delivery_defaults}
use par.Config.Lookup.{sectioned, mapped, get-set_defaults, get-update_section}
use par.Config.Spec.{at_key, mapped_items, normal, normalize-get}

-- A pass over sections or items adds and drops no key.
is_some-mapped : (f : Fields → Fields) (o : Option Json) → is_some (mapped f o) ≡ is_some o
is_some-mapped f o = ground arith

is_some-mapped_items :
    (f : Items → Items) (o : Option Json) → is_some (mapped_items f o) ≡ is_some o
is_some-mapped_items f o = ground arith

is_some-at_key :
    (key j : String) (f : Option Json → Option Json) (o : Option Json)
    → ((p : Option Json) → is_some (f p) ≡ is_some p)
    → is_some (at_key key f j o) ≡ is_some o
is_some-at_key key j f o h = ground (arith, h o)

pub is_some-normal :
    (j : String) (o : Option Json) → is_some (normal j o) ≡ is_some (sectioned (get j defaults) o)
is_some-normal j o =
    is_some-at_key "llm_providers" j (mapped_items fix_entries) _ (is_some-mapped_items fix_entries)
    ∙ is_some-at_key "vector_store" j (mapped fill_vector_store) _
        (is_some-mapped fill_vector_store)
    ∙ is_some-at_key "event_bus" j (mapped fill_event_bus) _ (is_some-mapped fill_event_bus)

-- `persistence` is no required key.
required_ne : (key : String) → contains key defaults ≡ true → ("persistence" == key) ≡ false
required_ne key h = elim (Bool-cases ("persistence" == key)) [
  | inl e ↦ go ((eq_iff "persistence" key).0 e)
  | inr e ↦ e
]
  where
    absent : contains "persistence" defaults ≡ false
    absent = refl

    go : "persistence" ≡ key → ("persistence" == key) ≡ false
    go e = cc (ap (λ k. contains k defaults) e, absent, h)

-- Whatever dict the caller gives, an accepted configuration has every required section.
pub normalize_required :
    (key : String) (cfg fs : Fields)
    → contains key defaults ≡ true
    → normalize_fields cfg ≡ ok fs
    → contains key fs ≡ true
normalize_required key cfg fs h e =
    ap is_some (normalize-get key cfg fs (required_ne key h) e)
    ∙ is_some-normal key (get key cfg)
    ∙ present (get key defaults) (get key cfg) h
  where
    present : (d o : Option Json) → is_some d ≡ true → is_some (sectioned d o) ≡ true
    present none o h = cc
    present (some d) o h = refl

-- If it is a dict, it has every key of `ds`.
abbrev HasKeys : Fields → Option Json → Type 0
HasKeys ds (some (obj vs)) = (j : String) → contains j ds ≡ true → contains j vs ≡ true
HasKeys ds o = Unit

contains-set_defaults :
    (j : String) (ds fs : Fields)
    → contains j (set_defaults ds fs) ≡ (contains j fs || contains j ds)
contains-set_defaults j ds fs = ground (arith, get-set_defaults j ds fs)

HasKeys-sectioned : (ds : Fields) (o : Option Json) → HasKeys ds (sectioned (some (obj ds)) o)
HasKeys-sectioned ds none = λ j h. h
HasKeys-sectioned ds (some (obj vs)) = λ j h. ground (arith, contains-set_defaults j ds vs)
HasKeys-sectioned ds (some v) = tt

-- A pass that drops no key keeps them.
abbrev pub Grows : (Fields → Fields) → Type 0
Grows f = (j : String) (fs : Fields) → contains j fs ≡ true → contains j (f fs) ≡ true

HasKeys-mapped :
    (ds : Fields) (f : Fields → Fields) (o : Option Json)
    → Grows f
    → HasKeys ds o
    → HasKeys ds (mapped f o)
HasKeys-mapped ds f (some (obj vs)) g h = λ j k. g j vs (h j k)
HasKeys-mapped ds f none g h = tt
HasKeys-mapped ds f (some v) g h = h

HasKeys-at_key :
    (ds : Fields) (key j : String) (f : Option Json → Option Json) (o : Option Json)
    → ((p : Option Json) → HasKeys ds p → HasKeys ds (f p))
    → HasKeys ds o
    → HasKeys ds (at_key key f j o)
HasKeys-at_key ds key j f o keep h = go (key == j)
  where
    go : (b : Bool) → HasKeys ds (if b then f o else o)
    go true = keep o h
    go false = h

HasKeys-mapped_items :
    (ds : Fields) (f : Items → Items) (o : Option Json)
    → HasKeys ds o
    → HasKeys ds (mapped_items f o)
HasKeys-mapped_items ds f none h = tt
HasKeys-mapped_items ds f (some (obj vs)) h = h
HasKeys-mapped_items ds f (some (Json.arr es)) h = tt
HasKeys-mapped_items ds f (some v) h = h

pub Grows-set_defaults : (ds : Fields) → Grows (set_defaults ds)
Grows-set_defaults ds j fs h = ground (arith, contains-set_defaults j ds fs)

pub Grows-update_section : (key : String) (f : Fields → Fields) → Grows (update_section key f)
Grows-update_section key f j fs h =
    ground (arith, get-update_section key j f fs, eq_iff key j, is_some-mapped f (get key fs))

pub Grows-fill_event_bus : Grows fill_event_bus
unfolding fill_event_bus fill_delivery
Grows-fill_event_bus j fs h =
    Grows-update_section "delivery" (set_defaults delivery_defaults) j _
      (Grows-set_defaults event_bus_defaults j fs h)

pub Grows-fill_vector_store : Grows fill_vector_store
unfolding fill_vector_store set_defaults
Grows-fill_vector_store j fs h =
    Grows-set_defaults (field "backend" (Json.str "sqlite_vec") end) j fs h

HasKeys-normal :
    (ds : Fields) (key : String) (o : Option Json)
    → get key defaults ≡ some (obj ds)
    → HasKeys ds (normal key o)
HasKeys-normal ds key o e =
    HasKeys-at_key ds "llm_providers" key (mapped_items fix_entries) _
      (HasKeys-mapped_items ds fix_entries)
      (HasKeys-at_key ds "vector_store" key (mapped fill_vector_store) _
        (λ p. HasKeys-mapped ds fill_vector_store p Grows-fill_vector_store)
        (HasKeys-at_key ds "event_bus" key (mapped fill_event_bus) _
          (λ p. HasKeys-mapped ds fill_event_bus p Grows-fill_event_bus)
          (rw e (HasKeys-sectioned ds o))))

-- A required section that is a dict in the accepted configuration has every key of its defaults.
pub normalize_complete :
    (key j : String) (cfg fs ds vs : Fields)
    → normalize_fields cfg ≡ ok fs
    → get key defaults ≡ some (obj ds)
    → get key fs ≡ some (obj vs)
    → contains j ds ≡ true
    → contains j vs ≡ true
normalize_complete key j cfg fs ds vs accepted required found =
    let described : normal key (get key cfg) ≡ some (obj vs) =
      sym (normalize-get key cfg fs (required_ne key (ap is_some required)) accepted) ∙ found in
    let complete : HasKeys ds (some (obj vs)) =
      rw described at (HasKeys-normal ds key (get key cfg) required) in
    complete j
