-- ===== src/Config/Spec.antt =====
-- `_normalize_config`, key by key: an independent description of the dict that it hands on.
use par.Prelude.{
  String, ◌≡◌, refl, ap, ◌∙◌, false, Option, some, arith, eq_iff, if◌then◌else◌, ◌==◌,
}
use par.Python.Json.{Json, Items, Fields, obj, arr, nil, cons, get, put, get-put}
use par.Python.Errors.{Result, ok, raised, ◌▹◌}
use par.Config.{
  fill_all, update_section, fill_event_bus, fill_vector_store, fix_entries, fix_providers,
  providers_value, fix_persistence, persistence_value, variant, variant_tag, fill_sections,
  normalize_fields,
}
use par.Config.Defaults.{defaults}
use par.Config.Lookup.{sectioned, mapped, get-fill_all, get-update_section, IsDistinct}

abbrev pub at_key : String → (Option Json → Option Json) → String → Option Json → Option Json
at_key key f j o = if key == j then f o else o

abbrev pub mapped_items : (Items → Items) → Option Json → Option Json
mapped_items f (some (arr es)) = some (arr (f es))
mapped_items f o = o

-- What stands under `j` in the end, from what the caller wrote there: the default section, filled in;
-- then the passes over the event bus, the vector store and the providers.
abbrev pub normal : String → Option Json → Option Json
normal j o = at_key "llm_providers" (mapped_items fix_entries) j (
    at_key "vector_store" (mapped fill_vector_store) j
      (at_key "event_bus" (mapped fill_event_bus) j (sectioned (get j defaults) o)))

at_key-get :
    (key j : String) (f : Option Json → Option Json) (fs : Fields)
    → (if key == j then f (get key fs) else get j fs) ≡ at_key key f j (get j fs)
at_key-get key j f fs = ground (arith, eq_iff key j)

defaults-IsDistinct : IsDistinct defaults
defaults-IsDistinct = ground arith

pub get-fill_sections :
    (j : String) (cfg : Fields)
    → get j (fill_sections cfg)
      ≡ at_key "vector_store"
          (mapped fill_vector_store)
          j
          (at_key "event_bus" (mapped fill_event_bus) j (sectioned (get j defaults) (get j cfg)))
unfolding fill_sections
get-fill_sections j cfg =
    let filled = fill_all defaults cfg in
    let bus = update_section "event_bus" fill_event_bus filled in
    get-update_section "vector_store" j fill_vector_store bus
    ∙ at_key-get "vector_store" j (mapped fill_vector_store) bus
    ∙ ap (at_key "vector_store" (mapped fill_vector_store) j) (
        get-update_section "event_bus" j fill_event_bus filled
        ∙ at_key-get "event_bus" j (mapped fill_event_bus) filled
        ∙ ap (at_key "event_bus" (mapped fill_event_bus) j)
            (get-fill_all j defaults cfg defaults-IsDistinct))

get-providers_value :
    (j : String) (o : Option Json) (cfg : Fields)
    → get "llm_providers" cfg ≡ o
    → get j (providers_value o cfg)
      ≡ (if "llm_providers" == j then mapped_items fix_entries o else get j cfg)
get-providers_value j (some (arr es)) cfg e = get-put "llm_providers" j (arr (fix_entries es)) cfg
get-providers_value j o cfg e = ground (arith, eq_iff "llm_providers" j)

pub get-fix_providers :
    (j : String) (cfg : Fields)
    → get j (fix_providers cfg) ≡ at_key "llm_providers" (mapped_items fix_entries) j (get j cfg)
unfolding fix_providers
get-fix_providers j cfg =
    get-providers_value j (get "llm_providers" cfg) cfg refl
    ∙ at_key-get "llm_providers" j (mapped_items fix_entries) cfg

get-variant :
    (j : String) (t c : Option Json) (cfg fs : Fields)
    → ("persistence" == j) ≡ false
    → variant t c cfg ≡ ok fs
    → get j fs ≡ get j cfg
unfolding variant
get-variant j (some t) (some c) cfg fs ne e = go (variant_tag t) e
  where
    go :
        (r : Result Json)
        → (r ▹ λ t. ok (put "persistence" (arr (cons t (cons c nil))) cfg)) ≡ ok fs
        → get j fs ≡ get j cfg
    go (ok t) e = ground (arith, get-put "persistence" j (arr (cons t (cons c nil))) cfg)
    go (raised x) e = cc
get-variant j t c cfg fs ne e = cc

get-fix_persistence :
    (j : String) (o : Option Json) (cfg fs : Fields)
    → ("persistence" == j) ≡ false
    → persistence_value o cfg ≡ ok fs
    → get j fs ≡ get j cfg
get-fix_persistence j (some (obj p)) cfg fs ne e =
    get-variant j (get "tag" p) (get "contents" p) cfg fs ne e
get-fix_persistence j o cfg fs ne e = cc

-- Whenever the configuration is accepted, every key but `persistence` holds what `normal` makes of the
-- caller's value for that key alone: no section influences another.
pub normalize-get :
    (j : String) (cfg fs : Fields)
    → ("persistence" == j) ≡ false
    → normalize_fields cfg ≡ ok fs
    → get j fs ≡ normal j (get j cfg)
unfolding normalize_fields fix_persistence
normalize-get j cfg fs ne e = go (persistence_value (get "persistence" sections) sections) refl e
  where
    sections : Fields
    sections = fill_sections cfg

    go :
        (r : Result Fields)
        → persistence_value (get "persistence" sections) sections ≡ r
        → (r ▹ λ gs. ok (fix_providers gs)) ≡ ok fs
        → get j fs ≡ normal j (get j cfg)
    go (ok gs) passed e = cc (
      get-fix_providers j gs,
      get-fix_persistence j (get "persistence" sections) sections gs ne passed,
      get-fill_sections j cfg,
    )
    go (raised x) passed e = cc
