-- ===== src/Config.antt =====
-- `Runtime._normalize_config` of bindings/python/par_runtime/runtime.py: the fields that the library's
-- configuration decoder requires are filled in, and two of Python's spellings are rewritten.
pub mod Defaults
pub mod Lookup
pub mod Spec
pub mod Required
pub mod Keeps
pub mod Idempotent
pub mod Persistence
pub mod Accepts
pub mod Described
pub mod Dicts
pub mod Tests
use par.Prelude.{String, ◌<>◌, Bool, false, not, ◌||◌, Option, none, some, if◌then◌else◌, ◌==◌}
use par.Python.Json.{
  Json, Items, Fields, null, str, arr, obj, nil, cons, end, field, get, put, set_default, truthy,
}
use par.Python.Text.{capitalize}
use par.Python.Errors.{Result, ok, fails, init_error, type_error, attribute_error, key_error, ◌▹◌}
use par.Python.Interpreter.{Interpreter, Parsed, parsed, malformed}
use par.Config.Defaults.{defaults, event_bus_defaults, delivery_defaults}

-- `for k, d in ds.items(): fs.setdefault(k, d)`
pub set_defaults : Fields → Fields → Fields
set_defaults end fs = fs
set_defaults (field k d ds) fs = set_defaults ds (set_default k d fs)

-- The `elif` of the loop: both the default and the value are dicts.
abbrev fill_section : String → Json → Option Json → Fields → Fields
fill_section key (obj ds) (some (obj vs)) cfg = put key (obj (set_defaults ds vs)) cfg
fill_section key d (some v) cfg = cfg
fill_section key d none cfg = put key d cfg

-- One round of `for key, default in defaults.items()`.
pub fill : String → Json → Fields → Fields
fill key d cfg = fill_section key d (get key cfg) cfg

pub fill_all : Fields → Fields → Fields
fill_all end cfg = cfg
fill_all (field key d ds) cfg = fill_all ds (fill key d cfg)

abbrev update_value : String → (Fields → Fields) → Option Json → Fields → Fields
update_value key f (some (obj fs)) cfg = put key (obj (f fs)) cfg
update_value key f o cfg = cfg

-- `if key in cfg and isinstance(cfg[key], dict)`, with the writes to `cfg[key]`.
pub update_section : String → (Fields → Fields) → Fields → Fields
update_section key f cfg = update_value key f (get key cfg) cfg

pub fill_delivery : Fields → Fields
fill_delivery = update_section "delivery" (set_defaults delivery_defaults)

pub fill_event_bus : Fields → Fields
fill_event_bus bus = fill_delivery (set_defaults event_bus_defaults bus)

pub fill_vector_store : Fields → Fields
fill_vector_store store = set_default "backend" (str "sqlite_vec") store

-- `tag[0].upper() + tag[1:] if tag else tag`
unfoldable pub variant_tag : Json → Result Json
unfolding capitalize
variant_tag (str s) = if s == "" then ok (str s) else ok (str (capitalize s))
variant_tag (arr (cons (str s) xs)) =
    fails type_error "can only concatenate str (not \"list\") to str"
variant_tag (arr (cons x xs)) = fails attribute_error "object has no attribute 'upper'"
variant_tag (obj (field k v fs)) = fails key_error "0"
variant_tag x = if truthy x then fails type_error "object is not subscriptable" else ok x

abbrev variant : Option Json → Option Json → Fields → Result Fields
unfolding variant_tag put
variant (some tag) (some contents) cfg =
    variant_tag tag ▹ λ t. ok (put "persistence" (arr (cons t (cons contents nil))) cfg)
variant t c cfg = ok cfg

abbrev persistence_value : Option Json → Fields → Result Fields
persistence_value (some (obj p)) cfg = variant (get "tag" p) (get "contents" p) cfg
persistence_value o cfg = ok cfg

-- `{"tag": t, "contents": c}` becomes the list `[T, c]`.
pub fix_persistence : Fields → Result Fields
fix_persistence cfg = persistence_value (get "persistence" cfg) cfg

abbrev is_openai : Json → Bool
is_openai (str s) = s == "Openai" || s == "openai"
is_openai tag = false

-- One entry of `llm_providers`: a pair of an id and a pair of a tag and a dict.
pub fix_entry : Json → Json
fix_entry (arr (cons id (cons (arr (cons tag (cons (obj pcfg) nil))) nil))) = arr (
    cons id (
      cons
        (arr (
          cons tag (
            cons (obj (if is_openai tag then set_default "prompt_cache_key" null pcfg else pcfg))
              nil)))
        nil))
fix_entry e = e

pub fix_entries : Items → Items
fix_entries nil = nil
fix_entries (cons e es) = cons (fix_entry e) (fix_entries es)

abbrev providers_value : Option Json → Fields → Fields
providers_value (some (arr es)) cfg = put "llm_providers" (arr (fix_entries es)) cfg
providers_value o cfg = cfg

pub fix_providers : Fields → Fields
fix_providers cfg = providers_value (get "llm_providers" cfg) cfg

-- The sections that are filled in before the two rewrites.
pub fill_sections : Fields → Fields
fill_sections cfg =
    update_section "vector_store" fill_vector_store
      (update_section "event_bus" fill_event_bus (fill_all defaults cfg))

-- The dict after every rewrite, or what a tag that is no text raises.
pub normalize_fields : Fields → Result Fields
normalize_fields cfg = fix_persistence (fill_sections cfg) ▹ λ fs. ok (fix_providers fs)

module _ (py : Interpreter) where
  abbrev pub normalize_value : Json → Result String
  normalize_value (obj cfg) = normalize_fields cfg ▹ λ fs. ok (py.dumps (obj fs))
  normalize_value v = fails init_error "config_json must decode to a JSON object"

  abbrev pub normalize_parsed : Parsed → Result String
  normalize_parsed (parsed v) = normalize_value v
  normalize_parsed (malformed e) = fails init_error ("config_json is not valid JSON: " <> e)

  unfoldable pub normalize_config : String → Result String
  normalize_config config_json = normalize_parsed (py.loads config_json)
