-- ===== src/Config/Tests.antt =====
-- Examples of `_normalize_config`.
use mathlib.Core.Quot.{Quot}
use par.Prelude.{◌≡◌, refl, false}
use par.Fixtures.{demo_py}
use par.Python.Int.{pos}
use par.Python.Json.{Fields, int, str, obj, end, field, put, set_default, bool}
use par.Python.Text.{capitalize}
use par.Python.Errors.{ok, ◌▹◌}
use par.Config.{
  normalize_config, normalize_fields, fill_sections, fix_persistence, fix_providers, fill_all, fill,
  set_defaults, update_section, fill_event_bus, fill_delivery, fill_vector_store, fix_entries,
  fix_entry, variant_tag,
}
use par.Config.Dicts.{normalize_dict, normalize_dict_idem}

abbrev sqlite : Fields
sqlite = field "tag" (str "sqlite") (field "contents" (str "par.db") end)

abbrev bus : Fields
bus = field "buffer_capacity" (int (pos 5)) end

abbrev config : Fields
config =
    field "persistence" (obj sqlite)
      (field "event_bus" (obj bus) (field "parallel_tool_execution" (bool false) end))

normalize_dict_idem_example :
    (normalize_dict (Quot.mk config) ▹ normalize_dict) ≡ normalize_dict (Quot.mk config)
normalize_dict_idem_example = normalize_dict_idem (Quot.mk config)

-- An empty dict is accepted, and `demo_dumps` prints the normalized one as "JSON".
pub normalize_config_empty : normalize_config demo_py "EMPTY" ≡ ok "JSON"
unfolding normalize_fields fill_sections fix_persistence fix_providers fill_all fill set_defaults
    update_section fill_event_bus fill_delivery fill_vector_store fix_entries fix_entry variant_tag
    put set_default capitalize normalize_config
normalize_config_empty = refl
