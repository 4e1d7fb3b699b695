-- ===== src/Programs/Acceptance/Config.antt =====
-- The configuration with which the script creates a runtime.
use par.Prelude.{false, true}
use par.Python.Json.{Json, Fields, bool, str, arr, obj, nil, cons, end, field}
use par.Config.Defaults.{
  quota_defaults, shutdown_defaults, limit_defaults, delivery_defaults, number,
}

abbrev event_bus : Fields
event_bus = field "buffer_capacity" (number 10) (
    field "delivery" (obj delivery_defaults)
      (field "dlq_enabled" (bool false) (field "critical_event_types" (arr nil) end)))

-- The object that `TEST_CONFIG` is printed from.
abbrev pub test_config : Json
test_config = obj (
    field "persistence" (arr (cons (str "Sqlite") (cons (str ":memory:") nil))) (
      field "event_bus" (obj event_bus) (
        field "default_quota" (obj quota_defaults) (
          field "shutdown" (obj shutdown_defaults) (
            field "llm_providers" (arr nil) (
              field "eval_limits" (obj limit_defaults)
                (field "parallel_tool_execution" (bool true) end)))))))
