-- ===== src/Config/Defaults.antt =====
-- The default values that `_normalize_config` writes out.
use par.Prelude.{ℕ, true, false}
use par.Python.Int.{pos}
use par.Python.Json.{Json, Fields, null, bool, int, dec, str, arr, obj, nil, cons, end, field}

abbrev pub number : ℕ → Json
number n = int (pos n)

-- `["Fixed", 0.5]`
abbrev pub retry_backoff : Json
retry_backoff = arr (cons (str "Fixed") (cons (dec (pos 5) 1) nil))

abbrev pub quota_defaults : Fields
quota_defaults = field "max_concurrent_tasks" (number 4) (
    field "max_concurrent_tools_per_agent" (number 2)
      (field "max_tokens_per_turn" null (field "max_total_tokens" null end)))

abbrev pub shutdown_defaults : Fields
shutdown_defaults =
    field "drain_timeout" (dec (pos 5) 0)
      (field "cancel_grace_period" (dec (pos 2) 0) (field "flush_batch_size" (number 100) end))

abbrev pub limit_defaults : Fields
limit_defaults = field "max_depth" (number 10) (field "max_node_visits" (number 1000) end)

abbrev pub delivery_defaults : Fields
delivery_defaults = field "max_delivery_attempts" (number 3) (
    field "initial_retry_delay" (dec (pos 1) 1)
      (field "retry_backoff" retry_backoff (field "delivery_timeout" (dec (pos 5) 0) end)))

-- The second round of defaults for the event bus, without `delivery`.
abbrev pub event_bus_defaults : Fields
event_bus_defaults = field "buffer_capacity" (number 100) (
    field "dlq_enabled" (bool false)
      (field "dlq_max_size" (number 10) (field "critical_event_types" (arr nil) end)))

abbrev pub bus_defaults : Fields
bus_defaults = field "buffer_capacity" (number 100) (
    field "delivery" (obj delivery_defaults) (
      field "dlq_enabled" (bool false)
        (field "dlq_max_size" (number 10) (field "critical_event_types" (arr nil) end))))

abbrev pub defaults : Fields
defaults = field "default_quota" (obj quota_defaults) (
    field "shutdown" (obj shutdown_defaults) (
      field "eval_limits" (obj limit_defaults) (
        field "llm_providers" (arr nil) (
          field "parallel_tool_execution" (bool true) (
            field "event_retention_seconds" (dec (pos 604800) 0)
              (field "event_bus" (obj bus_defaults) end))))))
