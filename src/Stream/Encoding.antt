-- ===== src/Stream/Encoding.antt =====
-- The two encodings of events that the library may use, and that `_decode_event` reads both.
use par.Prelude.{String, ◌≡◌, refl}
use par.Python.Json.{Json, Fields, int, str, arr, obj, nil, cons, end, field}
use par.Python.Text.{lower, str_of}
use par.Python.Convert.{int_of}
use par.Python.Errors.{ok}
use par.Stream.Event.{Event, decode_event, usage, finish_reason}

-- The constructor's name, and its fields, as the library's encoder writes them.
abbrev pub name_of : Event → String
name_of (Event.text_delta t) = "Text_delta"
name_of (Event.reasoning_delta t) = "Reasoning_delta"
name_of (Event.reasoning_signature s) = "Reasoning_signature"
name_of (Event.tool_call_start i n) = "Tool_call_start"
name_of (Event.tool_call_delta i a) = "Tool_call_delta"
name_of (Event.usage_update p c t) = "Usage_update"
name_of (Event.done r) = "Done"

abbrev pub fields_of : Event → Fields
fields_of (Event.text_delta t) = field "text" t end
fields_of (Event.reasoning_delta t) = field "text" t end
fields_of (Event.reasoning_signature s) = field "signature" s end
fields_of (Event.tool_call_start i n) = field "tool_call_id" i (field "name" n end)
fields_of (Event.tool_call_delta i a) = field "tool_call_id" i (field "args_json" a end)
fields_of (Event.usage_update p c t) =
    field "prompt_tokens" (int p)
      (field "completion_tokens" (int c) (field "total_tokens" (int t) end))
fields_of (Event.done r) = field "finish_reason" (arr (cons (str r) nil)) end

-- `["Constructor", {fields}]`
abbrev pub as_pair : Event → Json
as_pair e = arr (cons (str (name_of e)) (cons (obj (fields_of e)) nil))

-- `{"tag": "Constructor", fields}`, under the key `tag` or `constructor`.
abbrev pub as_dict : String → Event → Json
as_dict key e = obj (field key (str (name_of e)) (fields_of e))

-- What decoding gives: the reason of `done` comes in lower case.
abbrev pub lowered : Event → Event
lowered (Event.done r) = Event.done (lower r)
lowered e = e

-- An event that was encoded either way, with the tag under either key, is decoded to itself, but that the
-- finish reason is in lower case.
pub decode_event-encoded :
    (e : Event)
    → (decode_event (as_pair e) ≡ ok (lowered e))
      × (decode_event (as_dict "tag" e) ≡ ok (lowered e))
      × (decode_event (as_dict "constructor" e) ≡ ok (lowered e))
unfolding decode_event usage finish_reason int_of str_of
decode_event-encoded (Event.text_delta t) = (refl, refl, refl)
decode_event-encoded (Event.reasoning_delta t) = (refl, refl, refl)
decode_event-encoded e = (refl, refl, refl)
