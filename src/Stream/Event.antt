-- ===== src/Stream/Event.antt =====
-- The events of a stream, and `_decode_event`. Python does not check the fields' types, so a field holds
-- whatever JSON value the library sent, except for the numbers and the reason that are converted.
use par.Prelude.{String, if◌then◌else◌, ◌==◌}
use par.Python.Int.{ℤ, pos}
use par.Python.Json.{Json, Fields, null, int, str, arr, obj, nil, cons, end, get_or, truthy}
use par.Python.Text.{lower, str_of}
use par.Python.Convert.{int_of}
use par.Python.Errors.{Result, ok, ◌▹◌}

pub data Event : Type 0 where
  text_delta reasoning_delta reasoning_signature : Json → Event
  tool_call_start tool_call_delta : Json → Json → Event
  usage_update : ℤ → ℤ → ℤ → Event
  done : String → Event

-- `TextDelta(text=str(payload))`
abbrev pub fallback : Json → Result Event
fallback payload = ok (Event.text_delta (str (str_of payload)))

-- `int(fields.get(key, 0))`
abbrev pub count_of : String → Fields → Result ℤ
count_of key fields = int_of (get_or key (int (pos 0)) fields)

abbrev text_of : String → Fields → Json
text_of key fields = get_or key (str "") fields

-- A reason that is a list that is not empty stands for its first element.
abbrev reason_of : Json → Json
reason_of (arr (cons x xs)) = x
reason_of x = x

unfoldable pub finish_reason : Fields → String
unfolding lower str_of
finish_reason fields = lower (str_of (reason_of (get_or "finish_reason" (str "stop") fields)))

unfoldable pub usage : Fields → Result Event
unfolding int_of
usage fields = count_of "prompt_tokens" fields ▹ λ p. count_of "completion_tokens" fields ▹ λ c.
    count_of "total_tokens" fields ▹ λ t. ok (Event.usage_update p c t)

-- The ladder of tests on the tag.
unfoldable pub decode_tag : String → Fields → Json → Result Event
unfolding usage finish_reason str_of
decode_tag tag fields payload =
    if tag == "Text_delta"
    then ok (Event.text_delta (text_of "text" fields))
    else if tag == "Reasoning_delta"
    then ok (Event.reasoning_delta (text_of "text" fields))
    else if tag == "Reasoning_signature"
    then ok (Event.reasoning_signature (text_of "signature" fields))
    else if tag == "Tool_call_start"
    then ok (Event.tool_call_start (text_of "tool_call_id" fields) (text_of "name" fields))
    else if tag == "Tool_call_delta"
    then ok (Event.tool_call_delta (text_of "tool_call_id" fields) (text_of "args_json" fields))
    else if tag == "Usage_update"
    then usage fields
    else if tag == "Done"
    then ok (Event.done (finish_reason fields))
    else fallback payload

-- A tag that is no text equals none of the names.
unfoldable pub decode_with : Json → Fields → Json → Result Event
unfolding decode_tag str_of
decode_with (str tag) fields payload = decode_tag tag fields payload
decode_with tag fields payload = fallback payload

abbrev dict_or_empty : Json → Fields
dict_or_empty (obj fs) = fs
dict_or_empty x = end

-- `payload.get("tag") or payload.get("constructor")`
abbrev tag_or : Json → Json → Json
tag_or t c = if truthy t then t else c

abbrev tag_in : Fields → Json
tag_in fs = tag_or (get_or "tag" null fs) (get_or "constructor" null fs)

-- `_decode_event`
unfoldable pub decode_event : Json → Result Event
unfolding decode_with str_of
decode_event (arr (cons tag (cons fields nil))) =
    decode_with tag (dict_or_empty fields) (arr (cons tag (cons fields nil)))
decode_event (obj fs) = decode_with (tag_in fs) fs (obj fs)
decode_event payload = fallback payload
