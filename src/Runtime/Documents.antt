-- ===== src/Runtime/Documents.antt =====
-- The methods of `Runtime` on embeddings and documents.
use par.Prelude.{ℕ, String, ◌<>◌, true, false, Option, none, some, if◌then◌else◌}
use par.Python.Int.{ℤ, pos, is_negative}
use par.Python.Json.{Json, Items, Fields, bool, int, dec, str, arr, obj, nil, cons, end, field}
use par.Python.Text.{int_str, repr_str, type_name}
use par.Python.Errors.{Result, ok, fails, par_error, type_error, value_error, runtime_error, ◌▹◌}
use par.Python.Interpreter.{Interpreter, Parsed, parsed, malformed, loads_or_raise}
use par.Ffi.Calls.{
  Library, par_embed, par_add_documents, par_load_document, par_load_directory, par_invoke_with_rag,
}
use par.Ffi.Process.{Action, ◌>>=◌, lift, call_status}
use par.Ffi.Strings.{c_str, fetch}
use par.Runtime.Base.{Runtime, check_handle, check_error, require_text}

-- The elements that `for x in v` visits.
chars : String → Items
chars String.[] = nil
chars (String.◌∷◌ c s) = cons (str (String.◌∷◌ c "")) (chars s)

keys : Fields → Items
keys end = nil
keys (field k v fs) = cons (str k) (keys fs)

unfoldable pub iterate : Json → Result Items
unfolding chars keys
iterate (arr xs) = ok xs
iterate (obj fs) = ok (keys fs)
iterate (str s) = ok (chars s)
iterate v = fails type_error ("'" <> type_name v <> "' object is not iterable")

module _ (py : Interpreter) where
  abbrev float_or_raise : String → Option (ℤ × ℕ) → Result Json
  float_or_raise s none = fails value_error ("could not convert string to float: " <> repr_str s)
  float_or_raise s (some d) = ok (dec d.0 d.1)

  -- `float(x)`
  abbrev pub float_of : Json → Result Json
  float_of (bool false) = ok (dec (pos 0) 0)
  float_of (bool true) = ok (dec (pos 1) 0)
  float_of (int z) = ok (dec z 0)
  float_of (dec z k) = ok (dec z k)
  float_of (str s) = float_or_raise s (py.float_text s)
  float_of v =
      fails type_error
        ("float() argument must be a string or a real number, not '" <> type_name v <> "'")

  -- A list comprehension: the first element that raises ends it.
  unfoldable pub each : (Json → Result Json) → Items → Result Items
  each f nil = ok nil
  each f (cons x xs) = f x ▹ λ y. each f xs ▹ λ ys. ok (cons y ys)

  -- `[float(x) for x in vec]`
  unfoldable pub vector : Json → Result Json
  unfolding iterate each
  vector vec = iterate vec ▹ each float_of ▹ λ ys. ok (arr ys)

  -- `[[float(x) for x in vec] for vec in parsed]`
  unfoldable pub vectors : Json → Result Json
  unfolding iterate each vector
  vectors v = iterate v ▹ each vector ▹ λ ys. ok (arr ys)

module _ (lib : Library) (py : Interpreter) where
  -- `messages` is the list of texts.
  unfoldable pub embed : Runtime → Json → Action Json
  unfolding vectors
  embed self messages = do
    h ← check_handle self
    result ← fetch lib (par_embed h (c_str (py.dumps messages)))
    lift (
        require_text par_error "Embed failed: null result from runtime" result
        ▹ loads_or_raise py
        ▹ check_error par_error
        ▹ vectors py)

  unfoldable pub add_documents : Runtime → Json → Action Json
  unfolding int_str
  add_documents self documents = do
    h ← check_handle self
    result ← call_status lib (par_add_documents h (c_str (py.dumps documents)))
    lift (
        if is_negative result
        then fails par_error ("add_documents failed with code " <> int_str result)
        else ok (int result))

  -- What `load_document` and `load_directory` make of the answer.
  abbrev pub loaded : String → String → Result Json
  loaded empty raw =
      require_text runtime_error empty raw ▹ loads_or_raise py ▹ check_error runtime_error

  unfoldable pub load_document : Runtime → String → Action Json
  load_document self path = do
    h ← check_handle self
    raw ← fetch lib (par_load_document h (c_str path))
    lift (loaded "load_document returned empty result" raw)

  -- `json.dumps(loaders).encode("utf-8") if loaders else b""`
  abbrev pub loaders_json : Option Fields → String
  loaders_json none = ""
  loaders_json (some end) = ""
  loaders_json (some (field k v fs)) = py.dumps (obj (field k v fs))

  unfoldable pub load_directory : Runtime → String → Option Fields → Action Json
  load_directory self path loaders = do
    h ← check_handle self
    raw ← fetch lib (par_load_directory h (c_str path) (loaders_json loaders))
    lift (loaded "load_directory returned empty result" raw)

  abbrev pub rag_result : String → Parsed → Result Json
  rag_result result (parsed v) = check_error par_error v ▹ λ _. ok (str result)
  rag_result result (malformed e) = ok (str result)

  unfoldable pub invoke_with_rag : Runtime → String → String → ℤ → Action Json
  unfolding int_str
  invoke_with_rag self agent_id message k = do
    h ← check_handle self
    result ← fetch lib (par_invoke_with_rag h (c_str agent_id) (c_str message) (c_str (int_str k)))
    lift (
        require_text par_error ("invoke_with_rag failed for agent: " <> agent_id) result ▹ λ r.
        rag_result r (py.loads r))
