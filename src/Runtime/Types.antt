-- ===== src/Runtime/Types.antt =====
-- The types of what the methods of `Runtime` return, against their annotations.
use par.Prelude.{◌≡◌, Bool, true, false, ◌&&◌, arith, inl, inr}
use par.Python.Json.{Json, Items, null, bool, int, dec, str, arr, nil, cons}
use par.Python.Errors.{Result, ok, raised, par_error, ◌▹◌, Result-cases}
use par.Python.Interpreter.{Interpreter, loads_or_raise}
use par.Ffi.Calls.{Library, par_embed}
use par.Ffi.Process.{Process, Action, ◌>>=◌, lift, call_status, call_text, call_effect}
use par.Ffi.Strings.{fetch, py_str, raw_text}
use par.Runtime.Base.{Runtime, check_handle, check_error, require_text}
use par.Runtime.Registration.{read_list}
use par.Runtime.Session.{read_text}
use par.Runtime.Invoke.{read_poll}
use par.Runtime.Documents.{each, embed, iterate, vector, vectors, float_of}
use par.Runtime.Requests.{Request, perform}

-- `value` is any JSON value: the annotation of a method that hands on what `json.loads` returns without a
-- look at its type.
pub data Annotation : Type 0 where
  none_type str_type int_type flag_type matrix_type value : Annotation

abbrev pub annotation : Request → Annotation
annotation (Request.get_session_id) = str_type
annotation (Request.invoke a m s u d i) = str_type
annotation (Request.recover_invoke i s u) = str_type
annotation (Request.invoke_content a c s u) = str_type
annotation (Request.invoke_start a m s u) = str_type
annotation (Request.invoke_with_rag a m k) = str_type
annotation (Request.submit_workflow w) = str_type
annotation (Request.resume_workflow r) = str_type
annotation (Request.save_conversation s) = int_type
annotation (Request.add_documents d) = int_type
annotation (Request.load_conversation i) = flag_type
annotation (Request.embed m) = matrix_type
annotation Request.list_skills = value
annotation Request.get_user_activated_skills = value
annotation Request.list_llm_providers = value
annotation (Request.list_conversations s n) = value
annotation Request.list_orphaned_invokes = value
annotation (Request.invoke_generate a m s u) = value
annotation (Request.invoke_poll h t) = value
annotation (Request.load_document p) = value
annotation (Request.load_directory p l) = value
annotation (Request.invoke_structured a m s) = value
annotation (Request.invoke_parallel s l p) = value
annotation (Request.workflow_status r) = value
annotation Request.health = value
annotation Request.metrics = value
annotation Request.mcp_tool_descriptors = value
annotation (Request.mcp_server i) = value
annotation (Request.mcp_list_tools i) = value
annotation r = none_type

abbrev pub all_items : (Json → Bool) → Items → Bool
all_items test nil = true
all_items test (cons x xs) = test x && all_items test xs

abbrev pub is_float : Json → Bool
is_float (dec z k) = true
is_float v = false

abbrev pub is_vector : Json → Bool
is_vector (arr xs) = all_items is_float xs
is_vector v = false

abbrev pub is_matrix : Json → Bool
is_matrix (arr xs) = all_items is_vector xs
is_matrix v = false

abbrev is_str : Json → Bool
is_str (str s) = true
is_str v = false

abbrev is_int : Json → Bool
is_int (int z) = true
is_int v = false

abbrev is_null : Json → Bool
is_null null = true
is_null v = false

-- `True` or `None`
abbrev is_flag : Json → Bool
is_flag (bool true) = true
is_flag null = true
is_flag v = false

-- `isinstance` at an annotation.
abbrev pub has_type : Annotation → Json → Bool
has_type none_type v = is_null v
has_type str_type v = is_str v
has_type int_type v = is_int v
has_type flag_type v = is_flag v
has_type matrix_type v = is_matrix v
has_type value v = true

module _ (py : Interpreter) where
  -- A list comprehension whose every element fits.
  each-all_items :
      (f : Json → Result Json) (test : Json → Bool)
      → ((x y : Json) → f x ≡ ok y → test y ≡ true)
      → (xs ys : Items) → each py f xs ≡ ok ys
      → all_items test ys ≡ true
  unfolding each
  each-all_items f test fits nil ys h = ground arith
  each-all_items f test fits (cons x xs) ys h = elim (Result-cases (f x)) [
    | inr (e, r) ↦ cc (simp r at h)
    | inl (y, r) ↦ elim (Result-cases (each py f xs)) [
      | inr (e, q) ↦ cc (simp (r, q) at h)
      | inl (zs, q) ↦
          ground (arith, simp (r, q) at h, fits x y r, each-all_items f test fits xs zs q)
    ]
  ]

  float_of-is_float : (x y : Json) → float_of py x ≡ ok y → is_float y ≡ true
  float_of-is_float (bool true) y h = ground arith
  float_of-is_float (bool false) y h = ground arith
  float_of-is_float (str s) y h = ground arith
  float_of-is_float x y h = ground arith

  -- A list of what `each` gives, for an argument that can be iterated over.
  listed :
      (f : Json → Result Json) (test : Json → Bool) (v w : Json)
      → ((x y : Json) → f x ≡ ok y → test y ≡ true)
      → (iterate v ▹ each py f ▹ λ ys. ok (arr ys)) ≡ ok w
      → (ys : Items) × (w ≡ arr ys) × (all_items test ys ≡ true)
  listed f test v w fits h = elim (Result-cases (iterate v)) [
    | inr (e, r) ↦ absurd (cc (simp r at h))
    | inl (xs, r) ↦ elim (Result-cases (each py f xs)) [
      | inr (e, q) ↦ absurd (cc (simp (r, q) at h))
      | inl (ys, q) ↦ (ys, cc (simp (r, q) at h), each-all_items f test fits xs ys q)
    ]
  ]

  vector-is_vector : (v w : Json) → vector py v ≡ ok w → is_vector w ≡ true
  unfolding vector
  vector-is_vector v w h =
      let (ys, e, t) = listed (float_of py) is_float v w float_of-is_float h in rw e t

  vectors-is_matrix : (v w : Json) → vectors py v ≡ ok w → is_matrix w ≡ true
  unfolding vectors
  vectors-is_matrix v w h =
      let (ys, e, t) = listed (vector py) is_vector v w vector-is_vector h in rw e t

-- What a chain returns is what its last step returns.
bind-ok :
    {A : Type 0} (m : Action A) (f : A → Action Json) (p : Process) (v : Json)
    → ((m >>= f) p).0 ≡ ok v
    → (a : A) × (q : Process) × ((f a q).0 ≡ ok v)
unfolding ◌>>=◌
bind-ok m f p v h = elim (Result-cases (m p).0) [
  | inl (a, r) ↦ (a, (m p).1, simp r at h)
  | inr (e, r) ↦ absurd (cc (simp r at h))
]

then-ok :
    (r : Result Json) (f : Json → Result Json) (v : Json)
    → (r ▹ f) ≡ ok v
    → (x : Json) × (f x ≡ ok v)
then-ok (ok x) f v h = (x, h)
then-ok (raised e) f v h = absurd (cc h)

module _ (lib : Library) (py : Interpreter) where
  embed-is_matrix :
      (m : Json) (self : Runtime) (p : Process) (v : Json)
      → (embed lib py self m p).0 ≡ ok v
      → is_matrix v ≡ true
  unfolding embed lift
  embed-is_matrix m self p v h =
      let (a, q, e) = bind-ok (check_handle self) _ p v h in
      let (s, q', e') = bind-ok (fetch lib (par_embed a (py.dumps m))) _ q v e in
      let (x, e'') =
        then-ok
          (require_text par_error "Embed failed: null result from runtime" s
            ▹ loads_or_raise py
            ▹ check_error par_error)
          (vectors py) v e' in
      vectors-is_matrix py x v e''

  -- What a method returns has the type of its annotation, whatever the library answers: `None`, a text, a
  -- number, `True` or `None`, or a list of lists of floats. Of the methods that hand on a JSON value as it is
  -- read (those annotated `value` here), nothing is said.
  pub perform-has_type :
      (r : Request) (self : Runtime) (p : Process) (v : Json)
      → (perform lib py r self p).0 ≡ ok v
      → has_type (annotation r) v ≡ true
  unfolding perform ◌>>=◌ check_handle call_status call_text call_effect fetch py_str read_list
      read_text read_poll raw_text
  perform-has_type (Request.embed m) self p v h = embed-is_matrix m self p v h
  perform-has_type _ self p v h = ground arith
