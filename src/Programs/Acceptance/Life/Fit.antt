-- ===== src/Programs/Acceptance/Life/Fit.antt =====
-- When the program of the second level passes, and what it has then asked of the library.
use par.Prelude.{
  ℕ, String, ◌≡◌, ◌∙◌, ap, subst, refl, true, false, some, Bool, not, ◌&&◌, ◌↔◌, Option, none, List,
  [], inl, inr, Bool-cases, ◌∷◌, eqb, if◌then◌else◌, ◌==◌, arith,
}
use par.Python.Int.{is_zero}
use par.Python.Json.{Json, str, arr, obj, nil, cons, end, field, get}
use par.Python.Text.{str_of}
use par.Python.Errors.{Error, Result, Result-cases, ok, raised, ◌▹◌}
use par.Python.Interpreter.{Interpreter, Parsed, parsed, malformed, parsed_or_raise, loads_or_raise}
use par.Config.{normalize_config}
use par.Ffi.Calls.{
  Library, Call, StatusCall, Bytes, utf8, invalid, handle, status, text, effect, par_init,
  par_shutdown, par_register_tool, par_register_skill, par_list_skills,
}
use par.Ffi.Process.{
  Process, continue, ◌>>=◌, lift, call_status, call_handle, call_text, call_effect,
}
use par.Ffi.Strings.{raw_text, free, decode}
use par.Runtime.Base.{Runtime, check_handle}
use par.Runtime.Registration.{list_skills, read_list}
use par.Runtime.Lifecycle.{init, close}
use par.Programs.Acceptance.Config.{test_config}
use par.Programs.Acceptance.Life.{skill, inspect, life, first_id, check_id, closing}

module _ (lib : Library) (py : Interpreter) where
  abbrev pub tool_call : ℕ → StatusCall
  tool_call h = par_register_tool h "echo" "Echo tool" "{\"type\": \"object\"}"

  abbrev pub skill_call : ℕ → StatusCall
  skill_call h = par_register_skill h (py.dumps skill)

  -- The history before the skills are listed, and at the end.
  abbrev pub registered : ℕ → List Call → List Call
  registered h hist = status (skill_call h) ∷ status (tool_call h) ∷ hist

  abbrev pub lived : ℕ → List Call → List Call
  lived h hist = effect (par_shutdown h) ∷ text (par_list_skills h) ∷ registered h hist

  -- What `list_skills` makes of the answer.
  abbrev listed : Option Bytes → Result Json
  listed none = ok (arr nil)
  listed (some b) = decode b ▹ λ s. if s == "" then ok (arr nil) else loads_or_raise py s

  abbrev is_test_id : Option Json → Bool
  is_test_id (some (str s)) = s == "test-skill"
  is_test_id o = false

  -- The first element of the list is the skill that was registered.
  abbrev lists_skill : Parsed → Bool
  lists_skill (parsed (arr (cons (obj fs) xs))) = is_test_id (get "id" fs)
  lists_skill v = false

  abbrev pub answers_skill : Option Bytes → Bool
  answers_skill (some (utf8 s)) = not (s == "") && lists_skill (py.loads s)
  answers_skill o = false

  -- What the library must do for the program to pass.
  abbrev pub is_fit : ℕ → List Call → Bool
  is_fit h hist =
      not (eqb h 0)
      && is_zero (lib.status_reply hist (tool_call h))
      && is_zero (lib.status_reply (status (tool_call h) ∷ hist) (skill_call h))
      && answers_skill (lib.text_reply (registered h hist) (par_list_skills h))

  -- What is passed exactly when `fit`, and then has made the calls `hist`.
  abbrev Passes : Bool → List Call → Result (Unit {0}) × Process → Type 0
  Passes fit hist x = ((x.0 ≡ ok tt) ↔ (fit ≡ true)) × (fit ≡ true → x.1.history ≡ hist)

  -- The answer to `par_list_skills`, read.
  read_lem :
      (rt : Runtime) (h : ℕ) (q : Process)
      → rt.handle ≡ some h
      → eqb h 0 ≡ false
      → ((list_skills lib py rt q).1.history ≡ text (par_list_skills h) ∷ q.history)
        × ((list_skills lib py rt q).0 ≡ listed (lib.text_reply q.history (par_list_skills h)))
  unfolding ◌>>=◌ check_handle call_text read_list raw_text free list_skills
  read_lem rt h q e nz = ground arith

  abbrev is_ok : Result (Unit {0}) → Bool
  is_ok (ok u) = true
  is_ok (raised e) = false

  valued : (v : Json) → is_ok (first_id v ▹ check_id) ≡ lists_skill (parsed v)
  unfolding str_of
  valued (arr nil) = refl
  valued (arr (cons (obj fs) xs)) = ground arith
  valued (arr (cons x xs)) = ground arith
  valued (obj end) = refl
  valued (obj (field k v fs)) = refl
  valued (str s) = ground arith
  valued v = refl

  parsed_lem : (x : Parsed) → is_ok (parsed_or_raise x ▹ first_id ▹ check_id) ≡ lists_skill x
  parsed_lem (parsed v) = valued v
  parsed_lem (malformed e) = refl

  failing : (x : Error) (q : Process) (hist : List Call) → Passes false hist (raised x, q)
  failing x q hist = ((λ h. cc, λ h. cc), λ h. cc)

  answers-listed : (o : Option Bytes) → is_ok (listed o ▹ first_id ▹ check_id) ≡ answers_skill o
  unfolding str_of
  answers-listed none = refl
  answers-listed (some invalid) = refl
  answers-listed (some (utf8 s)) = elim (Bool-cases (s == "")) [
    | inl e ↦ simp e refl
    | inr e ↦ simp e (parsed_lem (py.loads s))
  ]

  -- The rest of `inspect`, after the list.
  after_list :
      (rt : Runtime) (h : ℕ) (q : Process) (r : Result Json)
      → rt.handle ≡ some h
      → eqb h 0 ≡ false
      → Passes (is_ok (r ▹ first_id ▹ check_id)) (effect (par_shutdown h) ∷ q.history) (
          continue
            (λ skills.
              lift (first_id skills) >>= λ id. lift (check_id id) >>= λ _. closing lib py rt)
            r
            q)
  unfolding ◌>>=◌ lift close call_effect
  after_list rt h q (raised x) e nz = failing x q _
  after_list rt h q (ok v) e nz = elim (Result-cases (first_id v)) [
    | inr (x, a) ↦ simp a (failing x q _)
    | inl (id, a) ↦ elim (Result-cases (check_id id)) [
      | inr (x, b) ↦ simp (a, b) (failing x q _)
      | inl (u, b) ↦ simp (a, b, e, nz) ((λ h. refl, λ h. refl), λ h. refl)
    ]
  ]

  rest_lem :
      (rt : Runtime) (h : ℕ) (q : Process)
      → rt.handle ≡ some h
      → eqb h 0 ≡ false
      → Passes
          (answers_skill (lib.text_reply q.history (par_list_skills h)))
          (effect (par_shutdown h) ∷ text (par_list_skills h) ∷ q.history)
          (inspect lib py rt q)
  unfolding inspect ◌>>=◌ lift close call_effect
  rest_lem rt h q e nz =
      let (calls, result) = read_lem rt h q e nz in
      let s = list_skills lib py rt q in
      let fit =
        ap (λ r. is_ok (r ▹ first_id ▹ check_id)) result
        ∙ answers-listed (lib.text_reply q.history (par_list_skills h)) in
      subst
        (λ fit.
          Passes fit (effect (par_shutdown h) ∷ text (par_list_skills h) ∷ q.history)
            (inspect lib py rt q))
        fit
        (subst
          (λ hist.
            Passes (is_ok (s.0 ▹ first_id ▹ check_id)) (effect (par_shutdown h) ∷ hist)
              (inspect lib py rt q))
          calls (after_list rt h s.1 s.0 e nz))

  -- Where the configuration is accepted as `n` and the library creates the runtime `h`, the program of the
  -- second level passes if and only if the library accepts the tool and the skill and then lists the skill
  -- first. It has then made exactly these calls, and shut the runtime down.
  pub life-passes :
      (p : Process) (n : String) (h : ℕ)
      → normalize_config py (py.dumps test_config) ≡ ok n
      → lib.handle_reply p.history (par_init n) ≡ h
      → let hist = handle (par_init n) ∷ p.history in
        (((life lib py p).0 ≡ ok tt) ↔ (is_fit h hist ≡ true))
        × (is_fit h hist ≡ true → (life lib py p).1.history ≡ lived h hist)
  unfolding life ◌>>=◌ init check_handle call_status call_handle lift
  life-passes p n h e a =
      let hist = handle (par_init n) ∷ p.history in
      let rt : Runtime = record { handle = some h; callback_ids = [] } in
      let first = lib.status_reply hist (tool_call h) in
      let second = lib.status_reply (status (tool_call h) ∷ hist) (skill_call h) in
      elim (Bool-cases (eqb h 0)) [
        | inl z ↦ simp (e, a, z) (failing _ (record p { history = hist }) _)
        | inr nz ↦
            let rest = rest_lem rt h (record p { history = registered h hist }) refl nz in
            elim (Bool-cases (is_zero first)) [
              | inr b ↦
                  simp (e, a, nz, b)
                    (failing _ (record p { history = status (tool_call h) ∷ hist }) _)
              | inl b ↦ elim (Bool-cases (is_zero second)) [
                | inr c ↦
                    simp (e, a, nz, b, c) (failing _ (record p { history = registered h hist }) _)
                | inl c ↦ simp (e, a, nz, b, c) (simp nz at rest)
              ]
            ]
      ]
