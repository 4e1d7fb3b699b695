-- ===== src/Programs/Example/Ends.antt =====
-- How the example ends, and what it has asked of the library by then.
use par.Prelude.{
  ℕ, String, ◌≡◌, ◌∙◌, refl, Bool, true, false, some, ◌&&◌, List, [], ◌∷◌, eqb, if◌then◌else◌, inl,
  inr, Bool-cases,
}
use par.Python.Int.{ℤ, is_zero}
use par.Python.Errors.{Result, ok, fails, tool_error, init_error}
use par.Python.Interpreter.{Interpreter, parsed}
use par.Config.{normalize_config}
use par.Config.Accepts.{normalize_config-accepts}
use par.Ffi.Calls.{
  Library, Call, StatusCall, handle, status, effect, par_init, par_shutdown, par_register_tool,
}
use par.Runtime.Base.{Runtime, check_handle}
use par.Runtime.Object.{pop_all}
use par.Runtime.Lifecycle.{init, exit}
use par.Ffi.Process.{Process, note, lift, ◌>>=◌ as bind, call_status, call_handle, call_effect}
use par.Programs.Example.{
  Console, Exit, returned, exits, main, session, block, with_runtime, config, schema, outcome,
  greeted, ◌>>=◌,
}

module _ (lib : Library) (py : Interpreter) where
  config-accepted :
      py.loads (py.dumps config) ≡ parsed config
      → (n : String) × (normalize_config py (py.dumps config) ≡ ok n)
  config-accepted e = (normalize_config-accepts py (py.dumps config) _ e).0 refl

  abbrev pub calculator : ℕ → StatusCall
  calculator h =
      par_register_tool h "calculator" "Evaluate arithmetic expressions"
        (py.dumps (schema "expression"))

  abbrev pub echo : ℕ → StatusCall
  echo h = par_register_tool h "echo" "Echo back the input" (py.dumps (schema "message"))

  -- The answers of the library on the runtime `h`, after the calls `hist`.
  abbrev pub first_answer : ℕ → List Call → ℤ
  first_answer h hist = lib.status_reply hist (calculator h)

  abbrev pub second_answer : ℕ → List Call → ℤ
  second_answer h hist = lib.status_reply (status (calculator h) ∷ hist) (echo h)

  -- The tools that the example offers: the second only if the first was accepted.
  abbrev pub offered : ℕ → List Call → List Call
  offered h hist =
      if is_zero (first_answer h hist)
      then status (echo h) ∷ status (calculator h) ∷ hist
      else status (calculator h) ∷ hist

  -- What comes of the block, given whether the library accepts the tools.
  abbrev answered : Bool → Bool → Result (Unit {0})
  answered true true = ok tt
  answered true false = fails tool_error "Failed to register tool: echo"
  answered false b = fails tool_error "Failed to register tool: calculator"

  abbrev AfterBlock : ℕ → Process → Result (Unit {0}) × Console → Type 0
  AfterBlock h p x =
      (x.0 ≡ answered (is_zero (first_answer h p.history)) (is_zero (second_answer h p.history)))
      × (x.1.process ≡ record p { history = offered h p.history })

  block_lem :
      (rt : Runtime) (h : ℕ) (c : Console)
      → rt.handle ≡ some h
      → eqb h 0 ≡ false
      → AfterBlock h c.process (block lib py rt c)
  unfolding block bind ◌>>=◌ check_handle call_status
  block_lem rt h c e nz = elim (Bool-cases (is_zero (first_answer h c.process.history))) [
    | inl a ↦ elim (Bool-cases (is_zero (second_answer h c.process.history))) [
      | inl b ↦ simp (e, nz, a, b) (refl, refl)
      | inr b ↦ simp (e, nz, a, b) (refl, refl)
    ]
    | inr a ↦ simp (e, nz, a) (refl, refl)
  ]

  -- What comes of the `try` statement, given the handle that the library gives.
  abbrev tried : ℕ → List Call → Result (Unit {0})
  tried h hist =
      if eqb h 0
      then fails init_error "Failed to initialize PAR runtime"
      else answered (is_zero (first_answer h hist)) (is_zero (second_answer h hist))

  -- All calls of the example; the last one shuts down what it has created.
  abbrev pub made : ℕ → List Call → List Call
  made h hist = if eqb h 0 then hist else effect (par_shutdown h) ∷ offered h hist

  session_lem :
      (c : Console) (n : String) (h : ℕ)
      → normalize_config py (py.dumps config) ≡ ok n
      → lib.handle_reply c.process.history (par_init n) ≡ h
      → let hist = handle (par_init n) ∷ c.process.history in
        ((session lib py c).0 ≡ tried h hist)
        × ((session lib py c).1.process ≡ record c.process { history = made h hist })
  unfolding session init with_runtime bind ◌>>=◌ call_handle lift exit call_effect pop_all
  session_lem c n h e a = elim (Bool-cases (eqb h 0)) [
    | inl z ↦ simp (e, a, z) (refl, refl)
    | inr nz ↦
        let rt : Runtime = record { handle = some h; callback_ids = [] } in
        let d : Console = record c { process = note (handle (par_init n)) c.process } in
        let b = block_lem rt h d refl nz in simp (e, a, nz) (b.0, simp b.1 refl)
  ]

  outcome-answered :
      (a b : Bool) (c : Console)
      → ((outcome lib py (answered a b) c).0 ≡ (if a && b then returned else exits 1))
        × ((outcome lib py (answered a b) c).1.process ≡ c.process)
  unfolding ◌>>=◌
  outcome-answered true true c = (refl, refl)
  outcome-answered true false c = (refl, refl)
  outcome-answered false b c = (refl, refl)

  -- How the example ends.
  abbrev pub judged : ℕ → List Call → Exit
  judged h hist =
      if eqb h 0
      then exits 1
      else if is_zero (first_answer h hist) && is_zero (second_answer h hist)
      then returned
      else exits 1

  outcome-tried :
      (h : ℕ) (hist : List Call) (r : Result (Unit {0})) (c : Console)
      → r ≡ tried h hist
      → ((outcome lib py r c).0 ≡ judged h hist) × ((outcome lib py r c).1.process ≡ c.process)
  unfolding ◌>>=◌
  outcome-tried h hist r c e = rw e (elim (Bool-cases (eqb h 0)) [
    | inl z ↦ simp z (refl, refl)
    | inr nz ↦
        simp nz
          (outcome-answered (is_zero (first_answer h hist)) (is_zero (second_answer h hist)) c)
  ])

  -- Where `json.loads` reads what `json.dumps` prints of the configuration, the example's configuration is
  -- accepted. The example then ends normally if the library creates a runtime and accepts both tools, and by
  -- `sys.exit(1)` otherwise, never with another exception. It offers the second tool only after the first was
  -- accepted, and shuts down the runtime that it has created, once and last, however the block ends.
  pub main-made :
      (c : Console)
      → py.loads (py.dumps config) ≡ parsed config
      → (n : String) × (normalize_config py (py.dumps config) ≡ ok n)
        × (let h = lib.handle_reply c.process.history (par_init n) in
            let hist = handle (par_init n) ∷ c.process.history in
            ((main lib py c).0 ≡ judged h hist)
            × ((main lib py c).1.process ≡ record c.process { history = made h hist }))
  unfolding main
  main-made c l =
      let (n, e) = config-accepted l in
      let h = lib.handle_reply c.process.history (par_init n) in
      let s = session_lem (greeted c) n h e refl in
      let o = outcome-tried h _ _ (session lib py (greeted c)).1 s.0 in (n, e, (o.0, o.1 ∙ s.1))
