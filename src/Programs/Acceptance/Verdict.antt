-- ===== src/Programs/Acceptance/Verdict.antt =====
-- The exit code of `main`, and what the script has run by then.
use par.Prelude.{
  ℕ, String, ◌<>◌, ◌≡◌, inl, inr, refl, Bool, true, false, List, [], ◌∷◌, eqb, arith, if◌then◌else◌,
  Bool-cases,
}
use par.Python.Int.{is_zero}
use par.Python.Errors.{Result, ok}
use par.Python.Interpreter.{Interpreter}
use par.Programs.Acceptance.Machine.{
  Step, remove_tree, create_venv, run, Session, Script, Completed, Machine, ◌>>=◌, ◌>>◌, print, out,
  fail,
}
use par.Programs.Acceptance.Text.{strip}
use par.Programs.Acceptance.Config.{test_config}
use par.Programs.Acceptance.Main.{
  venv_dir, level1_code, level2_code, exports_code, path_code, in_venv, subprocess, pip_install,
  level3, level2, level1, install, test_wheel, main,
}

-- Commands that must succeed one after the other, each with the exit code of its failure.
abbrev pub attempt :
    (List Step → List String → Completed) → List (List String × ℕ) → List Step → ℕ × List Step
attempt answer [] ss = (0, ss)
attempt answer ((argv, code) ∷ rest) ss =
    let later = attempt answer rest (run argv ∷ ss) in
    if is_zero (answer ss argv).returncode then later else (code, run argv ∷ ss)

module _ (m : Machine) (py : Interpreter) where
  -- After success, two more commands whose answers do not matter.
  abbrev pub informed : ℕ × List Step → List Step
  informed (code, ss) =
      if eqb code 0 then run (in_venv m py path_code) ∷ run (in_venv m py exports_code) ∷ ss else ss

  abbrev Does : Result ℕ × Session → ℕ × List Step → Type 0
  Does x c = (x.0 ≡ ok c.0) × (x.1.steps ≡ informed c)

  Does-if :
      (b : Bool) (f g : Script ℕ) (s : Session) (c d : ℕ × List Step)
      → Does (f s) c
      → Does (g s) d
      → Does ((if b then f else g) s) (if b then c else d)
  Does-if true f g s c d x y = x
  Does-if false f g s c d x y = y

  fail-Does :
      (message : String) (level : ℕ) (stdout stderr : String) (s : Session)
      → eqb level 0 ≡ false
      → Does (fail message level stdout stderr s) (level, s.steps)
  unfolding fail ◌>>=◌
  fail-Does message level stdout stderr s h = ground arith

  abbrev pub required : String → String → List (List String × ℕ)
  required wheel_path expected_version =
      (pip_install m py wheel_path, 1)
      ∷ (in_venv m py (level1_code expected_version), 1)
      ∷ (in_venv m py (level2_code (py.dumps test_config)), 2)
      ∷ []

  -- The environment is new: one that is there is removed.
  abbrev pub prepared : List Step → List Step
  prepared ss =
      create_venv venv_dir ∷ (if m.exists ss venv_dir then remove_tree venv_dir ∷ ss else ss)

  -- What the script is to do: nothing, with the code 3, unless it has its two arguments and the wheel is
  -- there.
  abbrev pub course :
      (List Step → List String → Completed) → List String → List Step → ℕ × List Step
  course answer (program ∷ wheel ∷ v ∷ []) ss =
      if m.exists ss (m.resolve wheel)
      then attempt answer (required (m.resolve wheel) v) (prepared ss)
      else (3, ss)
  course answer argv ss = (3, ss)

  module _ (answer : List Step → List String → Completed)
      (runs : (ss : List Step) (argv : List String) → m.execute ss argv ≡ ok (answer ss argv)) where
    level3_lem : (s : Session) → Does (level3 m py s) (0, s.steps)
    unfolding level3 ◌>>=◌
    level3_lem s = simp runs (refl, refl)

    -- A level that prints its name, runs a command, and goes on if it succeeds.
    stage_lem :
        (name : String) (argv : List String) (passed : Completed → String) (next : Script ℕ)
        (message : String) (code : ℕ) (rest : List (List String × ℕ)) (s : Session)
        → ((t : Session) → Does (next t) (attempt answer rest t.steps))
        → eqb code 0 ≡ false
        → Does
            ((print (out name)
                >> (subprocess m py argv >>= λ c.
                    if is_zero c.returncode
                    then print (out (passed c)) >> next
                    else fail message code c.stdout c.stderr))
              s)
            (attempt answer ((argv, code) ∷ rest) s.steps)
    unfolding ◌>>=◌
    stage_lem name argv passed next message code rest s goes_on h =
        let c = answer s.steps argv in
        let t : Session = record { steps = run argv ∷ s.steps; printed = out name ∷ s.printed } in
        simp (runs s.steps argv) (
          Does-if (is_zero c.returncode) (print (out (passed c)) >> next)
            (fail message code c.stdout c.stderr) t _ _ (goes_on _)
            (fail-Does message code c.stdout c.stderr t h))

    abbrev tried2 : List (List String × ℕ)
    tried2 = (in_venv m py (level2_code (py.dumps test_config)), 2) ∷ []

    abbrev tried1 : String → List (List String × ℕ)
    tried1 v = (in_venv m py (level1_code v), 1) ∷ tried2

    level2_lem : (s : Session) → Does (level2 m py s) (attempt answer tried2 s.steps)
    unfolding level2 ◌>>=◌
    level2_lem s =
        stage_lem "\n=== Level 2: Runtime init + register_tool + close (SHOULD pass) ===" _
          (λ c. "PASS: " <> strip c.stdout) (level3 m py) "Level 2 (Runtime lifecycle)" 2 [] s
          level3_lem refl

    level1_lem :
        (v : String) (s : Session) → Does (level1 m py v s) (attempt answer (tried1 v) s.steps)
    unfolding level1 ◌>>=◌
    level1_lem v s =
        stage_lem "\n=== Level 1: import + version (MUST pass) ===" _
          (λ c. "PASS: " <> strip c.stdout) (level2 m py) "Level 1 (import + version)" 1 tried2 s
          level2_lem refl

    install_lem :
        (w v : String) (s : Session)
        → Does (install m py w v s) (attempt answer (required w v) s.steps)
    unfolding install ◌>>=◌
    install_lem w v s =
        stage_lem "\n=== Installing wheel ===" _ (λ c. "PASS: pip install") (level1 m py v)
          "pip install failed" 1 (tried1 v) s (level1_lem v) refl

    test_wheel_lem :
        (w v : String) (s : Session)
        → ((ss : List Step) (dir : String) → m.create ss dir ≡ ok tt)
        → Does (test_wheel m py w v s) (attempt answer (required w v) (prepared s.steps))
    unfolding test_wheel ◌>>=◌
    test_wheel_lem w v s creates = elim (Bool-cases (m.exists s.steps venv_dir)) [
      | inl e ↦ simp (creates, e) (install_lem w v _)
      | inr e ↦ simp (creates, e) (install_lem w v _)
    ]

    -- On a machine that can make the environment and start programs, the script ends with 3 and has not
    -- touched the machine, if it is called with another number of arguments or with a wheel that is not there.
    -- Otherwise it makes the environment anew and then runs pip, the import with the comparison of versions
    -- and the life of a runtime, one after the other, as long as they succeed. The exit code is that of the
    -- first that fails, 1, 1 or 2; it is 0 if none fails, whatever the two commands after that answer.
    pub main-course :
        (argv : List String) (s : Session)
        → ((ss : List Step) (dir : String) → m.create ss dir ≡ ok tt)
        → ((main m py argv s).0 ≡ ok (course answer argv s.steps).0)
          × ((main m py argv s).1.steps ≡ informed (course answer argv s.steps))
    unfolding main ◌>>=◌
    main-course (program ∷ wheel ∷ v ∷ []) s creates =
        elim (Bool-cases (m.exists s.steps (m.resolve wheel))) [
          | inl e ↦ simp e (test_wheel_lem (m.resolve wheel) v s creates)
          | inr e ↦ simp e (refl, refl)
        ]
    main-course [] s creates = (refl, refl)
    main-course (a ∷ []) s creates = (refl, refl)
    main-course (a ∷ b ∷ []) s creates = (refl, refl)
    main-course (a ∷ b ∷ c ∷ d ∷ xs) s creates = (refl, refl)
