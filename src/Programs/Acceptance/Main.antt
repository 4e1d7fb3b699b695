-- ===== src/Programs/Acceptance/Main.antt =====
-- `run_in_venv` and `main` of scripts/release-acceptance-test.py, one function for each level.
use par.Prelude.{ℕ, String, ◌<>◌, List, [], ◌∷◌, if◌then◌else◌}
use par.Python.Int.{is_zero}
use par.Python.Text.{repr_str}
use par.Python.Errors.{ok}
use par.Python.Interpreter.{Interpreter}
use par.Programs.Acceptance.Machine.{
  remove_tree, create_venv, run, out, err, Completed, Machine, Script, return, ◌>>=◌, ◌>>◌, print,
  fail,
}
use par.Programs.Acceptance.Text.{strip, thousands}
use par.Programs.Acceptance.Config.{test_config}

abbrev pub venv_dir : String
venv_dir = "/tmp/par-acceptance-venv"

abbrev pub venv_pip : String
venv_pip = "/tmp/par-acceptance-venv/bin/pip"

abbrev pub venv_python : String
venv_python = "/tmp/par-acceptance-venv/bin/python"

-- `sys.argv[0]`
abbrev first : List String → String
first [] = ""
first (program ∷ args) = program

-- The programs that the script runs in the environment.
abbrev pub level1_code : String → String
level1_code expected_version =
    "import par_runtime, re\n"
    <> "_v = par_runtime.__version__\n"
    <> "_e = "
    <> repr_str expected_version
    <> "\n"
    <> "def _norm(s):\n"
    <> "    s = re.sub(r'-alpha\\.', 'a', s)\n"
    <> "    s = re.sub(r'-beta\\.', 'b', s)\n"
    <> "    s = re.sub(r'-rc\\.', 'rc', s)\n"
    <> "    s = re.sub(r'-dev\\.', 'dev', s)\n"
    <> "    s = re.sub(r'-post\\.', 'post', s)\n"
    <> "    return s\n"
    <> "assert _norm(_v) == _norm(_e), 'version mismatch: ' + repr(_v) + ' != ' + repr(_e)\n"
    <> "print('import ok, version', _v)\n"

abbrev pub level2_code : String → String
level2_code config =
    "import json\n"
    <> "from par_runtime import Runtime\n"
    <> "config = "
    <> repr_str config
    <> "\n"
    <> "rt = Runtime(config)\n"
    <> "rt.register_tool('echo', 'Echo tool', '{\"type\": \"object\"}')\n"
    <> "rt.register_skill(json.dumps({"
    <> "'schema_version': 1, 'id': 'test-skill', 'name': 'Test', "
    <> "'description': 'Acceptance test skill'}))\n"
    <> "skills = rt.list_skills()\n"
    <> "assert len(skills) >= 1, f'Expected >=1 skill, got {len(skills)}'\n"
    <> "assert skills[0]['id'] == 'test-skill', f\"Expected test-skill, got {skills[0]['id']}\"\n"
    <> "rt.close()\n"
    <> "print('Runtime lifecycle + skill registration ok')\n"

abbrev pub exports_code : String
exports_code = "import par_runtime; print('exports:', par_runtime.__all__)"

abbrev pub path_code : String
path_code = "from par_runtime._ffi import _find_library; " <> "print('so path:', _find_library())"

module _ (m : Machine) (py : Interpreter) where
  -- `subprocess.run(argv, capture_output=True, text=True)`
  abbrev pub subprocess : List String → Script Completed
  subprocess argv s = (m.execute s.steps argv, record s { steps = run argv ∷ s.steps })

  abbrev pub in_venv : String → List String
  in_venv code = venv_python ∷ "-c" ∷ code ∷ []

  abbrev pub run_in_venv : String → Script Completed
  run_in_venv code = subprocess (in_venv code)

  -- `if venv_dir.exists(): shutil.rmtree(venv_dir, ignore_errors=True)`
  abbrev pub remove_stale : Script Unit
  remove_stale s =
      if m.exists s.steps venv_dir
      then (ok tt, record s { steps = remove_tree venv_dir ∷ s.steps })
      else (ok tt, s)

  -- `venv.create(venv_dir, with_pip=True, clear=True)`
  abbrev pub create_environment : Script Unit
  create_environment s =
      (m.create s.steps venv_dir, record s { steps = create_venv venv_dir ∷ s.steps })

  abbrev pub informational : String → String → Script Unit
  unfolding strip ◌>>=◌
  informational code otherwise = do
    c ← run_in_venv code
    print (out (if is_zero c.returncode then strip c.stdout else otherwise))

  unfoldable pub level3 : Script ℕ
  unfolding strip ◌>>=◌
  level3 = do
    print (out "\n=== Level 3: informational (never fails the build) ===")
    informational exports_code "(skipped: __all__ not introspectable)"
    informational path_code "(skipped: _find_library not callable)"
    print (out "\n=== ALL TESTS PASSED ===")
    return 0

  unfoldable pub level2 : Script ℕ
  unfolding strip ◌>>=◌ level3 fail repr_str
  level2 = do
    print (out "\n=== Level 2: Runtime init + register_tool + close (SHOULD pass) ===")
    c ← run_in_venv (level2_code (py.dumps test_config))
    if is_zero c.returncode
        then print (out ("PASS: " <> strip c.stdout)) >> level3
        else fail "Level 2 (Runtime lifecycle)" 2 c.stdout c.stderr

  unfoldable pub level1 : String → Script ℕ
  unfolding strip ◌>>=◌ level2 fail repr_str
  level1 expected_version = do
    print (out "\n=== Level 1: import + version (MUST pass) ===")
    c ← run_in_venv (level1_code expected_version)
    if is_zero c.returncode
        then print (out ("PASS: " <> strip c.stdout)) >> level2
        else fail "Level 1 (import + version)" 1 c.stdout c.stderr

  abbrev pub pip_install : String → List String
  pip_install wheel_path = venv_pip ∷ "install" ∷ "--no-cache-dir" ∷ wheel_path ∷ []

  unfoldable pub install : String → String → Script ℕ
  unfolding ◌>>=◌ level1 fail
  install wheel_path expected_version = do
    print (out "\n=== Installing wheel ===")
    c ← subprocess (pip_install wheel_path)
    if is_zero c.returncode
        then print (out "PASS: pip install") >> level1 expected_version
        else fail "pip install failed" 1 c.stdout c.stderr

  unfoldable pub test_wheel : String → String → Script ℕ
  unfolding ◌>>=◌ install thousands
  test_wheel wheel_path expected_version = do
    print (out ("Testing wheel: " <> m.name wheel_path))
    print (out ("Expected version: " <> expected_version))
    print (out ("Wheel size: " <> thousands (m.size wheel_path) <> " bytes"))
    print (out "")
    remove_stale
    print (out ("Creating venv at " <> venv_dir <> "..."))
    create_environment
    install wheel_path expected_version

  abbrev pub existing_wheel : String → String → Script ℕ
  unfolding test_wheel ◌>>=◌
  existing_wheel wheel_path expected_version s =
      if m.exists s.steps wheel_path
      then test_wheel wheel_path expected_version s
      else (print (err ("FAIL: wheel not found at " <> wheel_path)) >> return 3) s

  abbrev pub usage_error : List String → Script ℕ
  unfolding ◌>>=◌
  usage_error argv =
      print (err ("Usage: " <> first argv <> " <wheel-path> <expected-version>")) >> return 3

  -- `main`, given `sys.argv`.
  unfoldable pub main : List String → Script ℕ
  unfolding test_wheel
  main (program ∷ wheel ∷ expected_version ∷ []) = existing_wheel (m.resolve wheel) expected_version
  main argv = usage_error argv
