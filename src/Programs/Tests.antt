-- ===== src/Programs/Tests.antt =====
-- Runs of the two programs.
use par.Prelude.{◌↔◌, some, if◌then◌else◌, String, ◌≡◌, refl, true, List, [], ◌∷◌, ◌==◌}
use par.Package.{package_version}
use par.Fixtures.{demo_lib, demo_py, quiet}
use par.Python.Int.{pos}
use par.Python.Json.{Json, str, arr, obj, nil, cons, end, field}
use par.Python.Errors.{ok}
use par.Python.Interpreter.{Interpreter, parsed}
use par.Config.{normalize_config}
use par.Config.Accepts.{normalize_config-accepts}
use par.Ffi.Calls.{Library, utf8, handle, par_init}
use par.Programs.Acceptance.Versions.{norm}
use par.Programs.Acceptance.Machine.{Step, Session, Completed, Machine}
use par.Programs.Acceptance.Main.{main as test_main}
use par.Programs.Acceptance.Verdict.{course, informed, main-course}
use par.Programs.Acceptance.Config.{test_config}
use par.Programs.Acceptance.Life.{life}
use par.Programs.Acceptance.Life.Fit.{is_fit, lived, life-passes}
use par.Programs.Example.{Console, config, main}
use par.Programs.Example.Ends.{judged, made, main-made}

-- pip and the import succeed; the life of a runtime does not.
abbrev failing_third : List Step → List String → Completed
failing_third (a ∷ b ∷ c ∷ ss) argv = record {
  returncode = pos 1;
  stdout = "";
  stderr = "Traceback";
}
failing_third ss argv = record { returncode = pos 0; stdout = "fine"; stderr = "" }

abbrev machine : Machine
machine = record {
  resolve = λ path. path;
  name = λ path. path;
  exists = λ ss path. path == "par.whl";
  size = λ path. 12345;
  create = λ ss dir. ok tt;
  execute = λ ss argv. ok (failing_third ss argv);
}

abbrev begun : Session
begun = record { steps = []; printed = [] }

abbrev arguments : List String
arguments = "test.py" ∷ "par.whl" ∷ "0.9.0" ∷ []

third_fails : (course machine demo_py failing_third arguments []).0 ≡ 2
third_fails = refl

main-course_example :
    let c = course machine demo_py failing_third arguments [] in
    ((test_main machine demo_py arguments begun).0 ≡ ok c.0)
    × ((test_main machine demo_py arguments begun).1.steps ≡ informed machine demo_py c)
main-course_example =
    main-course machine demo_py failing_third (λ ss argv. refl) arguments begun (λ ss dir. refl)

-- An interpreter that reads the configuration of the example.
abbrev reader : Interpreter
reader = record demo_py { loads = λ s. parsed config }

abbrev screen : Console
screen = record { process = quiet; printed = [] }

main-made_example :
    (n : String) × (normalize_config reader (reader.dumps config) ≡ ok n)
    × (let h = demo_lib.handle_reply [] (par_init n) in
        let hist = handle (par_init n) ∷ [] in
        ((main demo_lib reader screen).0 ≡ judged demo_lib reader h hist)
        × ((main demo_lib reader screen).1.process
            ≡ record quiet { history = made demo_lib reader h hist }))
main-made_example = main-made demo_lib reader screen refl

-- The version of the package, as the release workflow writes it.
released : norm package_version ≡ "0.15.0b20261104"
unfolding norm
released = refl

-- An interpreter and a library with which the program of the second level passes.
abbrev test_skills : Json
test_skills = arr (cons (obj (field "id" (str "test-skill") end)) nil)

abbrev skill_reader : Interpreter
skill_reader = record demo_py {
  loads = λ s. if s == "SKILLS" then parsed test_skills else parsed test_config;
}

abbrev skill_lib : Library
skill_lib = record demo_lib { text_reply = λ h c. some (utf8 "SKILLS") }

normal_text : (n : String) × (normalize_config skill_reader (skill_reader.dumps test_config) ≡ ok n)
normal_text = (normalize_config-accepts skill_reader (skill_reader.dumps test_config) _ refl).0 refl

fit : is_fit skill_lib skill_reader 7 (handle (par_init normal_text.0) ∷ []) ≡ true
fit = refl

life-passes_example :
    let hist = handle (par_init normal_text.0) ∷ [] in
    (((life skill_lib skill_reader quiet).0 ≡ ok tt)
      ↔ (is_fit skill_lib skill_reader 7 hist ≡ true))
    × (is_fit skill_lib skill_reader 7 hist ≡ true
        → (life skill_lib skill_reader quiet).1.history ≡ lived skill_lib skill_reader 7 hist)
life-passes_example = life-passes skill_lib skill_reader quiet normal_text.0 7 normal_text.1 refl
