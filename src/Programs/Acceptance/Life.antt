-- ===== src/Programs/Acceptance/Life.antt =====
-- The program that the second level of scripts/release-acceptance-test.py runs: the life of a runtime.
pub mod Fit
use par.Prelude.{◌<>◌, not, if◌then◌else◌, ◌==◌}
use par.Python.Int.{pos}
use par.Python.Json.{Json, int, str, arr, obj, nil, cons, end, field}
use par.Python.Text.{type_name, str_of}
use par.Python.Convert.{item}
use par.Python.Errors.{Result, ok, raised, fails, assertion_error, key_error, type_error, exception}
use par.Python.Interpreter.{Interpreter}
use par.Ffi.Calls.{Library}
use par.Ffi.Process.{Action, ◌>>=◌, ◌>>◌, lift}
use par.Runtime.Base.{Runtime}
use par.Runtime.Registration.{register_tool, register_skill, list_skills}
use par.Runtime.Lifecycle.{init, close}
use par.Programs.Acceptance.Config.{test_config}

-- `skills[0]['id']`, after `assert len(skills) >= 1`.
abbrev no_subscript : Json → Result Json
no_subscript (obj fs) = item "id" fs
no_subscript (str s) = fails type_error "string indices must be integers, not 'str'"
no_subscript (arr xs) = fails type_error "list indices must be integers or slices, not str"
no_subscript v = fails type_error ("'" <> type_name v <> "' object is not subscriptable")

abbrev none_listed : Result Json
none_listed = fails assertion_error "Expected >=1 skill, got 0"

abbrev first_id : Json → Result Json
first_id (arr nil) = none_listed
first_id (arr (cons x xs)) = no_subscript x
first_id (obj end) = none_listed
first_id (obj (field k v fs)) = raised (exception key_error (int (pos 0)))
first_id (str s) = if s == "" then none_listed else no_subscript (str s)
first_id v = fails type_error ("object of type '" <> type_name v <> "' has no len()")

-- `assert skills[0]['id'] == 'test-skill'`
abbrev check_id : Json → Result (Unit {0})
check_id (str s) =
    if s == "test-skill" then ok tt else fails assertion_error ("Expected test-skill, got " <> s)
check_id v = fails assertion_error ("Expected test-skill, got " <> str_of v)

abbrev pub skill : Json
skill = obj (
    field "schema_version" (int (pos 1)) (
      field "id" (str "test-skill")
        (field "name" (str "Test") (field "description" (str "Acceptance test skill") end))))

module _ (lib : Library) (py : Interpreter) where
  abbrev closing : Runtime → Action Unit
  unfolding close
  closing rt p = (ok tt, (close lib py (record { self = rt; process = p })).1.process)

  -- From `skills = rt.list_skills()` to the end.
  unfoldable pub inspect : Runtime → Action Unit
  unfolding ◌>>=◌ list_skills close str_of
  inspect rt = do
    skills ← list_skills lib py rt
    id ← lift (first_id skills)
    lift (check_id id)
    closing rt

  unfoldable pub life : Action Unit
  unfolding ◌>>=◌ init register_tool register_skill inspect
  life = do
    rt ← init lib py (py.dumps test_config)
    register_tool lib py rt "echo" "Echo tool" "{\"type\": \"object\"}"
    register_skill lib py rt (py.dumps skill)
    inspect rt
