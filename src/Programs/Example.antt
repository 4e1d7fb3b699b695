-- ===== src/Programs/Example.antt =====
-- bindings/python/examples/basic_agent.py: a runtime in a `with` statement, on which two tools are registered.
pub mod Ends
use par.Prelude.{ℕ, String, ◌<>◌, Bool, true, false, List, ◌∷◌, if◌then◌else◌}
use par.Python.Int.{pos}
use par.Python.Json.{Json, Fields, bool, str, arr, obj, nil, cons, dec, end, field}
use par.Python.Text.{str_of}
use par.Python.Errors.{Error, exception, Result, ok, raised, kind_of, is_par_error}
use par.Python.Interpreter.{Interpreter}
use par.Config.Defaults.{number, limit_defaults}
use par.Ffi.Calls.{Library}
use par.Ffi.Process.{Process, Action}
use par.Runtime.Base.{Runtime}
use par.Runtime.Registration.{register_tool}
use par.Runtime.Lifecycle.{init, exit}
use par.Runtime.Workflow.{repr_of}

-- The process, and the lines printed, newest first.
pub record Console : Type 0 where
  pub process : Process
  pub printed : List String

-- How `main` ends: normally, by `sys.exit`, or with an exception that nothing catches.
pub data Exit : Type 0 where
  returned : Exit
  exits : ℕ → Exit
  uncaught : Error → Exit

abbrev pub Program : Type 0 → Type 0
Program A = Console → Result A × Console

module _ {A B : Type 0} where
  abbrev pub continue : (A → Program B) → Result A → Program B
  continue f (ok a) c = f a c
  continue f (raised e) c = (raised e, c)

  infixl 5 ◌>>=◌ ◌>>◌
  unfoldable pub ◌>>=◌ : Program A → (A → Program B) → Program B
  ◌>>=◌ m f c = continue f (m c).0 (m c).1

  abbrev pub ◌>>◌ : Program A → Program B → Program B
  m >> k = m >>= λ _. k

abbrev pub print : String → Program Unit
print l c = (ok tt, record c { printed = l ∷ c.printed })

module _ {A : Type 0} where
  abbrev pub on_process : Action A → Program A
  on_process m c = ((m c.process).0, record c { process = (m c.process).1 })

abbrev pub greeted : Console → Console
unfolding ◌>>=◌
greeted c =
    ((print "=== P-A-R Python Example ===\n"
        >> print "Initializing runtime with SQLite persistence...")
      c).1

-- The object that `config` is printed from.
abbrev pub config : Json
config = obj (
    field "persistence"
      (obj (field "tag" (str "sqlite") (field "contents" (str "par_agent.db") end)))
      (field "event_bus"
        (obj (
          field "max_queue_size" (number 100)
            (field "dlq_enabled" (bool false) (field "dlq_max_size" (number 10) end))))
        (field "default_quota"
          (obj (
            field "max_tokens" (number 4096)
              (field "max_iterations" (number 10) (field "timeout_seconds" (dec (pos 30) 0) end))))
          (field "shutdown"
            (obj (
              field "grace_period_seconds" (dec (pos 5) 0)
                (field "force_after_seconds" (dec (pos 10) 0) end)))
            (field "llm_providers" (arr nil) (field "eval_limits" (obj limit_defaults) end))))))

-- The schema of a tool with one text for a parameter.
abbrev pub schema : String → Json
schema parameter = obj (
    field "type" (str "object") (
      field "properties" (obj (field parameter (obj (field "type" (str "string") end)) end))
        (field "required" (arr (cons (str parameter) nil)) end)))

module _ (lib : Library) (py : Interpreter) where
  -- The block of the `with` statement.
  unfoldable pub block : Runtime → Program Unit
  unfolding ◌>>=◌ register_tool
  block rt = do
    print ("  Runtime: " <> repr_of rt)
    print "\nRegistering tools..."
    on_process (
        register_tool lib py rt "calculator" "Evaluate arithmetic expressions"
          (py.dumps (schema "expression")))
    print "  [+] calculator tool registered"
    on_process (register_tool lib py rt "echo" "Echo back the input" (py.dumps (schema "message")))
    print "  [+] echo tool registered"
    print ("\n  Runtime state: " <> repr_of rt)
    print "\n=== Done ==="
    print "Note: Agent invocation requires an LLM provider."
    print "Set environment variables (e.g. OPENAI_API_KEY) or export PAR_RUNTIME_LIB."

  -- `with rt: …`: whatever comes of the block, `__exit__` is called, and lets its exception through.
  unfoldable pub with_runtime : Runtime → Program Unit → Program Unit
  unfolding exit
  with_runtime rt m c = (
    (m c).0,
    record (m c).1 {
      process = (exit lib py (record { self = rt; process = (m c).1.process })).1.process;
    },
  )

  unfoldable pub session : Program Unit
  unfolding ◌>>=◌ block with_runtime init
  session = on_process (init lib py (py.dumps config)) >>= λ rt. with_runtime rt (block rt)

  -- `str(e)`, for an exception with one argument
  abbrev text_of : Error → String
  text_of (exception k a) = str_of a

  abbrev pub report : Error → Console → Exit × Console
  report e c =
      if is_par_error (kind_of e)
      then (
        exits 1,
        ((print ("\nPAR Error: " <> text_of e)
              >> print "Make sure par_capi.so is built: dune build lib/ffi/par_capi.so")
            c).1,
      )
      else (uncaught e, c)

  abbrev pub outcome : Result (Unit {0}) → Console → Exit × Console
  outcome (ok u) c = (returned, c)
  outcome (raised e) c = report e c

  -- `main`: the `try` statement comes after two prints.
  unfoldable pub main : Console → Exit × Console
  unfolding session ◌>>=◌ str_of
  main c = outcome (session (greeted c)).0 (session (greeted c)).1
