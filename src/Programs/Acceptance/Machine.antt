-- ===== src/Programs/Acceptance/Machine.antt =====
-- What scripts/release-acceptance-test.py needs of its machine, and its `fail`.
use par.Prelude.{ℕ, Bool, String, ◌<>◌, List, ◌∷◌, if◌then◌else◌, ◌==◌}
use par.Python.Int.{ℤ}
use par.Python.Errors.{Result, ok, raised}

-- What the script does to the machine, and what it prints, on stdout or stderr; newest first.
pub data Step : Type 0 where
  remove_tree create_venv : String → Step
  run : List String → Step

pub data Line : Type 0 where
  out err : String → Line

pub record Session : Type 0 where
  pub steps : List Step
  pub printed : List Line

-- `subprocess.CompletedProcess`
pub record Completed : Type 0 where
  pub returncode : ℤ
  pub stdout : String
  pub stderr : String

-- The machine, whose answers may depend on the steps made before: `Path.resolve`, `Path.name`, `Path.exists`,
-- `stat().st_size`, `venv.create` and `subprocess.run`.
pub record Machine : Type 0 where
  pub resolve : String → String
  pub name : String → String
  pub exists : List Step → String → Bool
  pub size : String → ℕ
  pub create : List Step → String → Result (Unit {0})
  pub execute : List Step → List String → Result Completed

abbrev pub Script : Type 0 → Type 0
Script A = Session → Result A × Session

module _ {A : Type 0} where
  abbrev pub return : A → Script A
  return a s = (ok a, s)

module _ {A B : Type 0} where
  abbrev pub continue : (A → Script B) → Result A → Script B
  continue f (ok a) s = f a s
  continue f (raised e) s = (raised e, s)

  infixl 5 ◌>>=◌ ◌>>◌
  unfoldable pub ◌>>=◌ : Script A → (A → Script B) → Script B
  ◌>>=◌ m f s = continue f (m s).0 (m s).1

  abbrev pub ◌>>◌ : Script A → Script B → Script B
  m >> k = m >>= λ _. k

abbrev pub print : Line → Script Unit
print l s = (ok tt, record s { printed = l ∷ s.printed })

abbrev pub print_given : String → String → Script Unit
print_given label text s = if text == "" then (ok tt, s) else print (err (label <> text)) s

-- `fail`
unfoldable pub fail : String → ℕ → String → String → Script ℕ
unfolding ◌>>=◌
fail message level extra_stdout extra_stderr = do
  print (err ("FAIL: " <> message))
  print_given "stdout: " extra_stdout
  print_given "stderr: " extra_stderr
  return level
