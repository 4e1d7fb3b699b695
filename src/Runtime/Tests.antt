-- ===== src/Runtime/Tests.antt =====
-- Examples of the methods of `Runtime`.
use par.Prelude.{String, ◌≡◌, ◌⊎◌, ◌↔◌, refl, true, none, some, [], ◌∷◌}
use par.Fixtures.{demo_lib, demo_py, quiet, boom}
use par.Python.Int.{pos, negsuc, is_zero}
use par.Python.Json.{Json, int, dec, arr, nil, cons, str, null}
use par.Python.Errors.{ok, raised, exception, par_error}
use par.Python.Interpreter.{Interpreter, parsed}
use par.Ffi.Calls
use par.Ffi.Calls.{Library, utf8, status, text, handle, Outcome, raises}
use par.Ffi.Process.{◌>>=◌, note}
use par.Ffi.Strings.{fetch}
use par.Runtime.Base.{Runtime, check_handle}
use par.Python.Errors.{Error}
use par.Runtime.Approval.{outcome_json, resume_approval}
use par.Runtime.Approval.Outcomes.{resume_approval_lem}
use par.Runtime.Requests.{Request, perform}
use par.Runtime.Calls.{perform-status}
use par.Runtime.Envelope.{perform-error}
use par.Runtime.Types.{annotation, has_type, perform-has_type}

abbrev open_runtime : Runtime
open_runtime = record { handle = some 7; callback_ids = [] }

abbrev shut : Runtime
shut = record { handle = none; callback_ids = [] }

-- The library answers -1.
perform-status_example :
    ((perform demo_lib demo_py (Request.register_agent "{}") open_runtime quiet).1.history
      ≡ status (Calls.par_register_agent 7 "{}") ∷ [])
    × (((perform demo_lib demo_py (Request.register_agent "{}") open_runtime quiet).0 ≡ ok null)
        ↔ (is_zero (negsuc 0) ≡ true))
perform-status_example =
    perform-status demo_lib demo_py (Request.register_agent "{}") open_runtime quiet 7
      (Calls.par_register_agent 7 "{}") refl refl refl

perform-error_example :
    ((perform demo_lib demo_py Request.health open_runtime quiet).0
      ≡ raised (exception par_error (str "boom")))
    × ((perform demo_lib demo_py Request.health open_runtime quiet).1.history
        ≡ text (Calls.par_health 7) ∷ [])
perform-error_example =
    perform-error demo_lib demo_py Request.health open_runtime quiet 7 (Calls.par_health 7)
      par_error "BOOM" boom (str "boom") refl refl refl refl refl refl refl refl refl

abbrev refuse : Json → Outcome
refuse c = raises "no"

resume_approval_lem_example :
    ((e : Error) × (outcome_json demo_py (str "Approved") "me" ≡ raised e)
      × (resume_approval demo_lib demo_py open_runtime "run-1" (str "Approved") "me" quiet
          ≡ (raised e, quiet)))
    ⊎ ((t : String) × (outcome_json demo_py (str "Approved") "me" ≡ ok t)
        × ((resume_approval demo_lib demo_py open_runtime "run-1" (str "Approved") "me" quiet).1
            ≡ note (status (Calls.par_resume_approval 7 "run-1" t)) quiet)
        × (((resume_approval demo_lib demo_py open_runtime "run-1" (str "Approved") "me" quiet).0
              ≡ ok null)
            ↔ (is_zero (pos 0) ≡ true)))
resume_approval_lem_example =
    resume_approval_lem demo_lib demo_py open_runtime quiet 7 "run-1" (str "Approved") "me" refl
      refl

-- A library that answers every call with a status.
abbrev fine_lib : Library
fine_lib = record demo_lib { text_reply = λ h c. some (utf8 "OK") }

-- An interpreter that reads every text as a list with one vector.
abbrev vector_reader : Interpreter
vector_reader = record demo_py {
  loads = λ s. parsed (arr (cons (arr (cons (int (pos 1)) nil)) nil));
}

abbrev one_vector : Json
one_vector = arr (cons (arr (cons (dec (pos 1) 0) nil)) nil)

embedded :
    (perform fine_lib vector_reader (Request.embed null) open_runtime quiet).0 ≡ ok one_vector
unfolding perform ◌>>=◌ check_handle fetch
embedded = refl

perform-has_type_example : has_type (annotation (Request.embed null)) one_vector ≡ true
perform-has_type_example =
    perform-has_type fine_lib vector_reader (Request.embed null) open_runtime quiet one_vector
      embedded
