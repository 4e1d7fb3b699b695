-- ===== src/Runtime/Handlers/Answers.antt =====
-- What the wrappers of the user's callables answer to the library, whatever the callable does.
use par.Python.Json.{Json}
use par.Python.Interpreter.{Interpreter}
