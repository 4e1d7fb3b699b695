-- ===== src/Lib.antt =====
-- The Python binding of P-A-R (bindings/python/par_runtime), the package with which Python programs
-- drive the agent runtime through the shared library par_capi.so.
--
-- The parts and how they interact.
-- `Runtime` (runtime.py) holds a handle of the library and guards every method by it. A method encodes
-- its arguments (`_c_str`, `json.dumps`), makes one call of the library, and turns the answer into a
-- value or an exception: a status code, or a C string that `_py_str` (_ffi.py) reads and frees, with a
-- JSON value in it. The configuration of a new object goes through `_normalize_config`. Python
-- callables are wrapped, stored in the dict `Runtime._callbacks` that all objects share, and called
-- back by the library. `invoke_stream` gives a `_StreamReader`, a generator that polls the library for
-- chunks and decodes them to events.
--
-- Which file models which part.
-- - Prelude: shared names, Boolean tests and case lemmas.
-- - Python: the values and exceptions of the language. Json: what `json.loads` returns; Text: case,
--   `str` and `repr`; Convert: `int(x)`; Errors: exceptions (with _errors.py) and results; Interpreter:
--   the parameters for the text format of JSON and for `float(s)`.
-- - Ffi: _ffi.py. Calls: the C functions, as data, and the library as a parameter whose answers may
--   depend on all calls made before; Process: the state that the two sides share (the calls made, the
--   strings that the library has allocated, the callbacks) and actions on it; Strings: `_c_str`,
--   `_py_str`, `_free`; Memory: the actions that free what they are given; Handles: which calls name a
--   runtime, and which runtimes are alive; Locate: `_find_library`, `_vec_extension_path`; Load: what
--   an import of the module does.
-- - Config: `Runtime._normalize_config`, one function per pass, with a description per key (Spec) and of
--   the whole dict as a mapping (Described), and the dict without its order as a quotient (Dicts).
--   Lookup, Required, Keeps, Idempotent, Persistence and Accepts are about the keys that it fills in,
--   what it keeps, and what it refuses.
-- - Content: content.py, the constructors of content blocks and their checks (Checks, Files), over
--   base64 (Base64), whose exception texts are a parameter.
-- - Runtime: the methods of the class `Runtime`. Base, Registration, Session, Invoke, Documents,
--   Structured, Workflow, Approval: the methods that leave the object alone, gathered in Requests;
--   Object, Handlers, Lifecycle: those that change it; World: several objects in one process; Threads:
--   several threads, over the steps into which the registrations and close are cut. Closed, Tidy,
--   Calls, Envelope, Answers, Types, Flags, Registry, Uses, World/Sound, World/Exact, World/Answers,
--   World/Careful, World/Handles, Lifecycle/Shutdown, Handlers/Answers, Handlers/Registering,
--   Approval/Outcomes and Invoke/Async are named for what they are about.
-- - Stream: the event classes and `_decode_event` (Event, Encoding), `_StreamReader` (Reader): its
--   generator is a state machine, not started, suspended at the `yield`, or finished. Reader/Loop,
--   Progress, Closing, Lifetime, Uses and Memory are about its polling, its ends, its handle and the
--   strings that it is given. Iterate: `invoke_stream` with a `for` loop over its iterator, from the
--   first event to the last, or to a chunk that is no event.
-- - Programs: the two programs of the repository that use the package. Example: examples/basic_agent.py
--   of the binding; Acceptance: scripts/release-acceptance-test.py, level by level (Main), over a
--   machine that is a parameter (Machine), with the comparison of versions in the code of its first
--   level (Versions, Matching, Normal), its exit codes (Verdict), and the program of its second level
--   (Life).
-- - Package: the names that `__init__.py` imports and exports.
-- - Fixtures and the modules Tests: a concrete interpreter and library, and examples.
--
-- Bounds and fuel. Only the two polling loops of `_StreamReader` take fuel, one unit for each poll;
-- `starved` is the result of a loop that has run out. A library that never answers makes the loops run
-- for ever, as in the code. For `k` polls before the answer that counts, `k + 1` units are enough. The
-- loop of Iterate takes a bound on the calls of `next`, for which one more than the chunks is enough.
--
-- What the model leaves open. The library, the text format of JSON, `float(s)` and the file system are
-- parameters. Outside ASCII, letters have no case and no text is a number; a float is a decimal; `repr`
-- leaves what is not ASCII as it is. A text holds no NUL, at which C would cut it, and no lone
-- surrogate, which `_c_str` would refuse. Numbers that the code passes as `c_int` are not cut to 32
-- bits. A warning does not raise. A Python callable does not call the runtime that calls it, as its
-- documentation asks. The release test's environment is a list of the steps taken; what pip and the
-- interpreter do in it is a parameter. Not modelled: the OCaml runtime and its C stubs, which are other
-- languages.
mod Prelude
pub mod Python
pub mod Ffi
pub mod Config
pub mod Content
pub mod Runtime
pub mod Stream
pub mod Package
pub mod Programs
pub mod Fixtures
