-- ===== src/Runtime/World/Tests.antt =====
-- A program that creates two objects, registers a handler with each and closes one.
use par.Prelude.{
  ℕ, suc, ◌≤◌, true, elem, length, arith, Bool-cases, refl, List, [], ◌∷◌, ◌≡◌, String, some,
}
use par.Fixtures.{demo_lib, demo_py, quiet}
use par.Python.Json.{null, str}
use par.Ffi.Handles.{live, HasFreshHandles}
use par.Runtime.World.Careful.{elem-remove}
use par.Runtime.World.Handles.{OwnsHandles, run-OwnsHandles}
use par.Ffi.Calls.{Library, Call, handle, effect, par_init, par_shutdown, returns, raises, Outcome}
use par.Runtime.Handlers.{callable}
use par.Runtime.Object.{callback_at}
use par.Runtime.World.{World, Command, create, on, close_it, tool_handler, approval_handler, run}
use par.Runtime.World.Sound.{IsSound, run-IsSound}
use par.Runtime.World.Exact.{IsExact, run-IsExact}

abbrev empty : World
empty = record { runtimes = []; process = quiet }

abbrev program : List Command
program =
    create "EMPTY"
    ∷ create "EMPTY"
    ∷ on 0 (tool_handler "add" "adds" "{}" (λ t. returns (str t)))
    ∷ on 1 (approval_handler (callable returns) "" null)
    ∷ on 0 close_it
    ∷ []

run-IsSound_example :
    IsSound
      (run demo_lib demo_py program empty).process
      (run demo_lib demo_py program empty).runtimes
run-IsSound_example = run-IsSound demo_lib demo_py program empty tt

empty-IsExact : IsExact empty
unfolding callback_at
empty-IsExact = λ k. refl

run-IsExact_example : IsExact (run demo_lib demo_py program empty)
run-IsExact_example = run-IsExact demo_lib demo_py program empty tt empty-IsExact

-- Two open objects.
abbrev both : World
both = record {
  runtimes =
      record { handle = some 9; callback_ids = [] }
      ∷ record { handle = some 7; callback_ids = [] }
      ∷ [];
  process = quiet;
}

abbrev refuse : String → Outcome
refuse t = raises "no"

-- A library that gives its runtimes the addresses 1, 2, 3, …
abbrev counting_lib : Library
counting_lib = record demo_lib { handle_reply = λ h c. suc (length h) }

live-le : (a : ℕ) (h : List Call) → elem a (live counting_lib h) ≡ true → a ≤ length h
live-le a [] e = cc
live-le a (handle (par_init c) ∷ h) e = ground (arith, live-le a h)
live-le a (effect (par_shutdown b) ∷ h) e =
    ground (arith, live-le a h, elem-remove a b (live counting_lib h))
live-le a (c ∷ h) e = ground (arith, live-le a h)

counting_lib-HasFreshHandles : HasFreshHandles counting_lib
counting_lib-HasFreshHandles h c =
    ground
      (arith, live-le (suc (length h)) h, Bool-cases (elem (suc (length h)) (live counting_lib h)))

run-OwnsHandles_example :
    OwnsHandles counting_lib demo_py
      (run counting_lib demo_py program empty).process
      (run counting_lib demo_py program empty).runtimes
run-OwnsHandles_example =
    run-OwnsHandles counting_lib demo_py program empty counting_lib-HasFreshHandles
      (record { used = refl; distinct = tt; alive = λ a. refl })
