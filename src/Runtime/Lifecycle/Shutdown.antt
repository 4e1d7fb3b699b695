-- ===== src/Runtime/Lifecycle/Shutdown.antt =====
-- What `__init__` and `close` of `Runtime` leave behind.
use par.Prelude.{ℕ, String, ◌≡◌, refl, true, false, none, some, [], ◌∷◌, arith, eqb, inl, inr}
use par.Python.Errors.{ok, Result-cases}
use par.Python.Interpreter.{Interpreter}
use par.Config.{normalize_config}
use par.Ffi.Calls.{Library, par_init, par_shutdown, handle, effect}
use par.Ffi.Process.{Process, ◌>>=◌, lift, call_handle, call_effect, note}
use par.Runtime.Base.{Runtime, is_open}
use par.Runtime.Object.{State, pop_all}
use par.Runtime.Lifecycle.{init, close, started}

module _ (lib : Library) (py : Interpreter) where
  started-open :
      (h : ℕ) (r : Runtime) → started lib py h ≡ ok r → (is_open r ≡ true) × (r.callback_ids ≡ [])
  started-open h r e = ground arith

  -- A runtime that `__init__` gives back is open and owns no callback, and the library was called once,
  -- with the normalized configuration.
  pub init-open :
      (config_json : String) (p : Process) (r : Runtime)
      → (init lib py config_json p).0 ≡ ok r
      → (is_open r ≡ true)
        × (r.callback_ids ≡ [])
        × ((n : String) × (normalize_config py config_json ≡ ok n)
            × ((init lib py config_json p).1 ≡ note (handle (par_init n)) p))
  unfolding init ◌>>=◌ lift call_handle
  init-open config_json p r e = elim (Result-cases (normalize_config py config_json)) [
    | inl (n, c) ↦
        let o = started-open (lib.handle_reply p.history (par_init n)) r (rw c at e) in
        (o.0, o.1, (n, c, rw c refl))
    | inr (err, c) ↦ cc (simp c at e)
  ]

  -- Closing twice is closing once: the second time neither calls the library nor changes the object.
  pub close-close : (s : State) → (close lib py (close lib py s).1).1 ≡ (close lib py s).1
  unfolding close call_effect pop_all
  close-close s = ground arith

  -- `close` of an open runtime shuts the library's runtime down, once, and leaves the object closed
  -- with no callback; the strings of the library are as they were.
  pub close-open :
      (s : State) (h : ℕ)
      → s.self.handle ≡ some h
      → eqb h 0 ≡ false
      → ((close lib py s).1.self ≡ record { handle = none; callback_ids = [] })
        × ((close lib py s).1.process ≡ record s.process {
          history = effect (par_shutdown h) ∷ s.process.history;
          callbacks = pop_all s.self.callback_ids s.process.callbacks;
        })
  unfolding close call_effect pop_all
  close-open s h e nz = ground arith
