-- ===== src/Runtime/World/Exact.antt =====
-- The dict of callbacks that the objects share holds nothing that no object owns.
use par.Prelude.{
  ℕ, zero, suc, String, ◌≡◌, refl, sym, ◌∙◌, ap, true, not, ◌||◌, ◌&&◌, List, [], ◌∷◌, elem, eqb,
  is_some, arith, Bool-cases,
}
use par.Python.Json.{Json}
use par.Python.Errors.{Result, ok, raised}
use par.Python.Interpreter.{Interpreter}
use par.Ffi.Calls.{Library, Callback, Outcome, tool_callback, approval_callback}
use par.Ffi.Process.{Process}
use par.Runtime.Base.{Runtime}
use par.Runtime.Object.{State, callback_at, store}
use par.Runtime.Handlers.{
  ApprovalHandler, callable, url, other, register_tool_with_handler, register_approval_handler,
}
use par.Runtime.Lifecycle.{init, close}
use par.Runtime.Requests.{Request, perform}
use par.Runtime.Tidy.{perform-IsTidy}
use par.Runtime.Registry.{callback_at-store, callback_at-pop, callback_at-pop_all, elem-add}
use par.Runtime.World.{
  World, Operation, Command, request, tool_handler, approval_handler, close_it, create, on, operate,
  operate_at, execute, run, created,
}
use par.Runtime.World.Sound.{IsSound, owned, execute-IsSound, init_callbacks, init_ids}

-- Every callback that is in the dict after an operation is the object's own, or was there before and
-- was not the object's.
Frugal : Runtime → Process → Runtime → Process → Type 0
Frugal r p r' p' =
    (k : ℕ)
    → is_some (callback_at k p'.callbacks) ≡ true
    → (elem k r'.callback_ids
        || (is_some (callback_at k p.callbacks) && not (elem k r.callback_ids)))
      ≡ true

module _ (lib : Library) (py : Interpreter) (s : State) where
  abbrev counter : ℕ
  counter = s.process.counter

  stored :
      (k : ℕ) (c : Callback)
      → is_some (callback_at k (store counter c s.process.callbacks))
        ≡ (eqb counter k || is_some (callback_at k s.process.callbacks))
  stored k c = ground (arith, callback_at-store counter k c s.process.callbacks)

  tool-Frugal :
      (n d i : String) (f : String → Outcome)
      → let s' = (register_tool_with_handler lib py n d i f s).1 in
        Frugal s.self s.process s'.self s'.process
  unfolding Frugal register_tool_with_handler
  tool-Frugal n d i f = λ k h. ground (
    arith,
    callback_at-store counter k (tool_callback f) s.process.callbacks,
    callback_at-pop counter k (store counter (tool_callback f) s.process.callbacks),
    elem-add k counter s.self.callback_ids,
  )

  approval-Frugal :
      (handler : ApprovalHandler) (secret : String) (timeout : Json)
      → let s' = (register_approval_handler lib py handler secret timeout s).1 in
        Frugal s.self s.process s'.self s'.process
  unfolding Frugal register_approval_handler
  approval-Frugal (callable f) secret timeout = λ k h. ground (
    arith,
    callback_at-store counter k (approval_callback f) s.process.callbacks,
    elem-add k counter s.self.callback_ids,
  )
  approval-Frugal (url u) secret timeout = λ k h. ground arith
  approval-Frugal (other t) secret timeout = λ k h. ground arith

  close-Frugal : let s' = (close lib py s).1 in Frugal s.self s.process s'.self s'.process
  unfolding Frugal close
  close-Frugal =
      λ k h. ground (arith, callback_at-pop_all s.self.callback_ids k s.process.callbacks)

  perform-Frugal :
      (r : Request) → Frugal s.self s.process s.self (perform lib py r s.self s.process).1
  unfolding Frugal
  perform-Frugal r = λ k h.
      let same =
        ap (λ cs. callback_at k cs) ((perform-IsTidy lib py r s.self).callbacks s.process) in
      ground (arith, same)

operate-Frugal :
    (lib : Library) (py : Interpreter) (op : Operation) (s : State)
    → Frugal s.self s.process (operate lib py op s).self (operate lib py op s).process
unfolding operate
operate-Frugal lib py (request r) s = perform-Frugal lib py s r
operate-Frugal lib py (tool_handler n d i f) s = tool-Frugal lib py s n d i f
operate-Frugal lib py (approval_handler h secret timeout) s =
    approval-Frugal lib py s h secret timeout
operate-Frugal lib py close_it s = close-Frugal lib py s

-- The same for an operation on some object of a list: what is there after it is owned, or was there and
-- is owned by none of them.
abbrev FrugalAt : List Runtime → Process → List Runtime → Process → Type 0
FrugalAt rs p rs' p' =
    (k : ℕ)
    → is_some (callback_at k p'.callbacks) ≡ true
    → (owned k rs' || (is_some (callback_at k p.callbacks) && not (owned k rs))) ≡ true

here_FrugalAt :
    (r r' : Runtime) (rs : List Runtime) (p p' : Process)
    → Frugal r p r' p'
    → FrugalAt (r ∷ rs) p (r' ∷ rs) p'
unfolding Frugal
here_FrugalAt r r' rs p p' f = λ k h. ground (arith, f k)

there_FrugalAt :
    (r : Runtime) (rs rs' : List Runtime) (p p' : Process)
    → FrugalAt rs p rs' p'
    → FrugalAt (r ∷ rs) p (r ∷ rs') p'
there_FrugalAt r rs rs' p p' f = λ k h. ground (arith, f k, Bool-cases (owned k rs'))

-- The keys of the dict are exactly the ids that the objects own.
abbrev pub IsExact : World → Type 0
IsExact w = (k : ℕ) → is_some (callback_at k w.process.callbacks) ≡ owned k w.runtimes

module _ (lib : Library) (py : Interpreter) where
  operate_at-FrugalAt :
      (i : ℕ) (op : Operation) (rs : List Runtime) (p : Process)
      → let w = operate_at lib py i op rs p in FrugalAt rs p w.runtimes w.process
  unfolding operate_at
  operate_at-FrugalAt i op [] p = λ k h. ground arith
  operate_at-FrugalAt zero op (r ∷ rs) p =
      let s' = operate lib py op (record { self = r; process = p }) in
      here_FrugalAt r s'.self rs p s'.process
        (operate-Frugal lib py op (record { self = r; process = p }))
  operate_at-FrugalAt (suc i) op (r ∷ rs) p =
      let w = operate_at lib py i op rs p in
      there_FrugalAt r rs w.runtimes p w.process (operate_at-FrugalAt i op rs p)

  pub created-owned :
      (new : Result Runtime) (rs : List Runtime) (k : ℕ)
      → ((r : Runtime) → new ≡ ok r → r.callback_ids ≡ [])
      → owned k (created lib py new rs) ≡ owned k rs
  created-owned (raised e) rs k none_yet = refl
  created-owned (ok r) rs k none_yet = let ids = none_yet r refl in ground arith

  -- What is owned is there, in a sound state.
  pub owned-present :
      (rs : List Runtime) (p : Process) (k : ℕ)
      → IsSound p rs
      → owned k rs ≡ true
      → is_some (callback_at k p.callbacks) ≡ true
  owned-present [] p k s h = cc
  owned-present (r ∷ rs) p k s h = ground (arith, s.0 k, owned-present rs p k s.2)

  IsExact-frugal :
      (w w' : World)
      → IsExact w
      → IsSound w'.process w'.runtimes
      → FrugalAt w.runtimes w.process w'.runtimes w'.process
      → IsExact w'
  IsExact-frugal w w' x s f = λ k. ground (
    arith,
    x k,
    f k,
    owned-present w'.runtimes w'.process k s,
    Bool-cases (is_some (callback_at k w'.process.callbacks)),
    Bool-cases (owned k w'.runtimes),
  )

  pub execute-IsExact :
      (c : Command) (w : World)
      → IsSound w.process w.runtimes
      → IsExact w
      → IsExact (execute lib py c w)
  unfolding execute
  execute-IsExact (create config_json) w s x = λ k.
      let (same, counter) = init_callbacks lib py config_json w.process in
      ap (λ cs. is_some (callback_at k cs)) same
      ∙ x k
      ∙ sym (
          created-owned (init lib py config_json w.process).0 w.runtimes k
            (init_ids lib py config_json w.process))
  execute-IsExact (on i op) w s x =
      IsExact-frugal w (operate_at lib py i op w.runtimes w.process) x
        (execute-IsSound lib py (on i op) w s) (operate_at-FrugalAt i op w.runtimes w.process)

  -- From a sound state in which the keys of the shared dict are exactly the ids that the objects own, any
  -- commands lead to such a state: no callback is lost while its object needs it, and none is kept when no
  -- object owns it any more.
  pub run-IsExact :
      (cs : List Command) (w : World)
      → IsSound w.process w.runtimes
      → IsExact w
      → IsExact (run lib py cs w)
  unfolding run
  run-IsExact [] w s x = x
  run-IsExact (c ∷ cs) w s x =
      run-IsExact cs (execute lib py c w) (execute-IsSound lib py c w s) (execute-IsExact c w s x)
