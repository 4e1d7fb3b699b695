-- ===== src/Runtime/World/Careful.antt =====
-- What an operation on one object does to the runtimes of the library: it names no other than its own, and
-- keeps that alive until it closes the object.
use par.Prelude.{
  ℕ, String, ◌≡◌, ◌∙◌, refl, ap, Bool, true, false, not, ◌&&◌, ◌||◌, Option, none, some, List, [],
  ◌∷◌, eqb, elem, arith, Bool-cases, Option-cases, inl, inr,
}
use par.Python.Json.{Json}
use par.Python.Interpreter.{Interpreter}
use par.Ffi.Calls.{Library, Outcome}
use par.Ffi.Process.{Process, call_status, call_effect}
use par.Ffi.Handles.{live, all_live, remove}
use par.Runtime.Base.{Runtime, check_handle, is_open}
use par.Runtime.Object.{State}
use par.Runtime.Handlers.{
  ApprovalHandler, callable, url, other, register_tool_with_handler, register_approval_handler,
}
use par.Runtime.Lifecycle.{close}
use par.Runtime.Requests.{Request, perform}
use par.Runtime.Closed.{perform-closed, warned}
use par.Runtime.Uses.{perform-live}
use par.Runtime.World.{Operation, request, tool_handler, approval_handler, close_it, operate}

-- The object is open, on the runtime `a` of the library.
abbrev pub holds_handle : ℕ → Option ℕ → Bool
holds_handle a none = false
holds_handle a (some h) = not (eqb h 0) && eqb a h

abbrev pub holds : ℕ → Runtime → Bool
holds a r = holds_handle a r.handle

pub elem-remove : (a b : ℕ) (l : List ℕ) → elem a (remove b l) ≡ (elem a l && not (eqb a b))
elem-remove a b [] = refl
elem-remove a b (c ∷ l) = ground (arith, elem-remove a b l)

module _ (lib : Library) (py : Interpreter) where
  -- What an operation may do to an object that is open on a live runtime or closed: it keeps the
  -- runtime, or shuts it down and closes the object.
  pub record IsCareful (r : Runtime) (p : Process) (r' : Runtime) (p' : Process) : Type 0 where
    pub used : all_live lib p'.history ≡ true
    pub shrinks : (a : ℕ) → holds a r' ≡ true → holds a r ≡ true
    pub alive :
        (a : ℕ)
        → elem a (live lib p'.history)
          ≡ (holds a r' || (elem a (live lib p.history) && not (holds a r)))

  -- A closed object, or one that is open on a runtime of the list.
  abbrev pub backed : Option ℕ → List ℕ → Bool
  backed none l = true
  backed (some h) l = eqb h 0 || elem h l

  IsCareful-same :
      (r : Runtime) (p p' : Process)
      → backed r.handle (live lib p.history) ≡ true
      → all_live lib p'.history ≡ true
      → live lib p'.history ≡ live lib p.history
      → IsCareful r p r p'
  IsCareful-same r p p' own used same = record {
    used = used;
    shrinks = λ a h. h;
    alive = λ a. ap (elem a) same ∙ ground arith;
  }

  warned-history : (r : Request) (p : Process) → (warned r p).history ≡ p.history
  warned-history Request.cancel_stream p = refl
  warned-history r p = refl

  module _ (s : State) (used : all_live lib s.process.history ≡ true)
      (own : backed s.self.handle (live lib s.process.history) ≡ true) where
    perform_closed-IsCareful :
        (r : Request)
        → is_open s.self ≡ false
        → IsCareful s.self s.process s.self (perform lib py r s.self s.process).1
    perform_closed-IsCareful r shut =
        let same =
          ap (λ t. t.1.history) (perform-closed lib py r s.self s.process shut)
          ∙ warned-history r s.process in
        IsCareful-same s.self s.process _ own (ap (all_live lib) same ∙ used) (ap (live lib) same)

    perform_open-IsCareful :
        (r : Request) (h : ℕ)
        → s.self.handle ≡ some h
        → eqb h 0 ≡ false
        → IsCareful s.self s.process s.self (perform lib py r s.self s.process).1
    perform_open-IsCareful r h e nz =
        let calls = perform-live lib py r s.self s.process h e nz (ground arith) used in
        IsCareful-same s.self s.process _ own calls.1 calls.0

    perform-IsCareful :
        (r : Request) → IsCareful s.self s.process s.self (perform lib py r s.self s.process).1
    perform-IsCareful r = elim (Option-cases s.self.handle) [
      | inl e ↦ perform_closed-IsCareful r (ground arith)
      | inr (h, e) ↦ elim (Bool-cases (eqb h 0)) [
        | inl z ↦ perform_closed-IsCareful r (ground arith)
        | inr nz ↦ perform_open-IsCareful r h e nz
      ]
    ]

    tool-IsCareful :
        (n d i : String) (f : String → Outcome)
        → let s' = (register_tool_with_handler lib py n d i f s).1 in
          IsCareful s.self s.process s'.self s'.process
    unfolding register_tool_with_handler check_handle call_status call_effect
    tool-IsCareful n d i f = record {
      used = ground arith;
      shrinks = λ a h. ground arith;
      alive = λ a. ground arith;
    }

    approval-IsCareful :
        (handler : ApprovalHandler) (secret : String) (timeout : Json)
        → let s' = (register_approval_handler lib py handler secret timeout s).1 in
          IsCareful s.self s.process s'.self s'.process
    unfolding register_approval_handler check_handle call_status call_effect
    approval-IsCareful (callable f) secret timeout = record {
      used = ground arith;
      shrinks = λ a h. ground arith;
      alive = λ a. ground arith;
    }
    approval-IsCareful (url u) secret timeout = record {
      used = ground arith;
      shrinks = λ a h. ground arith;
      alive = λ a. ground arith;
    }
    approval-IsCareful (other t) secret timeout = record {
      used = ground arith;
      shrinks = λ a h. ground arith;
      alive = λ a. ground arith;
    }

    close-IsCareful : let s' = (close lib py s).1 in IsCareful s.self s.process s'.self s'.process
    unfolding close call_effect
    close-IsCareful = record {
      used = ground arith;
      shrinks = λ a h. ground arith;
      alive = λ a. elim (Option-cases s.self.handle) [
        | inl e ↦ ground arith
        | inr (h, e) ↦ ground (arith, elem-remove a h (live lib s.process.history))
      ];
    }

  pub operate-IsCareful :
      (op : Operation) (s : State)
      → all_live lib s.process.history ≡ true
      → backed s.self.handle (live lib s.process.history) ≡ true
      → IsCareful s.self s.process (operate lib py op s).self (operate lib py op s).process
  unfolding operate
  operate-IsCareful (request r) s used own = perform-IsCareful s used own r
  operate-IsCareful (tool_handler n d i f) s used own = tool-IsCareful s used own n d i f
  operate-IsCareful (approval_handler h secret timeout) s used own =
      approval-IsCareful s used own h secret timeout
  operate-IsCareful close_it s used own = close-IsCareful s used own
