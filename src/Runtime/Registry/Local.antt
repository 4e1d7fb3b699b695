-- ===== src/Runtime/Registry/Local.antt =====
-- Each operation on a `Runtime` is local: what it does to the shared dict of callbacks concerns the
-- callbacks of that object alone.
use par.Prelude.{ℕ, String, ap, arith}
use par.Python.Json.{Json}
use par.Python.Interpreter.{Interpreter}
use par.Ffi.Calls.{Library, Outcome, tool_callback, approval_callback}
use par.Runtime.Object.{State, store, callback_at}
use par.Runtime.Handlers.{
  ApprovalHandler, callable, url, other, register_tool_with_handler, register_approval_handler,
}
use par.Runtime.Lifecycle.{close}
use par.Runtime.Requests.{Request, perform}
use par.Runtime.Tidy.{perform-IsTidy}
use par.Runtime.Registry.{
  Owns, IsLocal, callback_at-store, callback_at-pop, callback_at-pop_all, elem-add,
}

module _ (lib : Library) (py : Interpreter) (s : State) (own : Owns s.process s.self) where
  abbrev counter : ℕ
  counter = s.process.counter

  -- A failed registration drops the callback that it stored; a successful one owns it.
  pub register_tool_with_handler-IsLocal :
      (n d i : String) (f : String → Outcome)
      → let s' = (register_tool_with_handler lib py n d i f s).1 in
        IsLocal s.self s.process s'.self s'.process
  unfolding register_tool_with_handler
  register_tool_with_handler-IsLocal n d i f = record {
    owns = λ k h. ground (
      arith,
      own k,
      callback_at-store counter k (tool_callback f) s.process.callbacks,
      callback_at-pop counter k (store counter (tool_callback f) s.process.callbacks),
      elem-add k counter s.self.callback_ids,
    );
    others = λ k h b. ground (
      arith,
      callback_at-store counter k (tool_callback f) s.process.callbacks,
      callback_at-pop counter k (store counter (tool_callback f) s.process.callbacks),
    );
    kept = λ k h b e. ground (
      arith,
      own k,
      callback_at-store counter k (tool_callback f) s.process.callbacks,
      callback_at-pop counter k (store counter (tool_callback f) s.process.callbacks),
    );
    fresh = λ k h n. ground (arith, elem-add k counter s.self.callback_ids);
    counts = ground arith;
  }

  -- A callable is stored and owned before the library is asked, and stays so if the library refuses.
  pub register_approval_handler-IsLocal :
      (handler : ApprovalHandler) (secret : String) (timeout : Json)
      → let s' = (register_approval_handler lib py handler secret timeout s).1 in
        IsLocal s.self s.process s'.self s'.process
  unfolding register_approval_handler
  register_approval_handler-IsLocal (callable f) secret timeout = record {
    owns = λ k h. ground (
      arith,
      own k,
      callback_at-store counter k (approval_callback f) s.process.callbacks,
      elem-add k counter s.self.callback_ids,
    );
    others = λ k h b.
        ground (arith, callback_at-store counter k (approval_callback f) s.process.callbacks);
    kept = λ k h b e.
        ground
          (arith, own k, callback_at-store counter k (approval_callback f) s.process.callbacks);
    fresh = λ k h n. ground (arith, elem-add k counter s.self.callback_ids);
    counts = ground arith;
  }
  register_approval_handler-IsLocal (url u) secret timeout = record {
    owns = λ k h. ground (arith, own k);
    others = λ k h b. ground arith;
    kept = λ k h b e. ground arith;
    fresh = λ k h n. ground arith;
    counts = ground arith;
  }
  register_approval_handler-IsLocal (other t) secret timeout = record {
    owns = λ k h. ground (arith, own k);
    others = λ k h b. ground arith;
    kept = λ k h b e. ground arith;
    fresh = λ k h n. ground arith;
    counts = ground arith;
  }

  -- `close` drops the callbacks of its object, and no others.
  pub close-IsLocal : let s' = (close lib py s).1 in IsLocal s.self s.process s'.self s'.process
  unfolding close
  close-IsLocal = record {
    owns = λ k h. ground arith;
    others = λ k h b. ground (arith, callback_at-pop_all s.self.callback_ids k s.process.callbacks);
    kept = λ k h b e. ground arith;
    fresh = λ k h n. ground arith;
    counts = ground arith;
  }

  -- Every other method leaves the dict alone.
  pub perform-IsLocal :
      (r : Request) → IsLocal s.self s.process s.self (perform lib py r s.self s.process).1
  perform-IsLocal r =
      let tidy = perform-IsTidy lib py r s.self in
      record {
        owns = λ k h. rw (tidy.callbacks s.process, tidy.counter s.process) (own k h);
        others = λ k h b. ap (λ cs. callback_at k cs) (tidy.callbacks s.process);
        kept = λ k h b e. ap (λ cs. callback_at k cs) (tidy.callbacks s.process);
        fresh = λ k h n. cc;
        counts = omega (arith, tidy.counter s.process);
      }
