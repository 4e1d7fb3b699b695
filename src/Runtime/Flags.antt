-- ===== src/Runtime/Flags.antt =====
-- What `save`, `update_current`, `durable` and `invoke_id` of the invoking methods mean to the library:
-- a function that does not take the flags runs with the runtime's defaults.
use par.Prelude.{
  ℕ, String, ◌≡◌, Bool, true, false, not, ◌||◌, Option, none, some, arith, eqb, is_some,
  if◌then◌else◌,
}
use par.Ffi.Calls.{TextCall}
use par.Ffi.Calls
use par.Runtime.Base.{or_default}
use par.Runtime.Invoke.{invoke_call, recover_call}

-- The flags that a call runs with, `save` and `update_current`; the defaults of the runtime are
-- `save = False` and `update_current = True`.
abbrev pub effective_flags : TextCall → Bool × Bool
effective_flags (Calls.par_invoke_ext h a m s u) = (not (eqb s 0), not (eqb u 0))
effective_flags (Calls.par_invoke_durable_ext h a m i s u) = (not (eqb s 0), not (eqb u 0))
effective_flags (Calls.par_recover_invoke_ext h i s u) = (not (eqb s 0), not (eqb u 0))
effective_flags (Calls.par_generate_ext h a m s u) = (not (eqb s 0), not (eqb u 0))
effective_flags c = (false, true)

-- The name under which a call checkpoints its run, if it does.
abbrev pub durable_name : TextCall → Option String
durable_name (Calls.par_invoke_durable h a m i) = some i
durable_name (Calls.par_invoke_durable_ext h a m i s u) = some i
durable_name c = none

abbrev pub name_of : Option String → String
name_of none = ""
name_of (some i) = i

-- Each flag of `invoke` is the caller's, or the runtime's default where it is left out; neither depends
-- on the other, on `durable` or on `invoke_id`. The run is checkpointed exactly if the caller asks for
-- it or names it, and then under the caller's name.
pub invoke_call-flags :
    (h : ℕ) (agent_id message : String) (save update_current : Option Bool) (durable : Bool)
    (invoke_id : Option String)
    → (effective_flags (invoke_call h agent_id message save update_current durable invoke_id)
        ≡ (or_default false save, or_default true update_current))
      × (durable_name (invoke_call h agent_id message save update_current durable invoke_id)
          ≡ (if durable || is_some invoke_id then some (name_of invoke_id) else none))
unfolding invoke_call
invoke_call-flags h a m s u d i = ground arith

-- Each flag of `recover_invoke` is the caller's, or the runtime's default where it is left out; neither
-- depends on the other.
pub recover_call-flags :
    (h : ℕ) (invoke_id : String) (save update_current : Option Bool)
    → effective_flags (recover_call h invoke_id save update_current)
      ≡ (or_default false save, or_default true update_current)
recover_call-flags h i s u = ground arith
