-- ===== src/Config/Dicts.antt =====
-- Dicts that hold the same values under the same keys, in whatever order, are equal to Python. Here they are
-- equal: the quotient of the lists of pairs.
use mathlib.Core.Path.{fun_ext}
use mathlib.Core.HLevel.{Discrete, hedberg}
use mathlib.Core.Quot
use mathlib.Core.Quot.{Quot, Quot-set}
use par.Prelude.{String, ◌≡◌, refl, ap, ◌∙◌, sym, Option, ◌==◌, eq_iff, Bool-cases, inl, inr}
use par.Python.Json.{Json, Fields, get}
use par.Python.Errors.{Result, ok, raised, ◌▹◌}
use par.Config.{normalize_fields}
use par.Config.Described.{mapping, map_result, normalize-described, described}
use par.Config.Persistence.{normalize_idem}

abbrev pub SameDict : Fields → Fields → Type 0
SameDict fs gs = (j : String) → get j fs ≡ get j gs

abbrev pub Dict : Type 0
Dict = Quot SameDict

String-discrete : Discrete String
String-discrete s t = elim (Bool-cases (s == t)) [
  | inl e ↦ yes ((eq_iff s t).0 e)
  | inr ne ↦ no (λ p. cc ((eq_iff s t).1 p))
]

Dict-set : IsSet Dict
Dict-set = Quot-set

Result-set : IsSet (Result Dict)
Result-set = hlevel (Dict-set, hedberg String-discrete)

-- Outcomes that are equal as mappings are equal as dicts.
same_outcome :
    (r r' : Result Fields)
    → map_result mapping r ≡ map_result mapping r'
    → map_result {B = Dict} Quot.mk r ≡ map_result Quot.mk r'
same_outcome (ok fs) (ok gs) e =
    let same : mapping fs ≡ mapping gs = cc in
    ap ok (Quot.sound (λ j. ap (λ (m : String → Option Json). m j) same))
same_outcome (ok fs) (raised y) e = cc
same_outcome (raised x) (ok gs) e = cc
same_outcome (raised x) (raised y) e = let same : x ≡ y = cc in ap raised same

-- `_normalize_config` on a dict, whichever list of pairs stands for it.
pub normalize_dict : Dict → Result Dict
normalize_dict =
    Quot.lift Result-set (λ cfg. map_result Quot.mk (normalize_fields cfg))
      (λ fs gs h.
        same_outcome (normalize_fields fs) (normalize_fields gs)
          (normalize-described fs ∙ ap described (fun_ext h) ∙ sym (normalize-described gs)))

twice :
    (cfg : Fields) (r : Result Fields)
    → normalize_fields cfg ≡ r
    → (map_result {B = Dict} Quot.mk r ▹ normalize_dict) ≡ map_result Quot.mk r
unfolding normalize_dict
twice cfg (ok fs) e =
    let (gs, again, same) = normalize_idem cfg fs e in
    ap (map_result Quot.mk) again ∙ ap ok (Quot.sound same)
twice cfg (raised x) e = refl

-- On dicts, normalizing twice is normalizing once: the second time nothing is raised and nothing changed. What
-- is normalized is a dict and not a list of pairs, since the outcome does not depend on the order.
pub normalize_dict_idem : (d : Dict) → (normalize_dict d ▹ normalize_dict) ≡ normalize_dict d
unfolding normalize_dict
normalize_dict_idem = Quot.ind (λ d. Result-set _ _) (λ cfg. twice cfg (normalize_fields cfg) refl)
