-- ===== src/Config/Idempotent.antt =====
-- `_normalize_config` on a configuration that it has already normalized.
use par.Prelude.{
  String, ◌≡◌, refl, ap, ◌∙◌, sym, subst, inl, inr, Bool-cases, true, false, Option, none, some,
  arith, eq_iff, ◌==◌,
}
use par.Python.Json.{
  Json, Items, Fields, null, str, arr, obj, nil, cons, get, end, field, contains, set_default,
  get-set_default,
}
use par.Config.{
  set_defaults, update_section, fill_event_bus, fill_delivery, fill_vector_store, fix_entries,
  fix_entry, update_value,
}
use par.Config.Defaults.{defaults, event_bus_defaults, delivery_defaults, bus_defaults}
use par.Config.Lookup.{
  sectioned, mapped, Covers, set_defaults-covered, set_default-present, put-get, get-update_section,
}
use par.Config.Spec.{normal}
use par.Config.Required.{Grows, Grows-set_defaults, Grows-fill_event_bus, Grows-update_section}

Covers-mono :
    (ds gs hs : Fields)
    → Covers ds gs
    → ((j : String) → contains j gs ≡ true → contains j hs ≡ true)
    → Covers ds hs
Covers-mono end gs hs h m = tt
Covers-mono (field k d ds) gs hs h m = (m k h.0, Covers-mono ds gs hs h.1 m)

contains-set_default :
    (k : String) (d : Json) (fs : Fields) → contains k (set_default k d fs) ≡ true
contains-set_default k d fs = ground (arith, get-set_default k k d fs, eq_iff k k)

Covers-set_defaults : (ds fs : Fields) → Covers ds (set_defaults ds fs)
unfolding set_defaults
Covers-set_defaults end fs = tt
Covers-set_defaults (field k d ds) fs = (
  Grows-set_defaults ds k (set_default k d fs) (contains-set_default k d fs),
  Covers-set_defaults ds (set_default k d fs),
)

-- Filling in a section a second time changes nothing, whatever keys were added in between.
refill :
    (ds fs : Fields) (f : Fields → Fields)
    → Grows f
    → set_defaults ds (f (set_defaults ds fs)) ≡ f (set_defaults ds fs)
refill ds fs f g = set_defaults-covered ds (f (set_defaults ds fs)) (
    Covers-mono ds (set_defaults ds fs) (f (set_defaults ds fs)) (Covers-set_defaults ds fs)
      (λ j h. g j (set_defaults ds fs) h))

refill_same : (ds fs : Fields) → set_defaults ds (set_defaults ds fs) ≡ set_defaults ds fs
refill_same ds fs = refill ds fs (λ gs. gs) (λ j gs h. h)

update_value-fixed :
    (key : String) (f : Fields → Fields) (o : Option Json) (gs : Fields)
    → ((vs : Fields) → f (f vs) ≡ f vs)
    → get key gs ≡ mapped f o
    → update_value key f (mapped f o) gs ≡ gs
update_value-fixed key f (some (obj vs)) gs idem e =
    put-get key (obj (f (f vs))) gs (e ∙ ap (λ ws. some (obj ws)) (sym (idem vs)))
update_value-fixed key f o gs idem e = refl

update_section_idem :
    (key : String) (f : Fields → Fields) (fs : Fields)
    → ((vs : Fields) → f (f vs) ≡ f vs)
    → update_section key f (update_section key f fs) ≡ update_section key f fs
update_section_idem key f fs idem =
    let gs = update_section key f fs in
    let e : get key gs ≡ mapped f (get key fs) =
      ground (arith, get-update_section key key f fs, eq_iff key key) in
    unfold update_section in
    (ap (λ o. update_value key f o gs) e ∙ update_value-fixed key f (get key fs) gs idem e)

-- The defaults of the event bus, twice.
fill_event_bus_idem : (fs : Fields) → fill_event_bus (fill_event_bus fs) ≡ fill_event_bus fs
unfolding fill_event_bus fill_delivery
fill_event_bus_idem fs =
    let delivery = update_section "delivery" (set_defaults delivery_defaults) in
    ap delivery (
      refill event_bus_defaults fs delivery
        (Grows-update_section "delivery" (set_defaults delivery_defaults)))
    ∙ update_section_idem "delivery" (set_defaults delivery_defaults)
        (set_defaults event_bus_defaults fs) (refill_same delivery_defaults)

fill_vector_store_idem :
    (fs : Fields) → fill_vector_store (fill_vector_store fs) ≡ fill_vector_store fs
unfolding fill_vector_store set_defaults
fill_vector_store_idem fs = refill_same (field "backend" (str "sqlite_vec") end) fs

fix_entry_idem : (e : Json) → fix_entry (fix_entry e) ≡ fix_entry e
unfolding fix_entry
fix_entry_idem (arr (cons id (cons (arr (cons tag (cons (obj pcfg) nil))) nil))) = ground (
  arith,
  set_default-present "prompt_cache_key" null (set_default "prompt_cache_key" null pcfg),
  contains-set_default "prompt_cache_key" null pcfg,
)
fix_entry_idem e = refl

fix_entries_idem : (es : Items) → fix_entries (fix_entries es) ≡ fix_entries es
unfolding fix_entries
fix_entries_idem nil = refl
fix_entries_idem (cons e es) = cc (fix_entry_idem e, fix_entries_idem es)

Covers-self : (ds : Fields) → Covers ds ds
Covers-self end = tt
Covers-self (field k d ds) = (
  ground (arith, eq_iff k k),
  Covers-mono ds ds (field k d ds) (Covers-self ds) (λ j h. ground (arith, eq_iff k j)),
)

sectioned_idem : (d o : Option Json) → sectioned d (sectioned d o) ≡ sectioned d o
sectioned_idem none o = refl
sectioned_idem (some (obj ds)) none =
    ap (λ vs. some (obj vs)) (set_defaults-covered ds ds (Covers-self ds))
sectioned_idem (some (obj ds)) (some (obj vs)) = ap (λ ws. some (obj ws)) (refill_same ds vs)
sectioned_idem (some d) o = ground arith

mapped_idem :
    (f : Fields → Fields) (o : Option Json)
    → ((vs : Fields) → f (f vs) ≡ f vs)
    → mapped f (mapped f o) ≡ mapped f o
mapped_idem f (some (obj vs)) idem = ap (λ ws. some (obj ws)) (idem vs)
mapped_idem f o idem = refl

providers_idem :
    (o : Option Json) → normal "llm_providers" (normal "llm_providers" o) ≡ normal "llm_providers" o
providers_idem none = ap (λ es. some (arr es)) (fix_entries_idem nil)
providers_idem (some (arr es)) = ap (λ fs. some (arr fs)) (fix_entries_idem es)
providers_idem (some v) = refl

event_bus_idem :
    (o : Option Json) → normal "event_bus" (normal "event_bus" o) ≡ normal "event_bus" o
event_bus_idem none =
    ap (λ ws. some (obj (fill_event_bus ws)))
      (set_defaults-covered bus_defaults (fill_event_bus bus_defaults) (
        Covers-mono bus_defaults bus_defaults (fill_event_bus bus_defaults)
          (Covers-self bus_defaults) (λ j h. Grows-fill_event_bus j bus_defaults h)))
    ∙ ap (λ ws. some (obj ws)) (fill_event_bus_idem bus_defaults)
event_bus_idem (some (obj vs)) =
    ap (λ ws. some (obj (fill_event_bus ws)))
      (refill bus_defaults vs fill_event_bus Grows-fill_event_bus)
    ∙ ap (λ ws. some (obj ws)) (fill_event_bus_idem (set_defaults bus_defaults vs))
event_bus_idem (some v) = refl

-- Away from the two rewritten sections and the providers only the defaults are filled in.
normal-plain :
    (j : String) (o : Option Json)
    → ("llm_providers" == j) ≡ false
    → ("event_bus" == j) ≡ false
    → ("vector_store" == j) ≡ false
    → normal j o ≡ sectioned (get j defaults) o
normal-plain j o nl ne nv = rw (nl, ne, nv)

normal_idem_plain :
    (j : String) (o : Option Json)
    → ("llm_providers" == j) ≡ false
    → ("event_bus" == j) ≡ false
    → ("vector_store" == j) ≡ false
    → normal j (normal j o) ≡ normal j o
normal_idem_plain j o nl ne nv =
    normal-plain j (normal j o) nl ne nv
    ∙ ap (sectioned (get j defaults)) (normal-plain j o nl ne nv)
    ∙ sectioned_idem (get j defaults) o
    ∙ sym (normal-plain j o nl ne nv)

pub normal_idem : (j : String) (o : Option Json) → normal j (normal j o) ≡ normal j o
normal_idem j o = elim (Bool-cases ("llm_providers" == j)) [
  | inl e ↦ subst (λ k. normal k (normal k o) ≡ normal k o) ((eq_iff _ j).0 e) (providers_idem o)
  | inr nl ↦ elim (Bool-cases ("event_bus" == j)) [
    | inl e ↦ subst (λ k. normal k (normal k o) ≡ normal k o) ((eq_iff _ j).0 e) (event_bus_idem o)
    | inr ne ↦ elim (Bool-cases ("vector_store" == j)) [
      | inl e ↦
          subst (λ k. normal k (normal k o) ≡ normal k o) ((eq_iff _ j).0 e)
            (mapped_idem fill_vector_store o fill_vector_store_idem)
      | inr nv ↦ normal_idem_plain j o nl ne nv
    ]
  ]
]
