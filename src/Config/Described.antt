-- ===== src/Config/Described.antt =====
-- `_normalize_config` on a dict as a mapping: what it does depends on the values under the keys alone, and not
-- on the order in which the caller wrote them.
use mathlib.Core.Path.{fun_ext}
use par.Prelude.{
  String, ◌≡◌, refl, ap, subst, ◌∙◌, Option, none, some, arith, eq_iff, Bool-cases, inl, inr,
  if◌then◌else◌, ◌==◌,
}
use par.Python.Json.{Json, Fields, obj, arr, nil, cons, get, put, get-put}
use par.Python.Errors.{Result, ok, raised, ◌▹◌}
use par.Config.{
  normalize_fields, fix_persistence, persistence_value, variant, variant_tag, fill_sections,
  fix_providers, fix_entries,
}
use par.Config.Spec.{normal, at_key, mapped_items, get-fill_sections, get-fix_providers}

-- A dict as a mapping.
abbrev pub Mapping : Type 0
Mapping = String → Option Json

abbrev pub mapping : Fields → Mapping
mapping fs j = get j fs

abbrev pub map_result : {A B : Type 0} → (A → B) → Result A → Result B
map_result f (ok a) = ok (f a)
map_result f (raised e) = raised e

-- The pair for a tag and its contents; any other section stays.
abbrev pub described_variant : Option Json → Option Json → Option Json → Result (Option Json)
described_variant (some tag) (some contents) o =
    map_result (λ t. some (arr (cons t (cons contents nil)))) (variant_tag tag)
described_variant t c o = ok o

abbrev pub described_persistence : Option Json → Result (Option Json)
described_persistence (some (obj p)) =
    described_variant (get "tag" p) (get "contents" p) (some (obj p))
described_persistence o = ok o

-- The mapping that is handed on, or what a tag that is no text raises.
abbrev pub described : Mapping → Result Mapping
described m =
    map_result (λ o j. if "persistence" == j then o else normal j (m j))
      (described_persistence (m "persistence"))

-- What the last passes leave under each key, where `o` was put under `persistence`.
finished_at :
    (cfg gs : Fields) (o : Option Json) (j : String)
    → ((k : String) → get k gs ≡ (if "persistence" == k then o else get k (fill_sections cfg)))
    → get j (fix_providers gs) ≡ (if "persistence" == j then o else normal j (get j cfg))
finished_at cfg gs o j here = elim (Bool-cases ("persistence" == j)) [
  | inl e ↦
      subst
        (λ k. get k (fix_providers gs) ≡ (if "persistence" == k then o else normal k (get k cfg)))
        ((eq_iff "persistence" j).0 e) (get-fix_providers "persistence" gs ∙ here "persistence")
  | inr ne ↦
      let same : get j gs ≡ get j (fill_sections cfg) = here j ∙ rw ne refl in
      get-fix_providers j gs
      ∙ ap (at_key "llm_providers" (mapped_items fix_entries) j) (same ∙ get-fill_sections j cfg)
      ∙ rw ne refl
]

finished :
    (cfg gs : Fields) (o : Option Json)
    → ((k : String) → get k gs ≡ (if "persistence" == k then o else get k (fill_sections cfg)))
    → mapping (fix_providers gs) ≡ (λ j. if "persistence" == j then o else normal j (get j cfg))
finished cfg gs o here = fun_ext λ j. finished_at cfg gs o j here

-- The two sides for a value `o` of `persistence`, with the dict after the sections were filled in.
abbrev Agrees : Fields → Option Json → Result Fields → Type 0
Agrees cfg o r =
    map_result mapping (r ▹ λ gs. ok (fix_providers gs))
    ≡ map_result (λ v j. if "persistence" == j then v else normal j (get j cfg))
        (described_persistence o)

kept-Agrees :
    (cfg : Fields) (o : Option Json)
    → get "persistence" (fill_sections cfg) ≡ o
    → map_result mapping (ok (fix_providers (fill_sections cfg)))
      ≡ ok (λ j. if "persistence" == j then o else normal j (get j cfg))
kept-Agrees cfg o e =
    ap ok (finished cfg (fill_sections cfg) o (λ k. ground (arith, e, eq_iff "persistence" k)))

variant-Agrees :
    (cfg p : Fields) (t c : Option Json)
    → get "persistence" (fill_sections cfg) ≡ some (obj p)
    → map_result mapping (variant t c (fill_sections cfg) ▹ λ gs. ok (fix_providers gs))
      ≡ map_result
          (λ v j. if "persistence" == j then v else normal j (get j cfg))
          (described_variant t c (some (obj p)))
unfolding variant
variant-Agrees cfg p (some t) (some c) e = go (variant_tag t)
  where
    go :
        (r : Result Json)
        → map_result mapping (
            (r ▹ λ u. ok (put "persistence" (arr (cons u (cons c nil))) (fill_sections cfg)))
            ▹ λ gs. ok (fix_providers gs))
          ≡ map_result
              (λ v j. if "persistence" == j then v else normal j (get j cfg))
              (map_result (λ u. some (arr (cons u (cons c nil)))) r)
    go (ok u) = ap ok (
        finished cfg (put "persistence" (arr (cons u (cons c nil))) (fill_sections cfg)) _
          (λ k. get-put "persistence" k (arr (cons u (cons c nil))) (fill_sections cfg)))
    go (raised x) = refl
variant-Agrees cfg p (some t) none e = kept-Agrees cfg (some (obj p)) e
variant-Agrees cfg p none c e = kept-Agrees cfg (some (obj p)) e

persistence-Agrees :
    (cfg : Fields) (o : Option Json)
    → get "persistence" (fill_sections cfg) ≡ o
    → Agrees cfg o (persistence_value o (fill_sections cfg))
persistence-Agrees cfg (some (obj p)) e = variant-Agrees cfg p (get "tag" p) (get "contents" p) e
persistence-Agrees cfg none e = kept-Agrees cfg none e
persistence-Agrees cfg (some v) e = kept-Agrees cfg (some v) e

pub normalize-described :
    (cfg : Fields) → map_result mapping (normalize_fields cfg) ≡ described (mapping cfg)
unfolding normalize_fields fix_persistence
normalize-described cfg =
    let same = get-fill_sections "persistence" cfg in
    ap
      (λ o.
        map_result mapping (persistence_value o (fill_sections cfg) ▹ λ gs. ok (fix_providers gs)))
      same
    ∙ persistence-Agrees cfg (get "persistence" cfg) same
