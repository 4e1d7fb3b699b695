-- ===== src/Config/Persistence.antt =====
-- The `persistence` section of `_normalize_config`, and the whole of it applied twice.
use par.Prelude.{
  String, ◌≡◌, refl, ap, ◌∙◌, sym, subst, inl, inr, Bool-cases, Option, none, some, arith, eq_iff,
  ◌==◌,
}
use par.Python.Json.{Json, Fields, arr, obj, nil, cons, get, put, get-put}
use par.Python.Errors.{Result, ok, raised, ◌▹◌}
use par.Config.{normalize_fields, variant, variant_tag, persistence_value, fix_persistence}
use par.Config.Spec.{normal, normalize-get}
use par.Python.Text.{capitalize}
use par.Python.Json.{str}
use par.Prelude.{false}
use par.Config.Idempotent.{normal_idem}
use par.Config.Spec.{get-fill_sections, get-fix_providers}
use par.Config.{fill_sections, fix_providers}

-- A dict with both `tag` and `contents`, which is what `fix_persistence` rewrites.
settled_variant :
    (p cfg gs : Fields) (t c : Option Json)
    → get "persistence" cfg ≡ some (obj p)
    → get "tag" p ≡ t
    → get "contents" p ≡ c
    → variant t c cfg ≡ ok gs
    → (x : Fields) → persistence_value (get "persistence" gs) x ≡ ok x
unfolding variant
settled_variant p cfg gs (some t) (some c) e et ec h x = go (variant_tag t) h
  where
    go :
        (r : Result Json)
        → (r ▹ λ u. ok (put "persistence" (arr (cons u (cons c nil))) cfg)) ≡ ok gs
        → persistence_value (get "persistence" gs) x ≡ ok x
    go (ok u) h =
        ground (arith, get-put "persistence" "persistence" (arr (cons u (cons c nil))) cfg)
    go (raised y) h = cc
settled_variant p cfg gs none c e et ec h x = ground arith
settled_variant p cfg gs (some t) none e et ec h x = ground arith

settled :
    (o : Option Json) (cfg gs : Fields)
    → get "persistence" cfg ≡ o
    → persistence_value o cfg ≡ ok gs
    → (x : Fields) → persistence_value (get "persistence" gs) x ≡ ok x
settled (some (obj p)) cfg gs e h x =
    settled_variant p cfg gs (get "tag" p) (get "contents" p) e refl refl h x
settled o cfg gs e h x = ground arith

-- The other passes leave `persistence` alone.
get-fill_sections_persistence :
    (cfg : Fields) → get "persistence" (fill_sections cfg) ≡ get "persistence" cfg
get-fill_sections_persistence cfg = get-fill_sections "persistence" cfg

get-fix_providers_persistence :
    (cfg : Fields) → get "persistence" (fix_providers cfg) ≡ get "persistence" cfg
get-fix_providers_persistence cfg = get-fix_providers "persistence" cfg

-- What an accepted configuration was before the providers were rewritten.
before_providers :
    (cfg fs : Fields)
    → normalize_fields cfg ≡ ok fs
    → (gs : Fields) × (persistence_value (get "persistence" (fill_sections cfg)) (fill_sections cfg)
        ≡ ok gs)
      × (fix_providers gs ≡ fs)
unfolding normalize_fields fix_persistence
before_providers cfg fs e =
    go (persistence_value (get "persistence" (fill_sections cfg)) (fill_sections cfg)) refl e
  where
    go :
        (r : Result Fields)
        → persistence_value (get "persistence" (fill_sections cfg)) (fill_sections cfg) ≡ r
        → (r ▹ λ gs. ok (fix_providers gs)) ≡ ok fs
        → (gs : Fields) × (persistence_value
              (get "persistence" (fill_sections cfg))
              (fill_sections cfg)
            ≡ ok gs)
          × (fix_providers gs ≡ fs)
    go (ok gs) passed e = (gs, passed, cc)
    go (raised x) passed e = cc

twice_accepted :
    (cfg fs : Fields)
    → normalize_fields cfg ≡ ok fs
    → normalize_fields fs ≡ ok (fix_providers (fill_sections fs))
unfolding normalize_fields fix_persistence
twice_accepted cfg fs accepted =
    let (gs, passed, e) = before_providers cfg fs accepted in
    let same : get "persistence" (fill_sections fs) ≡ get "persistence" gs =
      get-fill_sections_persistence fs
      ∙ ap (get "persistence") (sym e)
      ∙ get-fix_providers_persistence gs in
    rw (
      same,
      settled (get "persistence" (fill_sections cfg)) (fill_sections cfg) gs refl passed
          (fill_sections fs),
    )

-- Normalizing what was normalized is accepted, and gives an equal dict: the same value under every key.
pub normalize_idem :
    (cfg fs : Fields)
    → normalize_fields cfg ≡ ok fs
    → (gs : Fields) × (normalize_fields fs ≡ ok gs) × ((j : String) → get j gs ≡ get j fs)
normalize_idem cfg fs accepted =
    (fix_providers (fill_sections fs), twice_accepted cfg fs accepted, same)
  where
    same : (j : String) → get j (fix_providers (fill_sections fs)) ≡ get j fs
    same j = elim (Bool-cases ("persistence" == j)) [
      | inl e ↦
          subst (λ k. get k (fix_providers (fill_sections fs)) ≡ get k fs)
            ((eq_iff "persistence" j).0 e)
            (get-fix_providers_persistence (fill_sections fs) ∙ get-fill_sections_persistence fs)
      | inr ne ↦
          normalize-get j fs (fix_providers (fill_sections fs)) ne (twice_accepted cfg fs accepted)
          ∙ ap (normal j) (normalize-get j cfg fs ne accepted)
          ∙ normal_idem j (get j cfg)
          ∙ sym (normalize-get j cfg fs ne accepted)
    ]

-- A section `{"tag": t, "contents": c}` with a text for a tag that is not empty is accepted, and
-- becomes `[T, c]`, where `T` is `t` with a capital.
pub normalize-variant :
    (t : String) (c : Json) (cfg p : Fields)
    → get "persistence" cfg ≡ some (obj p)
    → get "tag" p ≡ some (str t)
    → (t == "") ≡ false
    → get "contents" p ≡ some c
    → (fs : Fields) × (normalize_fields cfg ≡ ok fs)
      × (get "persistence" fs ≡ some (arr (cons (str (capitalize t)) (cons c nil))))
unfolding normalize_fields fix_persistence variant variant_tag
normalize-variant t c cfg p e et ne ec =
    let value = arr (cons (str (capitalize t)) (cons c nil)) in
    let written = put "persistence" value (fill_sections cfg) in
    (
      fix_providers written,
      rw (get-fill_sections_persistence cfg, e, et, ec, ne),
      get-fix_providers_persistence written
          ∙ get-put "persistence" "persistence" value (fill_sections cfg),
    )
