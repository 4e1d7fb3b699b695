-- ===== src/Config/Accepts.antt =====
-- Which configurations `_normalize_config` accepts.
use par.Prelude.{
  String, ◌≡◌, refl, Bool, true, false, not, Option, none, some, subst, if◌then◌else◌, ◌==◌,
}
use par.Python.Int.{is_zero}
use par.Python.Json.{
  Json, Fields, null, bool, int, dec, end, field, str, arr, obj, nil, cons, get, put, truthy,
}
use par.Python.Errors.{Error, Result, ok, raised, ◌▹◌}
use par.Python.Interpreter.{Interpreter, parsed}
use par.Config.{
  normalize_fields, normalize_config, variant, variant_tag, persistence_value, fix_persistence,
  fill_sections, fix_providers,
}
use par.Config.Spec.{get-fill_sections}

-- A tag whose first letter can be written large, or which is left as it is because it is empty.
abbrev is_tag : Json → Bool
is_tag (str s) = true
is_tag v = not (truthy v)

abbrev is_variant : Option Json → Option Json → Bool
is_variant (some tag) (some contents) = is_tag tag
is_variant t c = true

-- A `persistence` section that is no tagged dict, or one whose tag is fit.
abbrev pub is_persistence : Option Json → Bool
is_persistence (some (obj p)) = is_variant (get "tag" p) (get "contents" p)
is_persistence o = true

Accepted : Bool → Result Fields → Type 0
Accepted true r = (fs : Fields) × (r ≡ ok fs)
Accepted false r = (e : Error) × (r ≡ raised e)

checked :
    (b : Bool) (e : Error) (v : Json) (g : Json → Fields)
    → Accepted (not b) ((if b then raised e else ok v) ▹ λ t. ok (g t))
unfolding Accepted
checked true e v g = (e, refl)
checked false e v g = (g v, refl)

either :
    (b : Bool) (v w : Json) (g : Json → Fields)
    → Accepted true ((if b then ok v else ok w) ▹ λ t. ok (g t))
unfolding Accepted
either true v w g = (g v, refl)
either false v w g = (g w, refl)

variant_tag-Accepted :
    (tag c : Json) (cfg : Fields)
    → Accepted
        (is_tag tag)
        (variant_tag tag ▹ λ t. ok (put "persistence" (arr (cons t (cons c nil))) cfg))
unfolding Accepted variant_tag
variant_tag-Accepted (str s) c cfg = either (s == "") _ _ _
variant_tag-Accepted null c cfg = (_, refl)
variant_tag-Accepted (bool b) c cfg = checked b _ _ _
variant_tag-Accepted (int z) c cfg = checked (not (is_zero z)) _ _ _
variant_tag-Accepted (dec z k) c cfg = checked (not (is_zero z)) _ _ _
variant_tag-Accepted (arr nil) c cfg = (_, refl)
variant_tag-Accepted (arr (cons (str s) xs)) c cfg = (_, refl)
variant_tag-Accepted (arr (cons x xs)) c cfg = (_, refl)
variant_tag-Accepted (obj end) c cfg = (_, refl)
variant_tag-Accepted (obj (field k v fs)) c cfg = (_, refl)

variant-Accepted : (t c : Option Json) (cfg : Fields) → Accepted (is_variant t c) (variant t c cfg)
unfolding Accepted variant
variant-Accepted (some t) (some c) cfg = variant_tag-Accepted t c cfg
variant-Accepted (some t) none cfg = (cfg, refl)
variant-Accepted none c cfg = (cfg, refl)

persistence-Accepted :
    (o : Option Json) (cfg : Fields) → Accepted (is_persistence o) (persistence_value o cfg)
unfolding Accepted
persistence-Accepted none cfg = (cfg, refl)
persistence-Accepted (some (obj p)) cfg = variant-Accepted (get "tag" p) (get "contents" p) cfg
persistence-Accepted (some v) cfg = (cfg, refl)

-- The rest of the passes cannot fail.
finished :
    (b : Bool) (r : Result Fields) (f : Fields → Fields) (g : Fields → String)
    → Accepted b r
    → (b ≡ true → (n : String) × ((r ▹ λ fs. ok (f fs)) ▹ λ fs. ok (g fs)) ≡ ok n)
      × (b ≡ false → (e : Error) × ((r ▹ λ fs. ok (f fs)) ▹ λ fs. ok (g fs)) ≡ raised e)
unfolding Accepted
finished true r f g (fs, e) = (λ h. (g (f fs), simp e refl), λ h. cc)
finished false r f g (x, e) = (λ h. cc, λ h. (x, simp e refl))

pub normalize_config-accepts :
    (py : Interpreter) (s : String) (cfg : Fields)
    → py.loads s ≡ parsed (obj cfg)
    → (is_persistence (get "persistence" cfg) ≡ true
        → (n : String) × (normalize_config py s ≡ ok n))
      × (is_persistence (get "persistence" cfg) ≡ false
          → (e : Error) × (normalize_config py s ≡ raised e))
unfolding normalize_config normalize_fields fix_persistence
normalize_config-accepts py s cfg l =
    let a =
      subst (λ o. Accepted (is_persistence o) (persistence_value o (fill_sections cfg)))
        (get-fill_sections "persistence" cfg)
        (persistence-Accepted (get "persistence" (fill_sections cfg)) (fill_sections cfg)) in
    simp (l, get-fill_sections "persistence" cfg)
      (finished (is_persistence (get "persistence" cfg)) _ fix_providers (λ fs. py.dumps (obj fs))
        a)
