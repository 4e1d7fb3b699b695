-- ===== src/Ffi/Locate.antt =====
-- `_find_library` and `_vec_extension_path` of `_ffi.py`: where the shared library and the sqlite-vec
-- extension are looked for.
use par.Prelude.{
  String, ◌<>◌, Bool, true, false, not, ◌&&◌, ◌≡◌, ◌⊎◌, inl, inr, refl, arith, Option, none, some,
  List, [], ◌∷◌, if◌then◌else◌, ◌==◌, Bool-cases, Option-cases, ap,
}

-- `pkg_dir`, the directory of the package, and `pkg_dir.parent.parent.parent`.
pub record Package : Type 0 where
  pub dir : String
  pub project_root : String

-- `dir / "a" / "b"`
abbrev join : String → String → String
join dir path = dir <> "/" <> path

-- `exists` is what the file system says.
module _ (exists : String → Bool) where
  -- `env and Path(env).exists()`
  abbrev pub usable : Option String → Bool
  usable none = false
  usable (some s) = not (s == "") && exists s

  -- `for c in candidates: if c.exists(): return str(c)`
  unfoldable pub first_existing : List String → Option String
  first_existing [] = none
  first_existing (c ∷ cs) = if exists c then some c else first_existing cs

  abbrev pub path_or : Option String → Option String → Option String
  path_or env found = if usable env then env else found

  abbrev pub library_candidates : Package → List String
  library_candidates p =
      join p.dir "lib/par_capi.so" ∷ join p.project_root "_build/default/lib/ffi/par_capi.so" ∷ []

  abbrev or_system : Option String → String
  or_system none = "par_capi.so"
  or_system (some s) = s

  unfoldable pub find_library : Option String → Package → String
  unfolding first_existing
  find_library env p = or_system (path_or env (first_existing (library_candidates p)))

  abbrev pub extension_candidates : Package → List String
  extension_candidates p =
      join p.dir "lib/vec0.so"
      ∷ join p.dir "lib/vec0.dylib"
      ∷ join p.project_root "vendor/sqlite-vec/linux-x86_64/vec0.so"
      ∷ join p.project_root "vendor/sqlite-vec/macos-aarch64/vec0.dylib"
      ∷ []

  unfoldable pub vec_extension_path : Option String → Package → Option String
  unfolding first_existing
  vec_extension_path env p = path_or env (first_existing (extension_candidates p))

  first_existing_lem :
      (cs : List String) (s : String) → first_existing cs ≡ some s → exists s ≡ true
  unfolding first_existing
  first_existing_lem [] s e = ground arith
  first_existing_lem (c ∷ cs) s e = elim (Bool-cases (exists c)) [
    | inl t ↦ cc (simp t at e)
    | inr f ↦ first_existing_lem cs s (simp f at e)
  ]

  path_or_lem :
      (env : Option String) (cs : List String) (s : String)
      → path_or env (first_existing cs) ≡ some s
      → exists s ≡ true
  path_or_lem none cs s e = first_existing_lem cs s e
  path_or_lem (some t) cs s e = elim (Bool-cases (usable (some t))) [
    | inl u ↦ ground (arith, simp u at e)
    | inr f ↦ first_existing_lem cs s (simp f at e)
  ]

  pub path_or-none :
      (env found : Option String) → path_or env found ≡ none → (usable env ≡ false) × (found ≡ none)
  path_or-none none found e = (refl, e)
  path_or-none (some t) found e = elim (Bool-cases (usable (some t))) [
    | inl u ↦ absurd (cc (simp u at e))
    | inr f ↦ (f, simp f at e)
  ]

  -- The extension is loaded only from a path that exists.
  pub vec_extension_path-exists :
      (env : Option String) (p : Package) (s : String)
      → vec_extension_path env p ≡ some s
      → exists s ≡ true
  unfolding vec_extension_path
  vec_extension_path-exists env p s e = path_or_lem env (extension_candidates p) s e

  -- The shared library is loaded from a path that exists, or, where the variable names no file and neither
  -- place of the project has one, by its bare name from the system's search path.
  pub find_library-exists :
      (env : Option String) (p : Package)
      → (exists (find_library env p) ≡ true)
        ⊎ ((find_library env p ≡ "par_capi.so")
            × (usable env ≡ false)
            × (first_existing (library_candidates p) ≡ none))
  unfolding find_library
  find_library-exists env p =
      elim (Option-cases (path_or env (first_existing (library_candidates p)))) [
        | inl e ↦
            let k = path_or-none env (first_existing (library_candidates p)) e in
            inr (ap or_system e, k.0, k.1)
        | inr (s, e) ↦ inl (rw e (path_or_lem env (library_candidates p) s e))
      ]
