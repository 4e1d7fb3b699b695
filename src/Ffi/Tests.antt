-- ===== src/Ffi/Tests.antt =====
-- Examples of an import of `_ffi.py`.
use par.Prelude.{refl, String, Bool, ◌==◌, none, some, ◌≡◌}
use par.Python.Errors.{ok}
use par.Ffi.Locate.{Package, vec_extension_path, first_existing}
use par.Ffi.Load.{Platform}

abbrev installed : Package
installed = record { dir = "site/par_runtime"; project_root = "/" }

abbrev bundled : String → Bool
bundled path = path == "site/par_runtime/lib/vec0.so"

found :
    vec_extension_path bundled (some "missing.so") installed ≡ some "site/par_runtime/lib/vec0.so"
unfolding vec_extension_path first_existing
found = refl

abbrev linux : Platform
linux = record {
  name = "linux";
  c_library = some "libc.so.6";
  par_runtime_lib = none;
  par_vec_path = some "missing.so";
  exists = bundled;
  cdll = λ s. ok tt;
}
