-- ===== src/Ffi/Load.antt =====
-- What an import of `_ffi.py` does: it loads par_capi.so and libc, and tells the library where the sqlite-vec
-- extension is.
use par.Prelude.{String, Bool, Option, none, some, if◌then◌else◌, ◌==◌}
use par.Python.Errors.{Result}
use par.Ffi.Calls.{Library, par_set_vec_extension_path}
use par.Ffi.Process.{Process, Action, ◌>>=◌, ◌>>◌, pure, lift, call_status}
use par.Ffi.Strings.{c_str}
use par.Ffi.Locate.{Package, find_library, vec_extension_path}

-- What the platform says: `sys.platform`, `find_library("c")`, the environment, the file system, and whether
-- `ctypes.CDLL` can load a library.
pub record Platform : Type 0 where
  pub name : String
  pub c_library : Option String
  pub par_runtime_lib : Option String
  pub par_vec_path : Option String
  pub exists : String → Bool
  pub cdll : String → Result (Unit {0})

-- `ctypes.util.find_library("c") or "libc.so.6"`
abbrev or_libc : Option String → String
or_libc none = "libc.so.6"
or_libc (some s) = if s == "" then "libc.so.6" else s

abbrev pub libc_name : Platform → String
libc_name os = if os.name == "darwin" then "libc.dylib" else or_libc os.c_library

abbrev pub vec_path : Platform → Package → Option String
vec_path os pkg = vec_extension_path os.exists os.par_vec_path pkg

module _ (lib : Library) where
  abbrev pub set_vec_path : Option String → Action Unit
  unfolding call_status ◌>>=◌
  set_vec_path none = pure tt
  set_vec_path (some s) = call_status lib (par_set_vec_extension_path (c_str s)) >>= λ _. pure tt

  unfoldable pub import_ffi : Platform → Package → Action Unit
  unfolding find_library vec_extension_path
  import_ffi os pkg = do
    lift (os.cdll (find_library os.exists os.par_runtime_lib pkg))
    lift (os.cdll (libc_name os))
    set_vec_path (vec_path os pkg)
