-- ===== src/Programs/Acceptance/Versions.antt =====
-- How the script compares versions: `_norm`, in the code that it runs at its first level.
use Prim.Native.Char.{code}
use par.Prelude.{ℕ, zero, suc, String, ◌<>◌, Bool, true, false, ◌&&◌, ◌≡◌, refl, eqb}

-- Whether `s` begins with `pattern`.
unfoldable pub begins : String → String → Bool
begins String.[] s = true
begins (String.◌∷◌ c pattern) String.[] = false
begins (String.◌∷◌ c pattern) (String.◌∷◌ d s) = eqb (code c) (code d) && begins pattern s

unfoldable pub text_size : String → ℕ
text_size String.[] = 0
text_size (String.◌∷◌ c s) = suc (text_size s)

abbrev pub tail_size : String → ℕ
unfolding text_size
tail_size String.[] = 0
tail_size (String.◌∷◌ c s) = text_size s

-- `re.sub(pattern, text, s)` for a literal pattern that is not empty, on what follows the next `skip`
-- characters of `s`: each match is replaced, from the left.
unfoldable pub sub : String → String → ℕ → String → String
unfolding begins text_size
sub pattern text skip String.[] = ""
sub pattern text (suc k) (String.◌∷◌ d s) = sub pattern text k s
sub pattern text zero (String.◌∷◌ d s) = elim (begins pattern (String.◌∷◌ d s)) [
  | true ↦ text <> sub pattern text (tail_size pattern) s
  | false ↦ String.◌∷◌ d (sub pattern text zero s)
]

-- The separators of a pre-release in SemVer, as `_norm` knows them, and what PEP 440 has in their place.
pub data Stage : Type 0 where
  alpha beta rc dev post : Stage

abbrev pub long : Stage → String
long alpha = "-alpha."
long beta = "-beta."
long rc = "-rc."
long dev = "-dev."
long post = "-post."

abbrev pub short : Stage → String
short alpha = "a"
short beta = "b"
short rc = "rc"
short dev = "dev"
short post = "post"

abbrev pub shorten : Stage → String → String
unfolding sub
shorten g s = sub (long g) (short g) zero s

unfoldable pub norm : String → String
unfolding sub
norm s = shorten post (shorten dev (shorten rc (shorten beta (shorten alpha s))))

beta_version : norm "0.9.0-beta.20260810" ≡ "0.9.0b20260810"
unfolding norm
beta_version = refl
