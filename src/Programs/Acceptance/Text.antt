-- ===== src/Programs/Acceptance/Text.antt =====
-- Python's operations on texts that only scripts/release-acceptance-test.py uses.
use Prim.Native.Char.{code}
use par.Prelude.{ℕ, zero, suc, ◌/◌, ◌%◌, String, ◌<>◌, ◌&&◌, ◌≡◌, refl, ltb, if◌then◌else◌, ◌==◌}
use par.Python.Text.{nat_str, digit}
use par.Python.Convert.{is_space}

-- `s.strip()`
lstrip : String → String
lstrip String.[] = ""
lstrip (String.◌∷◌ c s) = let rest = lstrip s in if is_space (code c) then rest else String.◌∷◌ c s

rstrip : String → String
rstrip String.[] = ""
rstrip (String.◌∷◌ c s) =
    let rest = rstrip s in if rest == "" && is_space (code c) then "" else String.◌∷◌ c rest

unfoldable pub strip : String → String
unfolding lstrip rstrip
strip s = lstrip (rstrip s)

-- `f"{n:,}"`; the fuel `n + 1` is more than the groups of three digits.
groups : ℕ → ℕ → String
unfolding nat_str
groups zero n = ""
groups (suc f) n =
    let more = groups f (n / 1000) in
    if ltb n 1000
    then nat_str n
    else more <> "," <> digit (n % 1000 / 100) <> digit (n % 100 / 10) <> digit (n % 10)

unfoldable pub thousands : ℕ → String
unfolding groups
thousands n = groups (suc n) n

thousands_text : thousands 1234056 ≡ "1,234,056"
unfolding thousands
thousands_text = refl
