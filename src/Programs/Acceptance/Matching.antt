-- ===== src/Programs/Acceptance/Matching.antt =====
-- `re.sub` with the separators of `_norm`: what it passes over and what it replaces.
use Prim.Native.Char.{Char, code}
use par.Prelude.{
  zero, String, ◌<>◌, Bool, true, false, not, ◌||◌, ◌≡◌, ◌∙◌, refl, sym, subst, ap, eqb, arith,
}
use text.Mathlib.TextLemmas.{nil-append, cons-append, append-nil}
use par.Python.Text.{has}
use par.Programs.Acceptance.Versions.{
  begins, text_size, tail_size, sub, Stage, alpha, beta, rc, dev, post, long, short, shorten,
}

-- A text without a hyphen, as a version in the form of PEP 440 is.
abbrev pub is_plain : String → Bool
unfolding has
is_plain s = not (has b'-' s)

pub is_plain-append :
    (s t : String) → is_plain s ≡ true → is_plain t ≡ true → is_plain (s <> t) ≡ true
unfolding has
is_plain-append String.[] t h k = rw (nil-append t) k
is_plain-append (String.◌∷◌ c s) t h k =
    rw (cons-append c s t) (ground (arith, is_plain-append s t))

-- The two texts differ before either ends.
unfoldable pub clash : String → String → Bool
clash String.[] t = false
clash (String.◌∷◌ c s) String.[] = false
clash (String.◌∷◌ c s) (String.◌∷◌ d t) = not (eqb (code c) (code d)) || clash s t

begins-clash : (p q y : String) → clash p q ≡ true → begins p (q <> y) ≡ false
unfolding begins clash
begins-clash String.[] q y h = cc
begins-clash (String.◌∷◌ c p) String.[] y h = cc
begins-clash (String.◌∷◌ c p) (String.◌∷◌ d q) y h =
    rw (cons-append d q y) (ground (arith, begins-clash p q y))

begins-append : (p y : String) → begins p (p <> y) ≡ true
unfolding begins
begins-append String.[] y = refl
begins-append (String.◌∷◌ c p) y = rw (cons-append c p y) (ground (arith, begins-append p y))

begins-plain :
    (g : Stage) (c : Char) (s : String)
    → eqb (code c) b'-' ≡ false
    → begins (long g) (String.◌∷◌ c s) ≡ false
unfolding begins
begins-plain alpha c s h = ground arith
begins-plain beta c s h = ground arith
begins-plain rc c s h = ground arith
begins-plain dev c s h = ground arith
begins-plain post c s h = ground arith

-- One step, given whether there is a match.
sub-step :
    (pattern text : String) (c : Char) (s : String) (b : Bool)
    → begins pattern (String.◌∷◌ c s) ≡ b
    → sub pattern text zero (String.◌∷◌ c s) ≡ elim b [
      | true ↦ text <> sub pattern text (tail_size pattern) s
      | false ↦ String.◌∷◌ c (sub pattern text zero s)
    ]
unfolding sub
sub-step pattern text c s b h =
    ap
      (λ b. elim b [
        | true ↦ text <> sub pattern text (tail_size pattern) s
        | false ↦ String.◌∷◌ c (sub pattern text zero s)
      ])
      h

-- What has no hyphen is passed over.
pub shorten-plain_append :
    (g : Stage) (x z : String) → is_plain x ≡ true → shorten g (x <> z) ≡ x <> shorten g z
unfolding sub has
shorten-plain_append g String.[] z h = ap (shorten g) (nil-append z) ∙ sym (nil-append _)
shorten-plain_append g (String.◌∷◌ c x) z h = rw (cons-append c x z) (
    sub-step (long g) (short g) c (x <> z) false (begins-plain g c (x <> z) (ground arith))
    ∙ ap (String.◌∷◌ c) (shorten-plain_append g x z (ground arith))
    ∙ sym (cons-append c x _))

pub shorten-plain : (g : Stage) (x : String) → is_plain x ≡ true → shorten g x ≡ x
unfolding sub
shorten-plain g x h =
    ap (shorten g) (sym (append-nil x)) ∙ shorten-plain_append g x "" h ∙ append-nil x

sub-skip :
    (pattern text p y : String) → sub pattern text (text_size p) (p <> y) ≡ sub pattern text zero y
unfolding sub text_size
sub-skip pattern text String.[] y = ap (sub pattern text zero) (nil-append y)
sub-skip pattern text (String.◌∷◌ c p) y = rw (cons-append c p y) (sub-skip pattern text p y)

begins-cons-append :
    (c : Char) (p y : String) → begins (String.◌∷◌ c p) (String.◌∷◌ c (p <> y)) ≡ true
begins-cons-append c p y =
    subst (λ s. begins (String.◌∷◌ c p) s ≡ true) (cons-append c p y)
      (begins-append (String.◌∷◌ c p) y)

sub-match :
    (c : Char) (p text y : String)
    → sub (String.◌∷◌ c p) text zero (String.◌∷◌ c p <> y)
      ≡ text <> sub (String.◌∷◌ c p) text zero y
unfolding sub
sub-match c p text y = rw (cons-append c p y) (
    sub-step (String.◌∷◌ c p) text c (p <> y) true (begins-cons-append c p y)
    ∙ (ap (λ s. text <> s) (sub-skip (String.◌∷◌ c p) text p y)))

pub shorten-long : (g : Stage) (y : String) → shorten g (long g <> y) ≡ short g <> shorten g y
unfolding sub
shorten-long alpha y = sub-match "-" "alpha." "a" y
shorten-long beta y = sub-match "-" "beta." "b" y
shorten-long rc y = sub-match "-" "rc." "rc" y
shorten-long dev y = sub-match "-" "dev." "dev" y
shorten-long post y = sub-match "-" "post." "post" y

-- The separator of another stage is left as it is.
pub shorten-other :
    (g : Stage) (c : Char) (q y : String)
    → clash (long g) (String.◌∷◌ c q) ≡ true
    → is_plain q ≡ true
    → is_plain y ≡ true
    → shorten g (String.◌∷◌ c q <> y) ≡ String.◌∷◌ c q <> y
unfolding sub
shorten-other g c q y e h k = rw (cons-append c q y) (
    sub-step (long g) (short g) c (q <> y) false (
      subst (λ s. begins (long g) s ≡ false) (cons-append c q y)
        (begins-clash (long g) (String.◌∷◌ c q) y e))
    ∙ ap (String.◌∷◌ c) (shorten-plain g (q <> y) (is_plain-append q y h k)))
