-- ===== src/Base/Texts.antt =====
-- Texts by their characters: prefixes, and Python's str.strip. `is_space` is its white space.
use Prim.Native.Char.{Char, code}
use Prim.Native.Nat.{ℕ, zero, suc}
use Prim.Native.String.{String, [], ◌∷◌, ◌++◌}
use mathlib.Core.Path.{◌≡◌, refl}
use mathlib.Core.Logic.{inl, inr}
use mathlib.Core.Bool.{Bool, true, false}
use mathlib.Core.Option.{Option, none, some}
use text.Mathlib.TextLemmas.{nil-append, cons-append}
use yodoca.Base.Tests.{◌==◌, if◌then◌else◌, Bool-cases, eq→==}

-- not text
unfoldable pub is_empty : String → Bool
is_empty [] = true
is_empty (c ∷ s) = false

-- text[:n]
unfoldable pub take_chars : ℕ → String → String
take_chars zero s = []
take_chars (suc n) [] = []
take_chars (suc n) (c ∷ s) = c ∷ take_chars n s

-- The text behind a prefix.
unfoldable pub behind : String → String → Option String
behind [] s = some s
behind (p ∷ ps) [] = none
behind (p ∷ ps) (c ∷ s) = let rest = behind ps s in if code p == code c then rest else none

pub behind-append : (p s : String) → behind p (p ++ s) ≡ some s
unfolding behind
behind-append [] s = rw (nil-append s) refl
behind-append (c ∷ p) s = rw (cons-append c p s, eq→== (code c) (code c) refl) (behind-append p s)

module _ (is_space : Char → Bool) where
  unfoldable pub lstrip : String → String
  lstrip [] = []
  lstrip (c ∷ s) = let rest = lstrip s in if is_space c then rest else c ∷ s

  unfoldable pub cons_unless_blank : Char → String → String
  cons_unless_blank c [] = if is_space c then [] else c ∷ []
  cons_unless_blank c (d ∷ s) = c ∷ d ∷ s

  unfoldable pub rstrip : String → String
  unfolding cons_unless_blank
  rstrip [] = []
  rstrip (c ∷ s) = cons_unless_blank c (rstrip s)

  unfoldable pub strip : String → String
  unfolding lstrip rstrip
  strip s = rstrip (lstrip s)

  rstrip_idem : (s : String) → rstrip (rstrip s) ≡ rstrip s
  unfolding rstrip cons_unless_blank
  rstrip_idem [] = refl
  rstrip_idem (c ∷ s) = go (rstrip s) (rstrip_idem s)
    where
      go : (r : String) → rstrip r ≡ r → rstrip (cons_unless_blank c r) ≡ cons_unless_blank c r
      go [] e = elim (Bool-cases (is_space c)) [ inl h ↦ rw h refl | inr h ↦ rw (h, h) refl ]
      go (d ∷ t) e = rw e refl

  lstrip-strip : (s : String) → lstrip (rstrip (lstrip s)) ≡ rstrip (lstrip s)
  unfolding lstrip rstrip cons_unless_blank
  lstrip-strip [] = refl
  lstrip-strip (c ∷ s) = elim (Bool-cases (is_space c)) [
    | inl h ↦ rw h (lstrip-strip s)
    | inr h ↦ rw h (go (rstrip s) h)
  ]
    where
      go :
          (r : String) → is_space c ≡ false → lstrip (cons_unless_blank c r) ≡ cons_unless_blank c r
      go [] h = rw (h, h) refl
      go (d ∷ t) h = rw h refl

  -- Stripping a stripped text changes nothing.
  pub strip_idem : (s : String) → strip (strip s) ≡ strip s
  unfolding strip
  strip_idem s = rw (lstrip-strip s, rstrip_idem (lstrip s)) refl
