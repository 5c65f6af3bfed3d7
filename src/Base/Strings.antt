-- ===== src/Base/Strings.antt =====
-- Python's `str` as a list of code points, with the methods that the program calls.
use Prim.Native.Nat.{ℕ, ◌≤◌}
use Prim.Native.Char.{code}
use Prim.Native.String.{String}
use mathlib.Core.Path.{◌≡◌, refl, ap}
use mathlib.Core.Logic.{◌↔◌, inl, inr}
use mathlib.Core.Bool.{Bool, true, false, ◌&&◌, ◌||◌}
use mathlib.Core.List.{List, [], ◌∷◌, ◌++◌}
use native.Mathlib.Omega.{arith}
use swarmbus.Base.Tests.{ltb, ◌==◌, if◌then◌else◌, Bool-cases}
use swarmbus.Base.Lists.{length, drop, any}

abbrev pub Text : Type 0
Text = List ℕ

-- A text literal.
abbrev pub codes : String → Text
codes String.[] = []
codes (String.◌∷◌ c s) = code c ∷ codes s

unfoldable pub text_eq : Text → Text → Bool
text_eq [] [] = true
text_eq [] (_ ∷ _) = false
text_eq (_ ∷ _) [] = false
text_eq (c ∷ s) (d ∷ t) = (c == d) && text_eq s t

pub text_eq→≡ : (s t : Text) → text_eq s t ≡ true → s ≡ t
unfolding text_eq
text_eq→≡ [] [] h = refl
text_eq→≡ [] (_ ∷ _) h = cc
text_eq→≡ (_ ∷ _) [] h = cc
text_eq→≡ (c ∷ s) (d ∷ t) h = ground (arith, text_eq→≡ s t)

pub text_eq_refl : (s : Text) → text_eq s s ≡ true
unfolding text_eq
text_eq_refl [] = refl
text_eq_refl (c ∷ s) = ground (arith, text_eq_refl s)

pub text_eq_iff : (s t : Text) → (text_eq s t ≡ true) ↔ (s ≡ t)
text_eq_iff s t = (text_eq→≡ s t, λ e. rw e (text_eq_refl t))

-- `s.startswith(p)` and `s.endswith(p)`.
unfoldable pub starts_with : Text → Text → Bool
starts_with s [] = true
starts_with [] (d ∷ p) = false
starts_with (c ∷ s) (d ∷ p) = (c == d) && starts_with s p

pub starts_with-append : (p s : Text) → starts_with (p ++ s) p ≡ true
unfolding starts_with
starts_with-append [] s = refl
starts_with-append (d ∷ p) s = ground (arith, starts_with-append p s)

pub append-drop : (s p : Text) → starts_with s p ≡ true → s ≡ p ++ drop (length p) s
unfolding starts_with
append-drop s [] h = refl
append-drop [] (d ∷ p) h = cc
append-drop (c ∷ s) (d ∷ p) h = ground (arith, append-drop s p)

unfoldable pub ends_with : Text → Text → Bool
ends_with [] p = text_eq [] p
ends_with (c ∷ s) p = text_eq (c ∷ s) p || ends_with s p

pub ends_with-append : (s p : Text) → ends_with (s ++ p) p ≡ true
unfolding ends_with
ends_with-append [] [] = text_eq_refl []
ends_with-append [] (d ∷ p) = rw (text_eq_refl (d ∷ p))
ends_with-append (c ∷ s) p = ground (arith, ends_with-append s p)

pub ends_with→append : (s p : Text) → ends_with s p ≡ true → (t : Text) × (s ≡ t ++ p)
unfolding ends_with
ends_with→append [] p h = ([], text_eq→≡ [] p h)
ends_with→append (c ∷ s) p h = elim (Bool-cases (text_eq (c ∷ s) p)) [
  | inl e ↦ ([], text_eq→≡ (c ∷ s) p e)
  | inr e ↦ let (t, q) = ends_with→append s p (rw e at h) in (c ∷ t, ap (λ (u : Text). c ∷ u) q)
]

-- `p in s` for a one-character `p`.
abbrev pub has_code : ℕ → Text → Bool
has_code c = any (λ d. d == c)

-- `p in s`.
unfoldable pub has_text : Text → Text → Bool
unfolding starts_with
has_text p [] = starts_with [] p
has_text p (c ∷ s) = starts_with (c ∷ s) p || has_text p s

-- `s.strip(chars)`, with the characters as a test.
unfoldable pub strip_left : (ℕ → Bool) → Text → Text
strip_left p [] = []
strip_left p (c ∷ s) = if p c then strip_left p s else c ∷ s

abbrev cons_unless : (ℕ → Bool) → ℕ → Text → Text
cons_unless p c [] = if p c then [] else c ∷ []
cons_unless p c (d ∷ s) = c ∷ d ∷ s

unfoldable pub strip_right : (ℕ → Bool) → Text → Text
strip_right p [] = []
strip_right p (c ∷ s) = cons_unless p c (strip_right p s)

unfoldable pub strip : (ℕ → Bool) → Text → Text
unfolding strip_left strip_right
strip p s = strip_right p (strip_left p s)

-- The first and the last character of `s` do not satisfy `p`.
abbrev pub IsTrimmed : (ℕ → Bool) → Text → Type 0
IsTrimmed p s = (strip_left p s ≡ s) × (strip_right p s ≡ s)

strip_left_idem : (p : ℕ → Bool) (s : Text) → strip_left p (strip_left p s) ≡ strip_left p s
unfolding strip_left
strip_left_idem p [] = refl
strip_left_idem p (c ∷ s) = elim (Bool-cases (p c)) [
  | inl e ↦ rw e (strip_left_idem p s)
  | inr e ↦ rw (e, e) refl
]

cons_unless_idem :
    (p : ℕ → Bool) (c : ℕ) (s : Text)
    → strip_right p s ≡ s
    → strip_right p (cons_unless p c s) ≡ cons_unless p c s
unfolding strip_right
cons_unless_idem p c [] h = elim (Bool-cases (p c)) [ inl e ↦ rw e refl | inr e ↦ rw (e, e) refl ]
cons_unless_idem p c (d ∷ s) h = ap (cons_unless p c) h

strip_right_idem : (p : ℕ → Bool) (s : Text) → strip_right p (strip_right p s) ≡ strip_right p s
unfolding strip_right
strip_right_idem p [] = refl
strip_right_idem p (c ∷ s) = cons_unless_idem p c (strip_right p s) (strip_right_idem p s)

strip_left-cons_unless :
    (p : ℕ → Bool) (c : ℕ) (s : Text)
    → p c ≡ false
    → strip_left p (cons_unless p c s) ≡ cons_unless p c s
unfolding strip_left
strip_left-cons_unless p c [] e = rw (e, e) refl
strip_left-cons_unless p c (d ∷ s) e = rw e refl

length-strip_left : (p : ℕ → Bool) (s : Text) → length (strip_left p s) ≤ length s
unfolding strip_left
length-strip_left p [] = omega arith
length-strip_left p (c ∷ s) = ground (arith, length-strip_left p s)

strip_left-strip_right :
    (p : ℕ → Bool) (s : Text)
    → strip_left p s ≡ s
    → strip_left p (strip_right p s) ≡ strip_right p s
unfolding strip_left strip_right
strip_left-strip_right p [] h = h
strip_left-strip_right p (c ∷ s) h = elim (Bool-cases (p c)) [
  | inl e ↦ absurd (omega (arith, length-strip_left p s, ap length (longer e)))
  | inr e ↦ strip_left-cons_unless p c (strip_right p s) e
]
  where
    longer : p c ≡ true → strip_left p s ≡ c ∷ s
    longer e = ground arith

pub strip-IsTrimmed : (p : ℕ → Bool) (s : Text) → IsTrimmed p (strip p s)
unfolding strip
strip-IsTrimmed p s = (
  strip_left-strip_right p (strip_left p s) (strip_left_idem p s),
  strip_right_idem p (strip_left p s),
)

-- The order of texts by code points.
unfoldable pub text_le : Text → Text → Bool
text_le [] t = true
text_le (a ∷ s) [] = false
text_le (a ∷ s) (b ∷ t) = ltb a b || (a == b && text_le s t)
