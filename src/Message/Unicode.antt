-- ===== src/Message/Unicode.antt =====
-- `unicodedata.category`, as far as src/swarmbus/message.py asks: the categories Cc, Cf, Zl, Zp and
-- Cs of the Unicode character database (version 15), by ranges of code points.
use swarmbus.Base.{
  ℕ, zero, suc, ◌+◌, ◌-◌, ◌≤◌, ◌<◌, ◌≡◌, refl, ap, Bool, true, false, ◌&&◌, ◌||◌, not, List, [],
  ◌∷◌, arith, leb, ltb, if◌then◌else◌, any,
}

pub data Category : Type 0 where
  control format surrogate line_separator paragraph_separator other : Category

abbrev in_ranges : ℕ → List (ℕ × ℕ) → Bool
in_ranges c = any (λ (lo, hi). leb lo c && leb c hi)

abbrev format_ranges : List (ℕ × ℕ)
format_ranges =
    (0xad, 0xad)
    ∷ (0x600, 0x605)
    ∷ (0x61c, 0x61c)
    ∷ (0x6dd, 0x6dd)
    ∷ (0x70f, 0x70f)
    ∷ (0x890, 0x891)
    ∷ (0x8e2, 0x8e2)
    ∷ (0x180e, 0x180e)
    ∷ (0x200b, 0x200f)
    ∷ (0x202a, 0x202e)
    ∷ (0x2060, 0x2064)
    ∷ (0x2066, 0x206f)
    ∷ (0xfeff, 0xfeff)
    ∷ (0xfff9, 0xfffb)
    ∷ (0x110bd, 0x110bd)
    ∷ (0x110cd, 0x110cd)
    ∷ (0x13430, 0x1343f)
    ∷ (0x1bca0, 0x1bca3)
    ∷ (0x1d173, 0x1d17a)
    ∷ (0xe0001, 0xe0001)
    ∷ (0xe0020, 0xe007f)
    ∷ []

unfoldable pub category : ℕ → Category
category c =
    if ltb c 0x20 || leb 0x7f c && leb c 0x9f
    then control
    else if leb 0xd800 c && leb c 0xdfff
    then surrogate
    else if leb 0x2028 c && leb c 0x2028
    then line_separator
    else if leb 0x2029 c && leb c 0x2029
    then paragraph_separator
    else if in_ranges c format_ranges
    then format
    else other

-- `category(ch) in ("Cc", "Cf", "Zl", "Zp")`
abbrev pub hidden_category : Category → Bool
hidden_category control = true
hidden_category format = true
hidden_category surrogate = false
hidden_category line_separator = true
hidden_category paragraph_separator = true
hidden_category other = false

unfoldable pub is_hidden : ℕ → Bool
unfolding category
is_hidden c = hidden_category (category c)

-- `category(ch) in ("Cc", "Cs")`
abbrev pub unsafe_category : Category → Bool
unsafe_category control = true
unsafe_category surrogate = true
unsafe_category _ = false

unfoldable pub is_unsafe : ℕ → Bool
unfolding category
is_unsafe c = unsafe_category (category c)

-- `str.isspace` of one character.
abbrev space_ranges : List (ℕ × ℕ)
space_ranges =
    (9, 13)
    ∷ (28, 32)
    ∷ (0x85, 0x85)
    ∷ (0xa0, 0xa0)
    ∷ (0x1680, 0x1680)
    ∷ (0x2000, 0x200a)
    ∷ (0x2028, 0x2029)
    ∷ (0x202f, 0x202f)
    ∷ (0x205f, 0x205f)
    ∷ (0x3000, 0x3000)
    ∷ []

unfoldable pub is_space : ℕ → Bool
is_space c = in_ranges c space_ranges

-- A test on each of the numbers under a bound, by evaluation.
passes_under : (ℕ → Bool) → ℕ → Bool
passes_under test zero = true
passes_under test (suc last) = passes_under test last && test last

passes_under-lt :
    (test : ℕ → Bool) (bound i : ℕ) → i < bound → passes_under test bound ≡ true → test i ≡ true
unfolding passes_under
passes_under-lt test zero i small passed = absurd (omega arith)
passes_under-lt test (suc last) i small passed = ground (arith, passes_under-lt test last i)

ascii_table : passes_under (λ k. not (is_hidden (k + 32))) 95 ≡ true
unfolding passes_under is_hidden
ascii_table = refl

pub is_hidden-ascii : (c : ℕ) → 32 ≤ c → c < 127 → is_hidden c ≡ false
is_hidden-ascii c lo hi =
    let e : c - 32 + 32 ≡ c = omega arith in
    let h : not (is_hidden (c - 32 + 32)) ≡ true =
      passes_under-lt (λ k. not (is_hidden (k + 32))) 95 (c - 32) (omega arith) ascii_table in
    ground (arith, ap is_hidden e)
