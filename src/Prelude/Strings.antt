-- ===== src/Prelude/Strings.antt =====
-- Python's `str` as its list of code points, with the methods that the program calls.
use Prim.Native.Nat.{ℕ}
use Prim.Native.Char.{code}
use Prim.Native.String.{String}
use mathlib.Core.Path.{◌≡◌, refl}
use mathlib.Core.Logic.{◌↔◌}
use mathlib.Core.Bool.{Bool, true, false, ◌&&◌, ◌||◌}
use mathlib.Core.List.{List, [], ◌∷◌, ◌++◌, reverse}
use native.Mathlib.Omega.{arith}
use magent.Prelude.Tests.{ltb, leb, ◌==◌, if◌then◌else◌}

abbrev pub Text : Type 0
Text = List ℕ

abbrev pub codes : String → Text
codes String.[] = []
codes (String.◌∷◌ c s) = code c ∷ codes s

-- s == t
unfoldable pub same_text : Text → Text → Bool
same_text [] [] = true
same_text [] (b ∷ t) = false
same_text (a ∷ s) [] = false
same_text (a ∷ s) (b ∷ t) = a == b && same_text s t

pub same_text_iff : (s t : Text) → (same_text s t ≡ true) ↔ (s ≡ t)
unfolding same_text
same_text_iff [] [] = ground arith
same_text_iff [] (b ∷ t) = ground arith
same_text_iff (a ∷ s) [] = ground arith
same_text_iff (a ∷ s) (b ∷ t) = ground (arith, same_text_iff s t)

pub same_text_refl : (s : Text) → same_text s s ≡ true
same_text_refl s = (same_text_iff s s).1 refl

-- not s
abbrev pub is_empty : Text → Bool
is_empty [] = true
is_empty (c ∷ s) = false

-- `s.startswith(prefix)`, with the prefix first.
unfoldable pub starts_with : Text → Text → Bool
starts_with [] s = true
starts_with (p ∷ ps) [] = false
starts_with (p ∷ ps) (c ∷ s) = p == c && starts_with ps s

pub starts_with-append : (p s : Text) → starts_with p (p ++ s) ≡ true
unfolding starts_with
starts_with-append [] s = refl
starts_with-append (c ∷ p) s = ground (arith, starts_with-append p s)

-- The white space that `str.strip` removes.
unfoldable pub is_space : ℕ → Bool
is_space c =
    (leb 9 c && leb c 13)
    || (leb 28 c && leb c 32)
    || c == 133
    || c == 160
    || c == 5760
    || (leb 8192 c && leb c 8202)
    || c == 8232
    || c == 8233
    || c == 8239
    || c == 8287
    || c == 12288

unfoldable pub lstrip : (ℕ → Bool) → Text → Text
lstrip p [] = []
lstrip p (c ∷ s) = let rest = lstrip p s in if p c then rest else c ∷ s

-- `s.strip(chars)`, the characters given as a test.
unfoldable pub strip_of : (ℕ → Bool) → Text → Text
unfolding lstrip
strip_of p s = reverse (lstrip p (reverse (lstrip p s)))

-- s.strip()
unfoldable pub strip : Text → Text
unfolding strip_of is_space
strip s = strip_of is_space s

-- s.partition(sep)[2] for a one-character separator: what follows its first occurrence.
unfoldable pub after_sep : ℕ → Text → Text
after_sep sep [] = []
after_sep sep (c ∷ s) = let rest = after_sep sep s in if c == sep then s else rest

unfoldable pub before_sep : ℕ → Text → Text
before_sep sep [] = []
before_sep sep (c ∷ s) = let rest = before_sep sep s in if c == sep then [] else c ∷ rest

-- `c in s`
unfoldable pub has_char : ℕ → Text → Bool
has_char c [] = false
has_char c (d ∷ s) = d == c || has_char c s

-- `part in s`, with the part first.
unfoldable pub contains : Text → Text → Bool
unfolding starts_with
contains part [] = is_empty part
contains part (c ∷ s) = starts_with part (c ∷ s) || contains part s

-- `name in names`
unfoldable pub has_text : Text → List Text → Bool
has_text name [] = false
has_text name (n ∷ names) = same_text n name || has_text name names

abbrev pub IsDistinct : List Text → Type 0
IsDistinct [] = Unit
IsDistinct (c ∷ cs) = (has_text c cs ≡ false) × IsDistinct cs

-- names.discard(name)
unfoldable pub discard : Text → List Text → List Text
discard name [] = []
discard name (n ∷ names) =
    let rest = discard name names in if same_text n name then rest else n ∷ rest

-- s < t for texts, by code points.
unfoldable pub text_lt : Text → Text → Bool
text_lt s [] = false
text_lt [] (b ∷ t) = true
text_lt (a ∷ s) (b ∷ t) = ltb a b || (a == b && text_lt s t)

pub same_text-append : (p a b : Text) → same_text (p ++ a) (p ++ b) ≡ same_text a b
unfolding same_text
same_text-append [] a b = refl
same_text-append (c ∷ p) a b = ground (arith, same_text-append p a b)
