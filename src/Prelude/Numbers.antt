-- ===== src/Prelude/Numbers.antt =====
-- Signed integers, and `int(text)` over ASCII text (the interpreter also takes the decimal digits of
-- other scripts, which no setting of the program uses).
use Prim.Native.Nat.{ℕ, zero, suc, ◌+◌, ◌-◌, ◌*◌}
use mathlib.Core.Path.{◌≡◌, refl}
use mathlib.Core.Bool.{Bool, true, false, ◌&&◌}
use mathlib.Core.List.{[], ◌∷◌}
use mathlib.Core.Option.{Option, none, some}
use magent.Prelude.Tests.{leb, ◌==◌, if◌then◌else◌}
use magent.Prelude.Strings.{Text, codes, strip}

-- `negsuc n` is -(n + 1).
pub data ℤ : Type 0 where
  pos : ℕ → ℤ
  negsuc : ℕ → ℤ

-- The digits after a first digit: `_` may stand between two digits.
unfoldable pub int_digits : ℕ → Bool → Text → Option ℕ
int_digits n after_digit [] = if after_digit then some n else none
int_digits n after_digit (c ∷ s) =
    let one_more = int_digits (n * 10 + (c - 48)) true s in
    let skip = int_digits n false s in
    if leb 48 c && leb c 57 then one_more else if c == b'_' && after_digit then skip else none

unfoldable pub negate : ℕ → ℤ
negate zero = pos 0
negate (suc n) = negsuc n

unfoldable pub signed : Text → Option ℤ
unfolding int_digits negate
signed [] = none
signed (c ∷ s) =
    if c == b'-'
    then elim (int_digits 0 false s) [ none ↦ none | some n ↦ some (negate n) ]
    else if c == b'+'
    then elim (int_digits 0 false s) [ none ↦ none | some n ↦ some (pos n) ]
    else elim (int_digits 0 false (c ∷ s)) [ none ↦ none | some n ↦ some (pos n) ]

-- `int(text)`; `none` is the `ValueError`.
unfoldable pub py_int : Text → Option ℤ
unfolding signed strip
py_int s = signed (strip s)

py_int_test : py_int (codes " -1_000 ") ≡ some (negsuc 999)
unfolding py_int
py_int_test = refl

py_int_bad : py_int (codes "1__0") ≡ none
unfolding py_int
py_int_bad = refl
