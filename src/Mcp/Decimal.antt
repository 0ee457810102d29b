-- ===== src/Mcp/Decimal.antt =====
-- `int` of a printed decimal.
use magent.Prelude.{
  ℕ, zero, suc, ◌+◌, ◌-◌, ◌*◌, ◌/◌, ◌%◌, ◌<◌, ◌≡◌, refl, ◌∙◌, Bool, true, false, ◌&&◌, sym, ap,
  subst, append_assoc, append-nil, some, [], ◌∷◌, ◌++◌, reverse, arith, leb, ltb, ◌==◌, Text,
  is_space, lstrip, strip_of, strip, pos, int_digits, signed, py_int,
}
use mathlib.Core.List.{reverse-append, reverse-reverse}
use native.Mathlib.Decide.{dec_lt}
use magent.Json.{decimal_fuel, decimal}

-- A text of one digit at least: it starts and ends with one.
pub record Digits (s : Text) : Type 0 where
  pub first : ℕ
  pub rest : Text
  pub starts : s ≡ first ∷ rest
  pub first_digit : (leb 48 first && leb first 57) ≡ true
  pub front : Text
  pub last : ℕ
  pub ends : s ≡ front ++ last ∷ []
  pub last_digit : (leb 48 last && leb last 57) ≡ true

decimal_fuel_value :
    (f n : ℕ) (out : Text)
    → n < f
    → int_digits 0 false (decimal_fuel f n out) ≡ int_digits n true out
unfolding int_digits decimal_fuel
decimal_fuel_value zero n out h = let bad : ⊥ = omega (arith, h) in absurd bad
decimal_fuel_value (suc f) n out h =
    let d : ℕ = 48 + n % 10 in
    elim (dec_lt n 10) [
      | yes small ↦
          let less : ltb n 10 ≡ true = ground (arith, small) in
          let digit : (leb 48 d && leb d 57) ≡ true = ground arith in
          let value : 0 * 10 + (d - 48) ≡ n = omega (arith, small) in rw (less, digit, value) refl
      | no big ↦
          let more : ltb n 10 ≡ false = ground (arith, big) in
          let digit : (leb 48 d && leb d 57) ≡ true = ground arith in
          let value : n / 10 * 10 + (d - 48) ≡ n = omega arith in
          rw more (
            decimal_fuel_value f (n / 10) (d ∷ out) (omega (arith, h, big))
            ∙ rw (digit, value) refl)
    ]

-- The digits in front of `out`.
decimal_fuel-Digits :
    (f n : ℕ) (out : Text)
    → n < f
    → (digits : Text) × Digits digits × (decimal_fuel f n out ≡ digits ++ out)
unfolding decimal_fuel
decimal_fuel-Digits zero n out h = let bad : ⊥ = omega (arith, h) in absurd bad
decimal_fuel-Digits (suc f) n out h =
    let d : ℕ = 48 + n % 10 in
    let digit : (leb 48 d && leb d 57) ≡ true = ground arith in
    elim (dec_lt n 10) [
      | yes small ↦
          let less : ltb n 10 ≡ true = ground (arith, small) in
          (
            d ∷ [],
            record {
              first = d;
              rest = [];
              starts = refl;
              first_digit = digit;
              front = [];
              last = d;
              ends = refl;
              last_digit = digit;
            },
            rw less refl,
          )
      | no big ↦
          let more : ltb n 10 ≡ false = ground (arith, big) in
          let (digits, h', e) = decimal_fuel-Digits f (n / 10) (d ∷ out) (omega (arith, h, big)) in
          (
            digits ++ d ∷ [],
            record {
              first = h'.first;
              rest = h'.rest ++ d ∷ [];
              starts = ap (λ s. s ++ d ∷ []) h'.starts;
              first_digit = h'.first_digit;
              front = digits;
              last = d;
              ends = refl;
              last_digit = digit;
            },
            rw more (e ∙ sym (append_assoc digits (d ∷ []) out)),
          )
    ]

pub decimal-Digits : (n : ℕ) → Digits (decimal n)
unfolding decimal
decimal-Digits n =
    let (digits, h, e) = decimal_fuel-Digits (suc n) n [] (omega arith) in
    subst Digits (sym (e ∙ append-nil digits)) h

pub digit_no_space : (c : ℕ) → (leb 48 c && leb c 57) ≡ true → is_space c ≡ false
unfolding is_space
digit_no_space c h = ground (arith, h)

pub lstrip_here : (p : ℕ → Bool) (c : ℕ) (s : Text) → p c ≡ false → lstrip p (c ∷ s) ≡ c ∷ s
unfolding lstrip
lstrip_here p c s h = rw h refl

-- White space behind a text that starts and ends with other characters is all that is removed.
pub strip_of_after :
    (p : ℕ → Bool) (s : Text) (first : ℕ) (rest front : Text) (last : ℕ) (after : Text)
    → s ≡ first ∷ rest
    → s ≡ front ++ last ∷ []
    → p first ≡ false
    → lstrip p (reverse after ++ last ∷ reverse front) ≡ last ∷ reverse front
    → strip_of p (s ++ after) ≡ s
unfolding strip_of
strip_of_after p s first rest front last after e e' f h =
    let whole : reverse s ≡ last ∷ reverse front =
      ap reverse e' ∙ reverse-append front (last ∷ []) in
    let kept : lstrip p (s ++ after) ≡ s ++ after = rw e (lstrip_here p first (rest ++ after) f) in
    rw (kept, reverse-append s after, whole, h) (ap reverse (sym whole) ∙ reverse-reverse s)

-- A text of digits is no space at its ends.
pub strip-Digits : (s : Text) → Digits s → strip s ≡ s
unfolding strip
strip-Digits s h =
    sym (ap (strip_of is_space) (append-nil s))
    ∙ strip_of_after is_space s h.first h.rest h.front h.last [] h.starts h.ends
        (digit_no_space h.first h.first_digit)
        (lstrip_here is_space h.last (reverse h.front) (digit_no_space h.last h.last_digit))

signed_digits :
    (c : ℕ) (rest : Text) (n : ℕ)
    → (leb 48 c && leb c 57) ≡ true
    → int_digits 0 false (c ∷ rest) ≡ some n
    → signed (c ∷ rest) ≡ some (pos n)
unfolding signed
signed_digits c rest n digit value =
    let no_minus : (c == 45) ≡ false = ground (arith, digit) in
    let no_plus : (c == 43) ≡ false = ground (arith, digit) in
    rw value (rw no_minus (rw no_plus refl))

decimal-value : (n : ℕ) → int_digits 0 false (decimal n) ≡ some n
unfolding decimal int_digits
decimal-value n = decimal_fuel_value (suc n) n [] (omega arith)

pub py_int-decimal : (n : ℕ) → py_int (decimal n) ≡ some (pos n)
unfolding py_int
py_int-decimal n =
    let h : Digits (decimal n) = decimal-Digits n in
    ap signed (strip-Digits (decimal n) h)
    ∙ ap signed h.starts
    ∙ signed_digits h.first h.rest n h.first_digit
        (ap (int_digits 0 false) (sym h.starts) ∙ decimal-value n)
