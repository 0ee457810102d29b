-- ===== src/Runner/Recent.antt =====
-- The sessions that `_get_session` keeps, against the history of its calls.
use magent.Prelude.{
  ℕ, zero, suc, ◌≡◌, refl, sym, ◌∙◌, Bool, true, false, List, [], ◌∷◌, ◌++◌, reverse, length, take,
  arith, append-nil, Text, same_text, same_text_iff, has_text, discard, IsDistinct, if◌then◌else◌,
}
use mathlib.Core.List.{reverse-append}
use magent.Runner.Sessions.{remove_first}

pub has_text-append :
    (c : Text) (xs ys : List Text)
    → has_text c (xs ++ ys) ≡ (if has_text c xs then true else has_text c ys)
unfolding has_text
has_text-append c [] ys = refl
has_text-append c (x ∷ xs) ys = ground (arith, has_text-append c xs ys)

pub has_text-discard :
    (c d : Text) (xs : List Text)
    → has_text d (discard c xs) ≡ (if same_text c d then false else has_text d xs)
unfolding has_text discard
has_text-discard c d [] = ground arith
has_text-discard c d (x ∷ xs) =
    ground (arith, has_text-discard c d xs, same_text_iff x d, same_text_iff x c, same_text_iff c d)

pub discard_absent : (c : Text) (xs : List Text) → has_text c xs ≡ false → discard c xs ≡ xs
unfolding has_text discard
discard_absent c [] h = refl
discard_absent c (x ∷ xs) h = ground (arith, discard_absent c xs)

pub discard-append :
    (c : Text) (xs ys : List Text) → discard c (xs ++ ys) ≡ discard c xs ++ discard c ys
unfolding discard
discard-append c [] ys = refl
discard-append c (x ∷ xs) ys = ground (arith, discard-append c xs ys)

if-IsDistinct :
    (b : Bool) (x : Text) (ys : List Text)
    → IsDistinct ys
    → (has_text x ys ≡ false)
    → IsDistinct (if b then ys else x ∷ ys)
if-IsDistinct true x ys h a = h
if-IsDistinct false x ys h a = (a, h)

pub has_text-take :
    (c : Text) (n : ℕ) (xs : List Text) → has_text c xs ≡ false → has_text c (take n xs) ≡ false
unfolding has_text
has_text-take c zero xs h = refl
has_text-take c (suc n) [] h = refl
has_text-take c (suc n) (x ∷ xs) h = ground (arith, has_text-take c n xs)

pub discard-IsDistinct : (c : Text) (xs : List Text) → IsDistinct xs → IsDistinct (discard c xs)
unfolding discard
discard-IsDistinct c [] h = tt
discard-IsDistinct c (x ∷ xs) h =
    if-IsDistinct (same_text x c) x (discard c xs) (discard-IsDistinct c xs h.1)
      (ground (arith, has_text-discard c x xs, h.0))

pub remove_first_distinct :
    (c : Text) (xs : List Text) → IsDistinct xs → remove_first c xs ≡ discard c xs
unfolding has_text discard remove_first
remove_first_distinct c [] h = refl
remove_first_distinct c (x ∷ xs) h =
    ground (arith, remove_first_distinct c xs h.1, same_text_iff x c, discard_absent x xs h.0)

pub take-discard :
    (c : Text) (n : ℕ) (xs : List Text)
    → has_text c (take n xs) ≡ false
    → take n (discard c xs) ≡ take n xs
unfolding has_text discard
take-discard c zero xs h = refl
take-discard c (suc n) [] h = refl
take-discard c (suc n) (x ∷ xs) h = ground (arith, take-discard c n xs)

pub discard-take :
    (c : Text) (n : ℕ) (xs : List Text)
    → IsDistinct xs
    → has_text c (take (suc n) xs) ≡ true
    → discard c (take (suc n) xs) ≡ take n (discard c xs)
unfolding has_text discard
discard-take c n [] d h = ground arith
discard-take c zero (x ∷ xs) d h = ground arith
discard-take c (suc n) (x ∷ xs) d h = ground (
  arith,
  discard-take c n xs d.1,
  same_text_iff x c,
  discard_absent x (take (suc n) xs),
  discard_absent x xs d.0,
  has_text-take x (suc n) xs d.0,
)

if-reverse :
    (b : Bool) (x : Text) (ys : List Text)
    → reverse ys ++ (if b then [] else x ∷ []) ≡ reverse (if b then ys else x ∷ ys)
if-reverse true x ys = append-nil (reverse ys)
if-reverse false x ys = sym (reverse-append (x ∷ []) ys)

pub discard-reverse : (c : Text) (xs : List Text) → discard c (reverse xs) ≡ reverse (discard c xs)
unfolding discard
discard-reverse c [] = refl
discard-reverse c (x ∷ xs) =
    rw (reverse-append (x ∷ []) xs, discard-append c (reverse xs) (x ∷ []), discard-reverse c xs)
      (if-reverse (same_text x c) x (discard c xs))

pub append-IsDistinct :
    (c : Text) (xs : List Text) → IsDistinct xs → has_text c xs ≡ false → IsDistinct (xs ++ c ∷ [])
unfolding has_text
append-IsDistinct c [] h a = (refl, tt)
append-IsDistinct c (x ∷ xs) h a = (
  ground (arith, has_text-append x xs (c ∷ []), h.0, same_text_iff x c, same_text_iff c x),
  append-IsDistinct c xs h.1 (ground arith),
)

pub has_text-reverse : (c : Text) (xs : List Text) → has_text c (reverse xs) ≡ has_text c xs
unfolding has_text
has_text-reverse c [] = refl
has_text-reverse c (x ∷ xs) =
    rw (reverse-append (x ∷ []) xs, has_text-append c (reverse xs) (x ∷ []), has_text-reverse c xs)
      (ground arith)

pub reverse-IsDistinct : (xs : List Text) → IsDistinct xs → IsDistinct (reverse xs)
reverse-IsDistinct [] h = tt
reverse-IsDistinct (x ∷ xs) h =
    rw (reverse-append (x ∷ []) xs)
      (append-IsDistinct x (reverse xs) (reverse-IsDistinct xs h.1) (has_text-reverse x xs ∙ h.0))

pub take-IsDistinct : (n : ℕ) (xs : List Text) → IsDistinct xs → IsDistinct (take n xs)
take-IsDistinct zero xs h = tt
take-IsDistinct (suc n) [] h = tt
take-IsDistinct (suc n) (x ∷ xs) h = (has_text-take x n xs h.0, take-IsDistinct n xs h.1)

pub length-remove_first :
    (c : Text) (xs : List Text)
    → has_text c xs ≡ true
    → suc (length (remove_first c xs)) ≡ length xs
unfolding has_text remove_first
length-remove_first c [] h = ground arith
length-remove_first c (x ∷ xs) h = ground (arith, length-remove_first c xs)
