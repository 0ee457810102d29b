-- ===== src/Mcp/RoundTrip.antt =====
-- A frame that was written and is read again.
use magent.Prelude.{
  ℕ, zero, suc, ◌+◌, ◌/◌, ◌%◌, ◌≡◌, refl, sym, ap, ◌∙◌, append_assoc, Bool, true, not, ◌&&◌, some,
  List, [], ◌∷◌, ◌++◌, map, reverse, length, take, drop, all, arith, leb, ltb, ◌==◌, if◌then◌else◌,
  Text, codes, starts_with, strip_of, strip, lstrip, is_space, after_sep, pos,
}
use magent.Prelude.Exec.{return}
use magent.Json.{obj, Fields, dumps, decimal_fuel, decimal}
use magent.Mcp.Frame.{
  Codec, read_line, read_blank, read_header, read_after_line, read_frame, write_frame, after_colon,
}
use magent.Mcp.Decimal.{
  Digits, decimal-Digits, strip_of_after, lstrip_here, strip-Digits, digit_no_space, py_int-decimal,
}

abbrev pub lower_char : ℕ → ℕ
lower_char c = if leb 65 c && leb c 90 then c + 32 else c

-- What `bytes.decode` and `str.lower` do to ASCII.
pub record IsAscii (codec : Codec) : Type 0 where
  pub decodes : (s : Text) → all (λ c. ltb c 128) s ≡ true → codec.decode s ≡ some s
  pub lowers : (s : Text) → all (λ c. ltb c 128) s ≡ true → codec.lower s ≡ map lower_char s

-- A payload that `json.loads` reads back from its bytes.
pub record IsReadable (codec : Codec) (payload : Fields) : Type 0 where
  pub decoded : codec.decode (dumps payload) ≡ some (dumps payload)
  pub loaded : codec.json_loads (dumps payload) ≡ some (obj payload)

abbrev is_digit : ℕ → Bool
is_digit c = leb 48 c && leb c 57

all-append : (p : ℕ → Bool) (s t : Text) → all p (s ++ t) ≡ (all p s && all p t)
all-append p [] t = refl
all-append p (c ∷ s) t = ground (arith, all-append p s t)

all-weaken :
    (p q : ℕ → Bool) (s : Text)
    → ((c : ℕ) → p c ≡ true → q c ≡ true)
    → all p s ≡ true
    → all q s ≡ true
all-weaken p q [] h a = refl
all-weaken p q (c ∷ s) h a = ground (arith, a, h c, all-weaken p q s h)

decimal_fuel-digits :
    (f n : ℕ) (out : Text) → all is_digit out ≡ true → all is_digit (decimal_fuel f n out) ≡ true
unfolding decimal_fuel
decimal_fuel-digits zero n out h = h
decimal_fuel-digits (suc f) n out h =
    let d : ℕ = 48 + n % 10 in
    let digit : (leb 48 d && leb d 57) ≡ true = ground arith in
    let more : all is_digit (d ∷ out) ≡ true = rw (digit, h) refl in
    ground (arith, more, decimal_fuel-digits f (n / 10) (d ∷ out) more)

decimal-digits : (n : ℕ) → all is_digit (decimal n) ≡ true
unfolding decimal
decimal-digits n = decimal_fuel-digits (suc n) n [] refl

read_line_until :
    (s t : Text) → all (λ c. not (c == 10)) s ≡ true → read_line (s ++ 10 ∷ t) ≡ (s ++ 10 ∷ [], t)
unfolding read_line
read_line_until [] t h = refl
read_line_until (c ∷ s) t h = ground (arith, h, read_line_until s t)

take_exact : (s t : Text) → take (length s) (s ++ t) ≡ s
take_exact [] t = refl
take_exact (c ∷ s) t = ap (λ r. c ∷ r) (take_exact s t)

drop_exact : (s t : Text) → drop (length s) (s ++ t) ≡ t
drop_exact [] t = refl
drop_exact (c ∷ s) t = drop_exact s t

abbrev header_name : Text
header_name = codes "Content-Length: "

header-ascii : (n : ℕ) → all (λ c. ltb c 128) (header_name ++ decimal n) ≡ true
header-ascii n =
    all-append (λ c. ltb c 128) header_name (decimal n)
    ∙ all-weaken is_digit (λ c. ltb c 128) (decimal n) (λ c h. ground (arith, h)) (decimal-digits n)

line-ascii : (n : ℕ) → all (λ c. ltb c 128) (header_name ++ decimal n ++ 13 ∷ 10 ∷ []) ≡ true
line-ascii n =
    all-append (λ c. ltb c 128) (header_name ++ decimal n) (13 ∷ 10 ∷ []) ∙ rw (header-ascii n) refl

line-no_newline : (n : ℕ) → all (λ c. not (c == 10)) (header_name ++ decimal n ++ 13 ∷ []) ≡ true
line-no_newline n =
    let digits : all (λ c. not (c == 10)) (decimal n) ≡ true =
      all-weaken is_digit (λ c. not (c == 10)) (decimal n) (λ c h. ground (arith, h))
        (decimal-digits n) in
    all-append (λ c. not (c == 10)) (header_name ++ decimal n) (13 ∷ [])
    ∙ rw (all-append (λ c. not (c == 10)) header_name (decimal n), digits) refl

line-strip : (n : ℕ) → strip (header_name ++ decimal n ++ 13 ∷ 10 ∷ []) ≡ header_name ++ decimal n
unfolding strip
line-strip n =
    let h : Digits (decimal n) = decimal-Digits n in
    strip_of_after is_space (header_name ++ decimal n) 67 (codes "ontent-Length: " ++ decimal n)
      (header_name ++ h.front) h.last (13 ∷ 10 ∷ []) refl (ap (λ s. header_name ++ s) h.ends) refl
      (lstrip_here is_space h.last (reverse (header_name ++ h.front))
        (digit_no_space h.last h.last_digit))

value-strip : (n : ℕ) → strip (after_colon (header_name ++ decimal n)) ≡ decimal n
unfolding strip strip_of lstrip after_sep
value-strip n = strip-Digits (decimal n) (decimal-Digits n)

-- The frame with what follows it: a line, and behind it an empty line and the body.
frame_parts :
    (payload : Fields) (rest : List ℕ)
    → write_frame payload ++ rest
      ≡ (header_name ++ decimal (length (dumps payload)) ++ 13 ∷ [])
        ++ 10 ∷ 13 ∷ 10 ∷ (dumps payload ++ rest)
unfolding write_frame
frame_parts payload rest =
    let digits : Text = decimal (length (dumps payload)) in
    let tail : List ℕ = 13 ∷ 10 ∷ (dumps payload ++ rest) in
    ap (λ s. header_name ++ s)
      (append_assoc digits (13 ∷ 10 ∷ 13 ∷ 10 ∷ dumps payload) rest
        ∙ sym (append_assoc digits (13 ∷ []) (10 ∷ tail)))

module _ (codec : Codec) (ascii : IsAscii codec) where
  read_header_lem :
      (n : ℕ) (input : List ℕ)
      → read_header codec (some (header_name ++ decimal n ++ 13 ∷ 10 ∷ [])) input
        ≡ read_blank codec (pos n) input
  unfolding starts_with
  read_header_lem n input =
      rw
        (
          line-strip n,
          ascii.lowers (header_name ++ decimal n) (header-ascii n),
          value-strip n,
          py_int-decimal n,
        )
        refl

  read_blank_lem :
      (payload : Fields) (rest : List ℕ)
      → IsReadable codec payload
      → read_blank codec (pos (length (dumps payload))) (13 ∷ 10 ∷ (dumps payload ++ rest))
        ≡ (return (obj payload), rest)
  unfolding read_line
  read_blank_lem payload rest readable =
      let body : Text = dumps payload in
      let sized : (length body == length body) ≡ true = ground arith in
      rw (take_exact body rest, drop_exact body rest, sized, readable.decoded, readable.loaded) refl

  -- A frame that is written for a payload that json takes round is read back as that payload,
  -- whatever bytes follow it, and these are left to be read; decoding and lowering treat ASCII as
  -- Python does.
  pub read_frame-write_frame :
      (payload : Fields) (rest : List ℕ)
      → IsReadable codec payload
      → read_frame codec (write_frame payload ++ rest) ≡ (return (obj payload), rest)
  unfolding read_frame
  read_frame-write_frame payload rest readable =
      let n : ℕ = length (dumps payload) in
      let line : Text = header_name ++ decimal n ++ 13 ∷ [] in
      let tail : List ℕ = 13 ∷ 10 ∷ (dumps payload ++ rest) in
      let whole : line ++ 10 ∷ [] ≡ header_name ++ decimal n ++ 13 ∷ 10 ∷ [] =
        append_assoc (header_name ++ decimal n) (13 ∷ []) (10 ∷ []) in
      let full : Text = header_name ++ decimal n ++ 13 ∷ 10 ∷ [] in
      let read : read_line (write_frame payload ++ rest) ≡ (full, tail) =
        ap read_line (frame_parts payload rest)
        ∙ read_line_until line tail (line-no_newline n)
        ∙ ap (λ l. (l, tail)) whole in
      ap (read_after_line codec) read
      ∙ ap (λ decoded. read_header codec decoded tail) (ascii.decodes full (line-ascii n))
      ∙ read_header_lem n tail
      ∙ read_blank_lem payload rest readable
