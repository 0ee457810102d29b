-- ===== src/Team/Glob.antt =====
-- `_normalize_path` and `_glob_match` of magent2/team/registry.py, with Python's `fnmatch` on a
-- POSIX system: a pattern is read as tokens, and the tokens are matched against the whole path.
use magent.Prelude.{
  ℕ, zero, suc, ◌≡◌, refl, Bool, true, false, ◌&&◌, ◌||◌, not, Option, none, some, List, [], ◌∷◌,
  ◌++◌, map, reverse, ◌==◌, leb, if◌then◌else◌, Text, codes, starts_with, strip, has_char, any,
  length, drop,
}

pub data Token : Type 0 where
  star : Token
  any_char : Token
  lit : ℕ → Token
  set : (negated : Bool) → Text → Token

unfoldable pub with_first : ℕ → Option (Text × Text) → Option (Text × Text)
with_first c none = none
with_first c (some (a, b)) = some (c ∷ a, b)

-- The characters of a set before its `]`, and what follows it.
unfoldable pub split_at_close : Text → Option (Text × Text)
unfolding with_first
split_at_close [] = none
split_at_close (c ∷ s) =
    let rest = with_first c (split_at_close s) in if c == b']' then some ([], s) else rest

-- A `]` that stands first, behind the `!` of a negation, belongs to the set.
unfoldable pub split_set : Text → Option (Text × Text)
unfolding split_at_close
split_set [] = none
split_set (c ∷ s) =
    let rest = with_first c (split_at_close s) in if c == b']' then rest else split_at_close (c ∷ s)

unfoldable pub read_set : Text → Option (Token × Text)
unfolding split_set
read_set [] = none
read_set (c ∷ s) =
    if c == b'!'
    then elim (split_set s) [ none ↦ none | some (a, b) ↦ some (set true a, b) ]
    else elim (split_set (c ∷ s)) [ none ↦ none | some (a, b) ↦ some (set false a, b) ]

-- A `[` that no `]` closes stands for itself.
unfoldable pub tokens_fuel : ℕ → Text → List Token
unfolding read_set
tokens_fuel zero pattern = []
tokens_fuel (suc f) [] = []
tokens_fuel (suc f) (c ∷ s) =
    if c == b'*'
    then (let rest = tokens_fuel f s in star ∷ rest)
    else if c == b'?'
    then (let rest = tokens_fuel f s in any_char ∷ rest)
    else if c == b'['
    then elim (read_set s) [ none ↦ lit c ∷ tokens_fuel f s | some (t, s') ↦ t ∷ tokens_fuel f s' ]
    else (let rest = tokens_fuel f s in lit c ∷ rest)

unfoldable pub in_set : ℕ → Text → Bool
in_set c [] = false
in_set c (a ∷ []) = a == c
in_set c (a ∷ b ∷ []) = a == c || b == c
in_set c (a ∷ b ∷ d ∷ s) =
    let range = (leb a c && leb c d) || in_set c s in
    let single = a == c || in_set c (b ∷ d ∷ s) in if b == b'-' then range else single

-- Some suffix of the text passes.
unfoldable pub some_suffix : (Text → Bool) → Text → Bool
some_suffix f [] = f []
some_suffix f (c ∷ s) = f (c ∷ s) || some_suffix f s

unfoldable pub match_tokens : List Token → Text → Bool
unfolding some_suffix in_set
match_tokens [] [] = true
match_tokens [] (c ∷ s) = false
match_tokens (star ∷ ts) s = some_suffix (match_tokens ts) s
match_tokens (any_char ∷ ts) [] = false
match_tokens (any_char ∷ ts) (c ∷ s) = match_tokens ts s
match_tokens (lit d ∷ ts) [] = false
match_tokens (lit d ∷ ts) (c ∷ s) = c == d && match_tokens ts s
match_tokens (set negated chars ∷ ts) [] = false
match_tokens (set true chars ∷ ts) (c ∷ s) = not (in_set c chars) && match_tokens ts s
match_tokens (set false chars ∷ ts) (c ∷ s) = in_set c chars && match_tokens ts s

-- fnmatch.fnmatch(path, pattern)
unfoldable pub fnmatch : Text → Text → Bool
unfolding tokens_fuel match_tokens
fnmatch path pattern = match_tokens (tokens_fuel (length pattern) pattern) path

abbrev pub forward_slash : ℕ → ℕ
forward_slash c = if c == 92 then b'/' else c

unfoldable pub normalize_path : Text → Text
unfolding strip starts_with
normalize_path p =
    let s = strip (map forward_slash p) in if starts_with (codes "./") s then drop 2 s else s

unfoldable pub is_plain : Text → Bool
unfolding has_char
is_plain pat = not (has_char b'*' pat || (has_char b'?' pat || has_char b'[' pat))

unfoldable pub ends_with_slash : Text → Bool
ends_with_slash s = elim (reverse s) [ [] ↦ false | c ∷ _ ↦ c == b'/' ]

-- A plain pattern also names everything below a directory.
unfoldable pub candidates : Text → List Text
unfolding is_plain ends_with_slash
candidates pat =
    if is_plain pat
    then (if ends_with_slash pat
        then pat ∷ (pat ++ codes "**") ∷ []
        else pat ∷ (pat ++ codes "/**") ∷ [])
    else pat ∷ []

unfoldable pub glob_match : Text → Text → Bool
unfolding normalize_path candidates fnmatch
glob_match path pattern =
    let p = normalize_path path in any (λ c. fnmatch p c) (candidates (normalize_path pattern))

glob_directory : glob_match (codes "src/app/main.py") (codes "./src/app") ≡ true
unfolding glob_match
glob_directory = refl

glob_set : glob_match (codes "a-1.txt") (codes "[!b-z]-[0-9].t?t") ≡ true
unfolding glob_match
glob_set = refl

glob_other : glob_match (codes "src/lib/x.py") (codes "src/app/**") ≡ false
unfolding glob_match
glob_other = refl
