-- ===== src/Observability/Checks.antt =====
-- Redaction at a concrete value.
use magent.Prelude.{
  ℕ, zero, suc, ◌-◌, min, length, none, List, [], ◌∷◌, refl, ap, ◌≡◌, codes, Text, same_text,
}
use magent.Prelude.Exec.{return}
use magent.Observability.Index.{IndexClient, cap_recent_set}
use magent.Observability.Capped.{IsSets, cap_recent_set_lem}
use magent.Json.{Value, str, obj, end, field}
use magent.Observability.Redact.{is_sensitive, redact, IsClean, redact-IsClean}
use magent.Observability.Kept.{at_key, find, IsOpen, KeptAt, redact_keeps}

abbrev keep_case : Text → Text
keep_case s = s

abbrev nested : Value
nested = obj (
    field (codes "user")
      (obj
        (field (codes "password") (str (codes "x")) (field (codes "name") (str (codes "ann")) end)))
      (field (codes "token") (str (codes "t")) end))

redact-IsClean_example : IsClean keep_case (redact keep_case nested)
redact-IsClean_example = redact-IsClean keep_case nested

user_is_free : IsOpen keep_case (at_key (codes "user") ∷ at_key (codes "name") ∷ [])
unfolding is_sensitive same_text
user_is_free = (refl, (refl, tt))

redact_keeps_example :
    KeptAt
      (find (at_key (codes "user") ∷ at_key (codes "name") ∷ []) nested)
      (find (at_key (codes "user") ∷ at_key (codes "name") ∷ []) (redact keep_case nested))
redact_keeps_example =
    redact_keeps keep_case (at_key (codes "user") ∷ at_key (codes "name") ∷ []) nested user_is_free

-- A set is its size; what is drawn are that many empty names.
abbrev names : ℕ → List Text
names zero = []
names (suc n) = [] ∷ names n

abbrev sizes : IndexClient ℕ
sizes = record {
  execute = λ commands n. (return tt, n);
  hget = λ key name n. (return none, n);
  scard = λ key n. (return n, n);
  srandmember = λ key count n. (return (names (min count n)), n);
  srem = λ key members n. (return tt, n - length members);
}

abbrev card : ℕ → Text → ℕ
card n key = n

length-names : (n : ℕ) → length (names n) ≡ n
length-names zero = refl
length-names (suc n) = ap suc (length-names n)

sizes-IsSets : IsSets sizes card
sizes-IsSets = record {
  scard_lem = λ key w. refl;
  drawn = λ key count w. names (min count w);
  srandmember_lem = λ key count w. refl;
  length-drawn = λ key count w. length-names (min count w);
  srem_drawn = λ key count w. refl;
}

cap_recent_set_lem_example :
    card (cap_recent_set sizes (codes "s") 50 60) (codes "s") ≡ min (card 60 (codes "s")) 50
cap_recent_set_lem_example = cap_recent_set_lem sizes card sizes-IsSets (codes "s") 50 60
