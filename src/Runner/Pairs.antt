-- ===== src/Runner/Pairs.antt =====
-- Reading back the dicts of Runner.Step.
use magent.Prelude.{
  ◌≡◌, ◌∙◌, refl, Bool, true, false, ◌&&◌, Option, none, some, List, [], ◌∷◌, arith, Text,
  same_text, same_text_iff, same_text_refl, Dict, lookup, insert, lookup-insert, if◌then◌else◌,
}
use magent.Runner.Step.{PairDict, same_pair, lookup_pair, insert_pair, pop_pair, pop_key}
use magent.Runner.Tools.{ids_of, leave_ids}

module _ {V : Type 0} where
  lookup_pair-insert_pair :
      (c k d j : Text) (v : V) (m : PairDict V)
      → lookup_pair (d, j) (insert_pair (c, k) v m)
        ≡ (if same_text c d && same_text k j then some v else lookup_pair (d, j) m)
  unfolding lookup_pair insert_pair same_pair
  lookup_pair-insert_pair c k d j v [] = refl
  lookup_pair-insert_pair c k d j v (((a, b), w) ∷ m) = ground (
    arith,
    lookup_pair-insert_pair c k d j v m,
    same_text_iff a c,
    same_text_iff b k,
    same_text_iff a d,
    same_text_iff b j,
    same_text_iff c d,
    same_text_iff k j,
  )

  lookup_pair-pop_pair :
      (c k d j : Text) (m : PairDict V)
      → lookup_pair (d, j) (pop_pair (c, k) m)
        ≡ (if same_text c d && same_text k j then none else lookup_pair (d, j) m)
  unfolding lookup_pair pop_pair same_pair
  lookup_pair-pop_pair c k d j [] = ground arith
  lookup_pair-pop_pair c k d j (((a, b), w) ∷ m) = ground (
    arith,
    lookup_pair-pop_pair c k d j m,
    same_text_iff a c,
    same_text_iff b k,
    same_text_iff a d,
    same_text_iff b j,
    same_text_iff c d,
    same_text_iff k j,
  )

  pub insert_pair_other :
      (c k d j : Text) (v : V) (m : PairDict V)
      → same_text k j ≡ false
      → lookup_pair (d, j) (insert_pair (c, k) v m) ≡ lookup_pair (d, j) m
  insert_pair_other c k d j v m h = ground (arith, lookup_pair-insert_pair c k d j v m, h)

  pub insert_pair_same :
      (c k : Text) (v : V) (m : PairDict V) → lookup_pair (c, k) (insert_pair (c, k) v m) ≡ some v
  insert_pair_same c k v m =
      ground (arith, lookup_pair-insert_pair c k c k v m, same_text_refl c, same_text_refl k)

  pub pop_pair_other :
      (c k d j : Text) (m : PairDict V)
      → (same_text c d && same_text k j) ≡ false
      → lookup_pair (d, j) (pop_pair (c, k) m) ≡ lookup_pair (d, j) m
  pop_pair_other c k d j m h = ground (arith, lookup_pair-pop_pair c k d j m, h)

  pub pop_inserted_other :
      (c k d j : Text) (v : V) (m : PairDict V)
      → same_text k j ≡ false
      → lookup_pair (d, j) (pop_pair (c, k) (insert_pair (c, k) v m)) ≡ lookup_pair (d, j) m
  pop_inserted_other c k d j v m h =
      pop_pair_other c k d j (insert_pair (c, k) v m) (ground (arith, h))
      ∙ insert_pair_other c k d j v m h

  lookup-pop_key :
      (c d : Text) (m : Dict V)
      → lookup d (pop_key c m) ≡ (if same_text c d then none else lookup d m)
  unfolding lookup pop_key
  lookup-pop_key c d [] = ground arith
  lookup-pop_key c d ((a, w) ∷ m) =
      ground (arith, lookup-pop_key c d m, same_text_iff a c, same_text_iff a d, same_text_iff c d)

if-ids_of :
    (b : Bool) (ids : List Text) (o : Option (List Text))
    → ids_of (if b then some ids else o) ≡ (if b then ids else ids_of o)
if-ids_of true ids o = refl
if-ids_of false ids o = refl

if_none-ids_of :
    (b : Bool) (o : Option (List Text))
    → ids_of (if b then none else o) ≡ (if b then [] else ids_of o)
if_none-ids_of true o = refl
if_none-ids_of false o = refl

pub ids_of-insert :
    (c d : Text) (ids : List Text) (m : Dict (List Text))
    → ids_of (lookup d (insert c ids m)) ≡ (if same_text c d then ids else ids_of (lookup d m))
ids_of-insert c d ids m = rw (lookup-insert c d ids m) (if-ids_of (same_text c d) ids (lookup d m))

pub ids_of-leave_ids :
    (c d : Text) (ids : List Text) (m : Dict (List Text))
    → ids_of (lookup d (leave_ids c ids m)) ≡ (if same_text c d then ids else ids_of (lookup d m))
ids_of-leave_ids c d [] m = rw (lookup-pop_key c d m) (if_none-ids_of (same_text c d) (lookup d m))
ids_of-leave_ids c d (id ∷ ids) m = ids_of-insert c d (id ∷ ids) m
