-- ===== src/Bus/Redis/Scan.antt =====
-- About `_scan_for_uuid`, over a stream that stands still.
use magent.Prelude.{
  ℕ, zero, suc, ◌<◌, ◌≤◌, ◌≡◌, refl, sym, ◌∙◌, Option, none, some, is_some, List, [], ◌∷◌, ◌++◌,
  append_assoc, arith, Bool, true, false, if◌then◌else◌, Text, codes, length, take, drop, All,
  take-append-drop,
}
use magent.Json.{Value}
use magent.Bus.Redis.{
  Entry, StreamClient, IsStream, exclusive, last_id_of, find_uuid, holds_uuid, scan_from,
  scan_for_uuid,
}
use magent.Bus.Redis.Collect.{split_last}

find_uuid-append :
    (uuid : Text) (xs ys : List Entry)
    → find_uuid uuid (xs ++ ys)
      ≡ (if is_some (find_uuid uuid xs) then find_uuid uuid xs else find_uuid uuid ys)
unfolding find_uuid
find_uuid-append uuid [] ys = refl
find_uuid-append uuid (x ∷ xs) ys = ground (arith, find_uuid-append uuid xs ys)

length-drop-le {ℓ} : {A : Type ℓ} (k : ℕ) (xs : List A) → length (drop k xs) ≤ length xs
length-drop-le zero xs = omega arith
length-drop-le (suc k) [] = omega arith
length-drop-le (suc k) (x ∷ xs) = omega (arith, length-drop-le k xs)

-- The search finds an entry that has the uuid and no entry before it has.
pub find_uuid_first :
    (uuid : Text) (before : List Entry) (e : Entry) (rest : List Entry)
    → All (λ x. holds_uuid uuid x ≡ false) before
    → holds_uuid uuid e ≡ true
    → find_uuid uuid (before ++ e ∷ rest) ≡ some e.entry_id
unfolding find_uuid
find_uuid_first uuid [] e rest no_one here = rw here refl
find_uuid_first uuid (x ∷ before) e rest (not_x, no_one) here =
    rw not_x (find_uuid_first uuid before e rest no_one here)

pub find_uuid-absent :
    (uuid : Text) (entries : List Entry)
    → All (λ x. holds_uuid uuid x ≡ false) entries
    → find_uuid uuid entries ≡ none
unfolding find_uuid
find_uuid-absent uuid [] h = refl
find_uuid-absent uuid (x ∷ entries) (not_x, h) = rw not_x (find_uuid-absent uuid entries h)

found_in :
    (uuid : Text) (p : Entry) (k : ℕ) (rest : List Entry)
    → find_uuid uuid (p ∷ rest) ≡ (
        if is_some (find_uuid uuid (p ∷ take k rest))
        then find_uuid uuid (p ∷ take k rest)
        else find_uuid uuid (drop k rest))
found_in uuid p k rest =
    rw (take-append-drop k rest) at (find_uuid-append uuid (p ∷ take k rest) (drop k rest))

last_id_of_cons :
    (p : Entry) (chunk : List Entry) → last_id_of [] (p ∷ chunk) ≡ last_id_of p.entry_id chunk
unfolding last_id_of
last_id_of_cons p chunk = refl

some-if {ℓ} :
    {A : Type ℓ} (b : Bool) (x y : A) → (if b then some x else some y) ≡ some (if b then x else y)
some-if true x y = refl
some-if false x y = refl

module _ (loads : Text → Option Value) (client : StreamClient) (topic : Text) {entries : List Entry}
    (stream : IsStream client topic entries) where
  scan_lem :
      (fuel : ℕ) (start uuid : Text) (k : ℕ) (before rest : List Entry)
      → entries ≡ before ++ rest
      → client.xrange topic start (suc k) ≡ take (suc k) rest
      → length rest < fuel
      → scan_from loads client topic fuel start uuid (suc k) ≡ some (find_uuid uuid rest)
  unfolding scan_from
  scan_lem zero start uuid k before rest e chunk enough = absurd (omega arith)
  scan_lem (suc fuel) start uuid k before [] e chunk enough = rw chunk (unfold find_uuid in refl)
  scan_lem (suc fuel) start uuid k before (p ∷ rest) e chunk enough =
      let (before', l, split, last) =
        split_last entries before p (take k rest) (drop k rest) (rw (take-append-drop k rest) e) in
      let next =
        scan_lem fuel (exclusive l.entry_id) uuid k (before' ++ l ∷ []) (drop k rest)
          (split ∙ sym (append_assoc before' (l ∷ []) (drop k rest)))
          (stream.after before' l (drop k rest) (suc k) split (omega arith))
          (omega (arith, length-drop-le k rest)) in
      rw (chunk, last_id_of_cons p (take k rest), last, next, found_in uuid p k rest)
        (some-if (is_some (find_uuid uuid (p ∷ take k rest))) _ _)

  pub scan_for_uuid-eq-find :
      (fuel : ℕ) (uuid : Text) (chunk_size : ℕ)
      → 0 < chunk_size
      → length entries < fuel
      → scan_for_uuid loads client topic fuel uuid chunk_size ≡ some (find_uuid uuid entries)
  unfolding scan_for_uuid
  scan_for_uuid-eq-find fuel uuid zero pos enough = elim pos [ ]
  scan_for_uuid-eq-find fuel uuid (suc k) pos enough =
      scan_lem fuel (codes "-") uuid k [] entries refl (stream.from_start (suc k) pos) enough
