-- ===== src/Observability/Capped.antt =====
-- About the cap on a set of recent conversations.
use magent.Prelude.{
  ℕ, ◌-◌, ◌≤◌, false, ltb→lt, min, ◌≡◌, inl, inr, Bool-cases, arith, List, [], ◌∷◌, Text, ltb,
  length,
}
use magent.Prelude.Exec.{return}
use magent.Observability.Index.{IndexClient, remove_drawn, cap_to, cap_recent_set}

-- What Redis documents of SCARD, of SRANDMEMBER with a positive count, which draws as many distinct
-- members as asked for and there are, and of SREM for members that were drawn.
pub record IsSets {W : Type 0} (c : IndexClient W) (card : W → Text → ℕ) : Type 0 where
  pub scard_lem : (key : Text) (w : W) → c.scard key w ≡ (return (card w key), w)
  pub drawn : (key : Text) (count : ℕ) (w : W) → List Text
  pub srandmember_lem :
      (key : Text) (count : ℕ) (w : W) → c.srandmember key count w ≡ (return (drawn key count w), w)
  pub length-drawn :
      (key : Text) (count : ℕ) (w : W) → length (drawn key count w) ≡ min count (card w key)
  pub srem_drawn :
      (key : Text) (count : ℕ) (w : W)
      → card (c.srem key (drawn key count w) w).1 key ≡ card w key - length (drawn key count w)

within_lem : (size limit : ℕ) → ltb limit size ≡ false → size ≤ limit
within_lem size limit h = ground arith

module _ {W : Type 0} (client : IndexClient W) (card : W → Text → ℕ)
    (sets : IsSets client card) where
  remove_drawn_lem :
      (key : Text) (w : W) (members : List Text)
      → card (client.srem key members w).1 key ≡ card w key - length members
      → card (remove_drawn client key (return members) w) key ≡ card w key - length members
  unfolding remove_drawn
  remove_drawn_lem key w [] h = omega arith
  remove_drawn_lem key w (x ∷ members) h = h

  -- Over a client whose SRANDMEMBER draws distinct members and whose SREM removes those, capping a
  -- set leaves it with its size or the limit, whichever is less.
  pub cap_recent_set_lem :
      (key : Text) (limit : ℕ) (w : W)
      → card (cap_recent_set client key limit w) key ≡ min (card w key) limit
  unfolding cap_recent_set cap_to
  cap_recent_set_lem key limit w =
      let size = card w key in
      let left =
        remove_drawn_lem key w (sets.drawn key (size - limit) w)
          (sets.srem_drawn key (size - limit) w) in
      elim (Bool-cases (ltb limit size)) [
        | inl over ↦
            rw (sets.scard_lem key w, sets.srandmember_lem key (size - limit) w, over)
              (omega (arith, left, sets.length-drawn key (size - limit) w, ltb→lt limit size over))
        | inr within ↦
            rw (sets.scard_lem key w, within) (omega (arith, within_lem size limit within))
      ]
