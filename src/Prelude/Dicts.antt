-- ===== src/Prelude/Dicts.antt =====
-- Python's `dict` with text keys: entries in insertion order, an assignment to a present key in place.
use Prim.Native.Nat.{suc}
use mathlib.Core.Bool.{false}
use mathlib.Core.Path.{◌≡◌, refl}
use mathlib.Core.List.{List, [], ◌∷◌}
use mathlib.Core.Option.{Option, none, some}
use native.Mathlib.Omega.{arith}
use magent.Prelude.Tests.{is_some, if◌then◌else◌}
use magent.Prelude.Lists.{length}
use magent.Prelude.Strings.{Text, same_text, same_text_iff}

abbrev pub Dict {ℓ} : Type ℓ → Type ℓ
Dict V = List (Text × V)

module _ {ℓ} {V : Type ℓ} where
  -- d.get(k)
  unfoldable pub lookup : Text → Dict V → Option V
  lookup k [] = none
  lookup k ((j, v) ∷ d) = if same_text j k then some v else lookup k d

  -- d[k] = v
  unfoldable pub insert : Text → V → Dict V → Dict V
  insert k v [] = (k, v) ∷ []
  insert k v ((j, w) ∷ d) = if same_text j k then (j, v) ∷ d else (j, w) ∷ insert k v d

  pub lookup-insert :
      (k j : Text) (v : V) (d : Dict V)
      → lookup j (insert k v d) ≡ (if same_text k j then some v else lookup j d)
  unfolding lookup insert
  lookup-insert k j v [] = refl
  lookup-insert k j v ((i, w) ∷ d) =
      ground (arith, same_text_iff k j, same_text_iff i k, same_text_iff i j, lookup-insert k j v d)

  pub length-insert :
      (k : Text) (v : V) (d : Dict V)
      → is_some (lookup k d) ≡ false
      → length (insert k v d) ≡ suc (length d)
  unfolding lookup insert
  length-insert k v [] h = refl
  length-insert k v ((j, w) ∷ d) h = ground (arith, length-insert k v d)
