-- ===== src/Prelude/Dict.antt =====
-- A Python `dict` with text keys, as an association list in insertion order.
use Prim.Native.String.{String}
use mathlib.Core.Path.{◌≡◌, refl}
use mathlib.Core.Logic.{inl, inr}
use mathlib.Core.Option.{Option, none, some}
use mathlib.Core.List.{List, [], ◌∷◌}
use native.Mathlib.Omega.{arith}
use text.Mathlib.TextEquality.{eq_iff}
use strategy_adapter.Prelude.Tests.{if◌then◌else◌, Bool-cases}
use strategy_adapter.Prelude.Lists.{All}
use strategy_adapter.Prelude.Equality.{◌==◌, string_eq}
use strategy_adapter.Prelude.Texts.{text_leb}

abbrev pub Dict {ℓ} : Type ℓ → Type ℓ
Dict V = List (String × V)

module _ {ℓ} {V : Type ℓ} where
  -- `d.get(k)`
  abbrev pub lookup : String → Dict V → Option V
  lookup k [] = none
  lookup k ((j, v) ∷ d) = if j == k then some v else lookup k d

  -- `d.get(k, default)`
  abbrev pub get_or : String → V → Dict V → V
  get_or k default d = elim (lookup k d) [ none ↦ default | some v ↦ v ]

  -- `d[k] = v`
  abbrev pub insert : String → V → Dict V → Dict V
  insert k v [] = (k, v) ∷ []
  insert k v ((j, w) ∷ d) = if j == k then (j, v) ∷ d else (j, w) ∷ insert k v d

  -- `sorted(d)`, with the values
  abbrev insert_sorted : String → V → Dict V → Dict V
  insert_sorted k v [] = (k, v) ∷ []
  insert_sorted k v ((j, w) ∷ d) =
      if text_leb k j then (k, v) ∷ (j, w) ∷ d else (j, w) ∷ insert_sorted k v d

  abbrev pub sorted_items : Dict V → Dict V
  sorted_items [] = []
  sorted_items ((k, v) ∷ d) = insert_sorted k v (sorted_items d)

  pub lookup-insert :
      (k j : String) (v : V) (d : Dict V)
      → lookup j (insert k v d) ≡ (if k == j then some v else lookup j d)
  lookup-insert k j v [] = refl
  lookup-insert k j v ((i, w) ∷ d) =
      ground (arith, eq_iff k j, eq_iff i k, eq_iff i j, lookup-insert k j v d)

-- a property of every value
abbrev pub AllValues {ℓ κ} : {V : Type ℓ} → (V → Type κ) → Dict V → Type κ
AllValues P d = All (λ e. P e.1) d

module _ {ℓ κ} {V : Type ℓ} (P : V → Type κ) where
  pub AllValues-insert :
      (k : String) (v : V) (d : Dict V) → P v → AllValues P d → AllValues P (insert k v d)
  AllValues-insert k v [] p h = (p, tt)
  AllValues-insert k v ((j, w) ∷ d) p h = elim (Bool-cases (j == k)) [
    | inl same ↦ rw same (p, h.1)
    | inr other ↦ rw other (h.0, AllValues-insert k v d p h.1)
  ]

  AllValues-insert_sorted :
      (k : String) (v : V) (d : Dict V) → P v → AllValues P d → AllValues P (insert_sorted k v d)
  AllValues-insert_sorted k v [] p h = (p, tt)
  AllValues-insert_sorted k v ((j, w) ∷ d) p h = elim (Bool-cases (text_leb k j)) [
    | inl before ↦ rw before (p, h)
    | inr after ↦ rw after (h.0, AllValues-insert_sorted k v d p h.1)
  ]

  pub AllValues-sorted : (d : Dict V) → AllValues P d → AllValues P (sorted_items d)
  AllValues-sorted [] h = tt
  AllValues-sorted ((k, v) ∷ d) h =
      AllValues-insert_sorted k v (sorted_items d) h.0 (AllValues-sorted d h.1)

  pub AllValues-get_or : (k : String) (v : V) (d : Dict V) → P v → AllValues P d → P (get_or k v d)
  AllValues-get_or k v [] p h = p
  AllValues-get_or k v ((j, w) ∷ d) p h = elim (Bool-cases (j == k)) [
    | inl same ↦ rw (same, get_or) h.0
    | inr other ↦ rw (other, get_or) (AllValues-get_or k v d p h.1)
  ]
