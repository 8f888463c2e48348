-- ===== src/Base/Dict.antt =====
-- A Python dict: an association list in insertion order. A key is written in place, so it stands
-- once; `erase` drops every entry of the key.
use Prim.Native.Nat.{suc, ◌≤◌, ◌<◌}
use mathlib.Core.Path.{◌≡◌, refl}
use mathlib.Core.Logic.{◌≢◌}
use mathlib.Core.Bool.{Bool, true}
use mathlib.Core.Option.{Option, none, some}
use mathlib.Core.List.{List, [], ◌∷◌}
use native.Mathlib.Omega.{arith}
use trading_hub.Base.Tests.{if◌then◌else◌, is_some}
use trading_hub.Base.Lists.{length}
use trading_hub.Base.Equality.{HasEq, ◌==◌, beq_self, beq_of_ne}

abbrev pub Dict {ℓ κ} : Type ℓ → Type κ → Type (ℓ ⊔ κ)
Dict K V = List (K × V)

module _ {ℓ κ} {K : Type ℓ} {V : Type κ} ⦃e : HasEq K⦄ where
  abbrev pub lookup : K → Dict K V → Option V
  lookup k [] = none
  lookup k ((j, v) ∷ d) = if j == k then some v else lookup k d

  -- `k in d`
  abbrev pub contains : K → Dict K V → Bool
  contains k d = is_some (lookup k d)

  -- `d[k] = v`
  abbrev pub insert : K → V → Dict K V → Dict K V
  insert k v [] = (k, v) ∷ []
  insert k v ((j, w) ∷ d) = if j == k then (k, v) ∷ d else (j, w) ∷ insert k v d

  -- `d.pop(k, None)`
  abbrev pub erase : K → Dict K V → Dict K V
  erase k [] = []
  erase k ((j, w) ∷ d) = let rest = erase k d in if j == k then rest else (j, w) ∷ rest

  pub lookup-insert :
      (k j : K) (v : V) (d : Dict K V)
      → lookup j (insert k v d) ≡ (if k == j then some v else lookup j d)
  lookup-insert k j v [] = refl
  lookup-insert k j v ((i, w) ∷ d) =
      ground (arith, e.is_same_iff k j, e.is_same_iff i k, e.is_same_iff i j, lookup-insert k j v d)

  pub lookup-erase :
      (k j : K) (d : Dict K V) → lookup j (erase k d) ≡ (if k == j then none else lookup j d)
  lookup-erase k j [] = ground arith
  lookup-erase k j ((i, w) ∷ d) =
      ground (arith, e.is_same_iff k j, e.is_same_iff i k, e.is_same_iff i j, lookup-erase k j d)

  pub lookup-insert_self : (k : K) (v : V) (d : Dict K V) → lookup k (insert k v d) ≡ some v
  lookup-insert_self k v d = ground (arith, lookup-insert k k v d, beq_self k)

  pub lookup-insert_ne :
      (k j : K) (v : V) (d : Dict K V) → k ≢ j → lookup j (insert k v d) ≡ lookup j d
  lookup-insert_ne k j v d h = ground (arith, lookup-insert k j v d, beq_of_ne k j h)

  pub lookup-erase_self : (k : K) (d : Dict K V) → lookup k (erase k d) ≡ none
  lookup-erase_self k d = ground (arith, lookup-erase k k d, beq_self k)

  pub lookup-erase_ne : (k j : K) (d : Dict K V) → k ≢ j → lookup j (erase k d) ≡ lookup j d
  lookup-erase_ne k j d h = ground (arith, lookup-erase k j d, beq_of_ne k j h)

  pub length-insert_new :
      (k : K) (v : V) (d : Dict K V) → lookup k d ≡ none → length (insert k v d) ≡ suc (length d)
  length-insert_new k v [] h = refl
  length-insert_new k v ((j, w) ∷ d) h = ground (arith, length-insert_new k v d)

  pub length-insert_le : (k : K) (v : V) (d : Dict K V) → length (insert k v d) ≤ suc (length d)
  length-insert_le k v [] = omega arith
  length-insert_le k v ((j, w) ∷ d) = ground (arith, length-insert_le k v d)

  pub length-erase_le : (k : K) (d : Dict K V) → length (erase k d) ≤ length d
  length-erase_le k [] = omega arith
  length-erase_le k ((j, w) ∷ d) = ground (arith, length-erase_le k d)

  pub length-erase_lt : (k : K) (d : Dict K V) → contains k d ≡ true → length (erase k d) < length d
  length-erase_lt k [] h = ground arith
  length-erase_lt k ((j, w) ∷ d) h = ground (arith, length-erase_le k d, length-erase_lt k d)

  -- No key stands twice.
  abbrev pub IsUnique : Dict K V → Type κ
  IsUnique [] = Unit
  IsUnique ((k, v) ∷ d) = (lookup k d ≡ none) × IsUnique d

  pub insert-IsUnique : (k : K) (v : V) (d : Dict K V) → IsUnique d → IsUnique (insert k v d)
  insert-IsUnique k v [] h = (refl, tt)
  insert-IsUnique k v ((j, w) ∷ d) h = ground (
    arith,
    e.is_same_iff j k,
    e.is_same_iff k j,
    insert-IsUnique k v d h.1,
    lookup-insert k j v d,
  )

  pub erase-IsUnique : (k : K) (d : Dict K V) → IsUnique d → IsUnique (erase k d)
  erase-IsUnique k [] h = tt
  erase-IsUnique k ((j, w) ∷ d) h =
      ground (arith, erase-IsUnique k d h.1, lookup-erase k j d, e.is_same_iff k j)
