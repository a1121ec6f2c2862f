-- ===== src/Common/Dict.antt =====
-- A Python dict keyed by identifiers, in insertion order.
use Prim.Native.Nat.{ℕ}
use mathlib.Core.Path.{◌≡◌, refl}
use mathlib.Core.Logic.{◌≢◌, inl, inr}
use mathlib.Core.Bool.{Bool, false}
use mathlib.Core.Option.{Option, none, some}
use mathlib.Core.List.{List, [], ◌∷◌}
use native.Mathlib.Omega.{arith}
use silberloeffel_catering.Common.Tests.{◌==◌, if◌then◌else◌}
use silberloeffel_catering.Common.Lists.{any, In}

abbrev pub Dict {ℓ} : Type ℓ → Type ℓ
Dict V = List (ℕ × V)

module _ {ℓ} {V : Type ℓ} where
  -- `d.get(k)`
  unfoldable pub lookup : ℕ → Dict V → Option V
  lookup k [] = none
  lookup k ((j, v) ∷ d) = let rest = lookup k d in if j == k then some v else rest

  -- `d[k] = v`: in place if the key is there, at the end if not
  unfoldable pub insert : ℕ → V → Dict V → Dict V
  insert k v [] = (k, v) ∷ []
  insert k v ((j, w) ∷ d) = let rest = insert k v d in if j == k then (k, v) ∷ d else (j, w) ∷ rest

  -- `d.values()`
  unfoldable pub values : Dict V → List V
  values [] = []
  values ((_, v) ∷ d) = v ∷ values d

  -- `{key: value for key, value in d.items() if p(key)}`
  unfoldable pub keep : (ℕ → Bool) → Dict V → Dict V
  keep p [] = []
  keep p ((j, v) ∷ d) = let rest = keep p d in if p j then (j, v) ∷ rest else rest

  pub lookup-insert :
      (k j : ℕ) (v : V) (d : Dict V)
      → lookup j (insert k v d) ≡ (if k == j then some v else lookup j d)
  unfolding lookup insert
  lookup-insert k j v [] = refl
  lookup-insert k j v ((i, w) ∷ d) = ground (arith, lookup-insert k j v d)

  pub lookup-insert_self : (k : ℕ) (v : V) (d : Dict V) → lookup k (insert k v d) ≡ some v
  lookup-insert_self k v d = ground (arith, lookup-insert k k v d)

  pub lookup-insert_ne :
      (k j : ℕ) (v : V) (d : Dict V) → k ≢ j → lookup j (insert k v d) ≡ lookup j d
  lookup-insert_ne k j v d ne = ground (arith, lookup-insert k j v d)

  pub lookup-keep :
      (p : ℕ → Bool) (j : ℕ) (d : Dict V) → lookup j (keep p d) ≡ (if p j then lookup j d else none)
  unfolding lookup keep
  lookup-keep p j [] = ground arith
  lookup-keep p j ((i, w) ∷ d) = ground (arith, lookup-keep p j d)

  -- A value that no test of the loop accepts is not among those found.
  pub any-lookup :
      (p : V → Bool) (k : ℕ) (v : V) (d : Dict V)
      → any p (values d) ≡ false
      → lookup k d ≡ some v
      → p v ≡ false
  unfolding lookup values
  any-lookup p k v [] h e = ground arith
  any-lookup p k v ((j, w) ∷ d) h e = ground (arith, any-lookup p k v d)

module _ {V : Type 0} where
  -- What a lookup finds is one of the values.
  pub lookup-In : (k : ℕ) (v : V) (d : Dict V) → lookup k d ≡ some v → In v (values d)
  unfolding lookup values
  lookup-In k v [] h = ground arith
  lookup-In k v ((j, w) ∷ d) h = ground (arith, lookup-In k v d)

-- No key of the dict occurs twice.
abbrev pub Unique : {V : Type 0} → Dict V → Type 0
Unique [] = Unit
Unique ((k, v) ∷ d) = (lookup k d ≡ none) × Unique d

module _ {V : Type 0} where
  pub insert-Unique : (k : ℕ) (v : V) (d : Dict V) → Unique d → Unique (insert k v d)
  unfolding lookup insert
  insert-Unique k v [] u = (refl, tt)
  insert-Unique k v ((j, w) ∷ d) u = ground (arith, lookup-insert k j v d, insert-Unique k v d u.1)

  -- A value of a dict without repeated keys is found under its key.
  pub In-lookup :
      (v : V) (d : Dict V) → Unique d → In v (values d) → (k : ℕ) × (lookup k d ≡ some v)
  unfolding lookup values
  In-lookup v [] u m = absurd m
  In-lookup v ((j, w) ∷ d) u (inl e) = (j, ground arith)
  In-lookup v ((j, w) ∷ d) u (inr m) =
      let (k, h) = In-lookup v d u.1 m in (k, ground (arith, u.0, h))
