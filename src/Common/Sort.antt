-- ===== src/Common/Sort.antt =====
-- `sorted(xs, key=...)`: a stable sort. The test says whether the first element may stand before
-- the second, so an element goes in front of the first one that it may stand before.
use mathlib.Core.Path.{◌≡◌, refl}
use mathlib.Core.Logic.{◌⊎◌, inl, inr}
use mathlib.Core.Bool.{Bool, true, false}
use mathlib.Core.Option.{some}
use mathlib.Core.List.{List, [], ◌∷◌, ◌++◌}
use native.Mathlib.Omega.{arith}
use silberloeffel_catering.Common.Tests.{if◌then◌else◌, Bool-cases}
use silberloeffel_catering.Common.Lists.{first, last, In, last-In}

module _ {ℓ} {A : Type ℓ} (before : A → A → Bool) where
  unfoldable pub insert_sorted : A → List A → List A
  insert_sorted x [] = x ∷ []
  insert_sorted x (y ∷ ys) =
      let rest = insert_sorted x ys in if before x y then x ∷ y ∷ ys else y ∷ rest

  unfoldable pub sorted : List A → List A
  unfolding insert_sorted
  sorted [] = []
  sorted (x ∷ xs) = insert_sorted x (sorted xs)

module _ {A : Type 0} (before : A → A → Bool) where
  -- Sorting keeps the elements, and brings in no others.
  insert_sorted-In : (a x : A) (ys : List A) → In a (insert_sorted before x ys) → (x ≡ a) ⊎ In a ys
  unfolding insert_sorted
  insert_sorted-In a x [] m = m
  insert_sorted-In a x (y ∷ ys) m = ground (arith, insert_sorted-In a x ys)

  In-insert_sorted : (a x : A) (ys : List A) → (x ≡ a) ⊎ In a ys → In a (insert_sorted before x ys)
  unfolding insert_sorted
  In-insert_sorted a x [] m = m
  In-insert_sorted a x (y ∷ ys) m = ground (arith, In-insert_sorted a x ys)

  pub sorted-In : (a : A) (xs : List A) → In a (sorted before xs) → In a xs
  unfolding sorted
  sorted-In a [] m = m
  sorted-In a (x ∷ xs) m = ground (arith, insert_sorted-In a x (sorted before xs), sorted-In a xs)

  pub In-sorted : (a : A) (xs : List A) → In a xs → In a (sorted before xs)
  unfolding sorted
  In-sorted a [] m = m
  In-sorted a (x ∷ xs) m = ground (arith, In-insert_sorted a x (sorted before xs), In-sorted a xs)

  insert_sorted-append :
      (x : A) (ys : List A) (y : A)
      → before x y ≡ true
      → insert_sorted before x (ys ++ y ∷ []) ≡ insert_sorted before x ys ++ y ∷ []
  unfolding insert_sorted
  insert_sorted-append x [] y h = rw h
  insert_sorted-append x (z ∷ ys) y h = ground (arith, insert_sorted-append x ys y h)

  -- An element that all others may stand before is sorted to the end.
  pub sorted-append :
      (xs : List A) (y : A)
      → ((x : A) → In x xs → before x y ≡ true)
      → sorted before (xs ++ y ∷ []) ≡ sorted before xs ++ y ∷ []
  unfolding sorted
  sorted-append [] y h = refl
  sorted-append (x ∷ xs) y h =
      rw (sorted-append xs y (λ z m. h z (inr m)))
        (insert_sorted-append x (sorted before xs) y (h x (inl refl)))

  -- Each element may stand before all that follow it.
  abbrev pub IsSorted : List A → Type 0
  IsSorted [] = Unit
  IsSorted (x ∷ xs) = ((y : A) → In y xs → before x y ≡ true) × IsSorted xs

-- The order of the keys is total and transitive.
module _ {A : Type 0} (before : A → A → Bool)
    (total : (x y : A) → before x y ≡ false → before y x ≡ true)
    (trans : (x y z : A) → before x y ≡ true → before y z ≡ true → before x z ≡ true) where
  insert_sorted-IsSorted :
      (x : A) (ys : List A) → IsSorted before ys → IsSorted before (insert_sorted before x ys)
  unfolding insert_sorted
  insert_sorted-IsSorted x [] h = ((λ y m. absurd m), tt)
  insert_sorted-IsSorted x (y ∷ ys) h = elim (Bool-cases (before x y)) [
    | inl ahead ↦ rw ahead ((λ z m. ground (arith, h.0 z, trans x y z)), h)
    | inr later ↦ rw later (
      (λ z m. ground (arith, insert_sorted-In before z x ys, h.0 z, total x y)),
      insert_sorted-IsSorted x ys h.1,
    )
  ]

  pub sorted-IsSorted : (xs : List A) → IsSorted before (sorted before xs)
  unfolding sorted
  sorted-IsSorted [] = tt
  sorted-IsSorted (x ∷ xs) = insert_sorted-IsSorted x (sorted before xs) (sorted-IsSorted xs)

  sorted_self : (xs : List A) → IsSorted before xs → sorted before xs ≡ xs
  unfolding sorted insert_sorted
  sorted_self [] h = refl
  sorted_self (x ∷ []) h = refl
  sorted_self (x ∷ y ∷ xs) h = rw (sorted_self (y ∷ xs) h.1) (rw (h.0 y (inl refl)))

  -- Sorting again changes nothing.
  pub sorted-sorted : (xs : List A) → sorted before (sorted before xs) ≡ sorted before xs
  sorted-sorted xs = sorted_self (sorted before xs) (sorted-IsSorted xs)

  -- The first of the sorted elements may stand before every other one.
  pub first-sorted :
      (a b : A) (xs : List A)
      → first (sorted before xs) ≡ some a
      → In b xs
      → (a ≡ b) ⊎ (before a b ≡ true)
  first-sorted a b xs h m =
      front (sorted before xs) (sorted-IsSorted xs) h (In-sorted before b xs m)
    where
      front :
          (l : List A)
          → IsSorted before l
          → first l ≡ some a
          → In b l
          → (a ≡ b) ⊎ (before a b ≡ true)
      front [] s e n = absurd n
      front (x ∷ l) s e n = ground (arith, s.0 b)

  -- Every element may stand before the last of the sorted ones.
  pub last-sorted :
      (a b : A) (xs : List A)
      → last (sorted before xs) ≡ some a
      → In b xs
      → (a ≡ b) ⊎ (before b a ≡ true)
  last-sorted a b xs h m = back (sorted before xs) (sorted-IsSorted xs) h (In-sorted before b xs m)
    where
      back :
          (l : List A)
          → IsSorted before l
          → last l ≡ some a
          → In b l
          → (a ≡ b) ⊎ (before b a ≡ true)
      back [] s e n = absurd n
      back (x ∷ []) s e n = ground arith
      back (x ∷ y ∷ l) s e n = ground (arith, s.0 a, last-In a (y ∷ l), back (y ∷ l) s.1)
