-- ===== src/Common/Lists.antt =====
-- Lists measured by native numbers, and the loops over lists that the program writes as
-- generator expressions: `any(...)`, filters, `max(...)`.
use Prim.Native.Nat.{ℕ, suc, ◌+◌, ◌≤◌, max}
use mathlib.Core.Path.{◌≡◌, refl, subst}
use mathlib.Core.Logic.{◌≢◌, ◌⊎◌, inl, inr}
use mathlib.Core.Bool.{Bool, true, false, ◌||◌}
use mathlib.Core.Option.{Option, none, some}
use mathlib.Core.List.{List, [], ◌∷◌, ◌++◌, reverse, reverse-cons}
use native.Mathlib.Omega.{arith}
use silberloeffel_catering.Common.Tests.{if◌then◌else◌, leb, Option-cases}

module _ {ℓ} {A : Type ℓ} where
  abbrev pub length : List A → ℕ
  length [] = 0
  length (x ∷ xs) = suc (length xs)

  -- `any(p(x) for x in xs)`
  abbrev pub any : (A → Bool) → List A → Bool
  any p [] = false
  any p (x ∷ xs) = p x || any p xs

  -- `[x for x in xs if p(x)]`
  abbrev pub filter : (A → Bool) → List A → List A
  filter p [] = []
  filter p (x ∷ xs) = let rest = filter p xs in if p x then x ∷ rest else rest

  -- `next((x for x in xs if p(x)), None)`
  abbrev pub find : (A → Bool) → List A → Option A
  find p [] = none
  find p (x ∷ xs) = let rest = find p xs in if p x then some x else rest

  -- `xs[-1] if xs else None`
  abbrev pub last : List A → Option A
  last [] = none
  last (x ∷ []) = some x
  last (_ ∷ y ∷ ys) = last (y ∷ ys)

  -- `xs[0] if xs else None`
  abbrev pub first : List A → Option A
  first [] = none
  first (x ∷ xs) = some x

  -- Every element satisfies the predicate.
  abbrev pub All {κ} : (A → Type κ) → List A → Type κ
  All P [] = Unit
  All P (x ∷ xs) = P x × All P xs

  -- `max(xs, key=key, default=None)`: the first of the greatest elements
  abbrev pub max_by : (A → ℕ) → List A → Option A
  max_by key [] = none
  max_by key (x ∷ xs) = elim (max_by key xs) [
    | none ↦ some x
    | some m ↦ if leb (key m) (key x) then some x else some m
  ]

  -- `max((key(x) for x in xs), default=0)`
  abbrev pub max_key : (A → ℕ) → List A → ℕ
  max_key key [] = 0
  max_key key (x ∷ xs) = max (key x) (max_key key xs)

-- Membership. The empty type stands at level 0, and so do the elements here and below.
abbrev pub In : {A : Type 0} → A → List A → Type 0
In a [] = ⊥
In a (x ∷ xs) = (x ≡ a) ⊎ In a xs

module _ {A : Type 0} where
  pub In-filter : (p : A → Bool) (a : A) (xs : List A) → In a (filter p xs) → In a xs × (p a ≡ true)
  In-filter p a [] m = absurd m
  In-filter p a (x ∷ xs) m = ground (arith, In-filter p a xs)

  pub filter-In : (p : A → Bool) (a : A) (xs : List A) → In a xs → p a ≡ true → In a (filter p xs)
  filter-In p a [] m h = absurd m
  filter-In p a (x ∷ xs) m h = ground (arith, filter-In p a xs)

  pub any-In : (p : A → Bool) (a : A) (xs : List A) → any p xs ≡ false → In a xs → p a ≡ false
  any-In p a [] h m = absurd m
  any-In p a (x ∷ xs) h m = ground (arith, any-In p a xs)

  pub any_none : (p : A → Bool) (xs : List A) → ((a : A) → In a xs → p a ≡ false) → any p xs ≡ false
  any_none p [] h = refl
  any_none p (x ∷ xs) h = rw (h x (inl refl)) (any_none p xs (λ a m. h a (inr m)))

  pub le-max_key : (key : A → ℕ) (a : A) (xs : List A) → In a xs → key a ≤ max_key key xs
  le-max_key key a [] m = absurd m
  le-max_key key a (x ∷ xs) m = ground (arith, le-max_key key a xs)

  pub max_by-In : (key : A → ℕ) (a : A) (xs : List A) → max_by key xs ≡ some a → In a xs
  max_by-In key a [] h = ground arith
  max_by-In key a (x ∷ xs) h = ground (arith, max_by-In key a xs)

  pub max_by-ne-none : (key : A → ℕ) (x : A) (xs : List A) → max_by key (x ∷ xs) ≢ none
  max_by-ne-none key x xs h = ground arith

  pub max_by-none : (key : A → ℕ) (b : A) (xs : List A) → max_by key xs ≡ none → ¬ In b xs
  max_by-none key b [] h m = m
  max_by-none key b (x ∷ xs) h m = ground arith

  pub max_by-max :
      (key : A → ℕ) (a b : A) (xs : List A) → max_by key xs ≡ some a → In b xs → key b ≤ key a
  max_by-max key a b [] h m = absurd m
  max_by-max key a b (x ∷ xs) h m = elim (Option-cases (max_by key xs)) [
    | inl e ↦ ground (arith, max_by-none key b xs e)
    | inr (c, e) ↦ ground (arith, max_by-max key c b xs e)
  ]

  pub last-In : (a : A) (xs : List A) → last xs ≡ some a → In a xs
  last-In a [] h = ground arith
  last-In a (x ∷ []) h = ground arith
  last-In a (x ∷ y ∷ ys) h = inr (last-In a (y ∷ ys) h)

  pub first-In : (a : A) (xs : List A) → first xs ≡ some a → In a xs
  first-In a [] h = ground arith
  first-In a (x ∷ xs) h = ground arith

  pub last-ne-none : (x : A) (xs : List A) → last (x ∷ xs) ≢ none
  last-ne-none x [] h = ground arith
  last-ne-none x (y ∷ ys) h = last-ne-none y ys h

  pub find-In : (p : A → Bool) (a : A) (xs : List A) → find p xs ≡ some a → In a xs × (p a ≡ true)
  find-In p a [] h = ground arith
  find-In p a (x ∷ xs) h = ground (arith, find-In p a xs)

  pub find-none : (p : A → Bool) (a : A) (xs : List A) → find p xs ≡ none → In a xs → p a ≡ false
  find-none p a [] h m = absurd m
  find-none p a (x ∷ xs) h m = ground (arith, find-none p a xs)

  pub In-append : (a : A) (xs ys : List A) → In a (xs ++ ys) → In a xs ⊎ In a ys
  In-append a [] ys m = inr m
  In-append a (x ∷ xs) ys (inl e) = inl (inl e)
  In-append a (x ∷ xs) ys (inr m) = ground (arith, In-append a xs ys m)

  pub append-In : (a : A) (xs ys : List A) → In a xs ⊎ In a ys → In a (xs ++ ys)
  append-In a [] ys m = ground arith
  append-In a (x ∷ xs) ys m = ground (arith, append-In a xs ys)

  pub In-reverse : (a : A) (xs : List A) → In a (reverse xs) → In a xs
  In-reverse a [] m = m
  In-reverse a (x ∷ xs) m =
      elim (In-append a (reverse xs) (x ∷ []) (subst (In a) (reverse-cons x xs) m)) [
        | inl n ↦ inr (In-reverse a xs n)
        | inr (inl e) ↦ inl e
        | inr (inr n) ↦ absurd n
      ]

module _ {ℓ} {A : Type ℓ} where
  pub filter-append_in :
      (p : A → Bool) (xs : List A) (y : A)
      → p y ≡ true
      → filter p (xs ++ y ∷ []) ≡ filter p xs ++ y ∷ []
  filter-append_in p [] y h = rw h
  filter-append_in p (x ∷ xs) y h = ground (arith, filter-append_in p xs y h)

  pub filter-append_out :
      (p : A → Bool) (xs : List A) (y : A) → p y ≡ false → filter p (xs ++ y ∷ []) ≡ filter p xs
  filter-append_out p [] y h = rw h
  filter-append_out p (x ∷ xs) y h = ground (arith, filter-append_out p xs y h)

  -- A search goes on in the appended list.
  pub find-append :
      (p : A → Bool) (xs ys : List A) → find p xs ≡ none → find p (xs ++ ys) ≡ find p ys
  find-append p [] ys h = refl
  find-append p (x ∷ xs) ys h = ground (arith, find-append p xs ys)

  pub last-append : (xs : List A) (y : A) → last (xs ++ y ∷ []) ≡ some y
  last-append [] y = refl
  last-append (x ∷ []) y = refl
  last-append (x ∷ z ∷ xs) y = last-append (z ∷ xs) y

  pub length-append : (xs : List A) (y : A) → length (xs ++ y ∷ []) ≡ length xs + 1
  length-append [] y = refl
  length-append (x ∷ xs) y = ground (arith, length-append xs y)
