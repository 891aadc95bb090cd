-- ===== src/Prelude/Lists.antt =====
-- Lists measured and searched by native numbers and Boolean tests, under the library's names.
use Prim.Native.Nat.{ℕ, zero, suc, ◌+◌, ◌≤◌}
use mathlib.Core.Path.{◌≡◌, refl, ap}
use mathlib.Core.Bool.{Bool, true}
use mathlib.Core.List.{List, [], ◌∷◌, ◌++◌}
use mathlib.Core.Option.{Option, none, some}
use native.Mathlib.Omega.{arith}
use mathlib.Core.Logic.{◌⊎◌, inl, inr}
use routecat.Prelude.Tests.{if◌then◌else◌, Bool-cases}

-- A predicate on every element, by recursion, which the tactics read as a tuple.
abbrev pub All {ℓ κ} : {A : Type ℓ} → (A → Type κ) → List A → Type κ
All P [] = Unit
All P (x ∷ xs) = P x × All P xs

-- There is an element with the property, by recursion.
abbrev pub Any {ℓ} : {A : Type ℓ} → (A → Type 0) → List A → Type 0
Any P [] = ⊥
Any P (x ∷ xs) = P x ⊎ Any P xs

module _ {ℓ} {A : Type ℓ} where
  abbrev pub length : List A → ℕ
  length [] = 0
  length (x ∷ xs) = suc (length xs)

  -- The elements that pass the test, in order.
  unfoldable pub filter : (A → Bool) → List A → List A
  filter p [] = []
  filter p (x ∷ xs) = if p x then x ∷ filter p xs else filter p xs

  -- How many elements pass the test.
  unfoldable pub count : (A → Bool) → List A → ℕ
  count p [] = 0
  count p (x ∷ xs) = (if p x then 1 else 0) + count p xs

  unfoldable pub find : (A → Bool) → List A → Option A
  find p [] = none
  find p (x ∷ xs) = if p x then some x else find p xs

  abbrev pub take : ℕ → List A → List A
  take zero xs = []
  take (suc n) [] = []
  take (suc n) (x ∷ xs) = x ∷ take n xs

  pub length-append : (xs ys : List A) → length (xs ++ ys) ≡ length xs + length ys
  length-append [] ys = omega arith
  length-append (x ∷ xs) ys = omega (arith, length-append xs ys)

  pub count-append : (p : A → Bool) (xs ys : List A) → count p (xs ++ ys) ≡ count p xs + count p ys
  unfolding count
  count-append p [] ys = omega arith
  count-append p (x ∷ xs) ys = omega (arith, count-append p xs ys)

  pub count-le-length : (p : A → Bool) (xs : List A) → count p xs ≤ length xs
  unfolding count
  count-le-length p [] = omega arith
  count-le-length p (x ∷ xs) = ground (arith, count-le-length p xs)

  pub length-filter : (p : A → Bool) (xs : List A) → length (filter p xs) ≡ count p xs
  unfolding filter count
  length-filter p [] = refl
  length-filter p (x ∷ xs) = ground (arith, length-filter p xs)

  pub length-take-le : (n : ℕ) (xs : List A) → length (take n xs) ≤ n
  length-take-le zero xs = omega arith
  length-take-le (suc n) [] = omega arith
  length-take-le (suc n) (x ∷ xs) = omega (arith, length-take-le n xs)

  pub filter-All {κ} :
      (P : A → Type κ) (p : A → Bool) (xs : List A) → All P xs → All P (filter p xs)
  unfolding filter
  filter-All P p [] h = tt
  filter-All P p (x ∷ xs) h = elim (Bool-cases (p x)) [
    | inl e ↦ rw e (h.0, filter-All P p xs h.1)
    | inr e ↦ rw e (filter-All P p xs h.1)
  ]

  pub filter-append :
      (p : A → Bool) (xs ys : List A) → filter p (xs ++ ys) ≡ filter p xs ++ filter p ys
  unfolding filter
  filter-append p [] ys = refl
  filter-append p (x ∷ xs) ys = ground (arith, filter-append p xs ys)

  -- A weaker filter first changes nothing.
  pub filter-filter :
      (p q : A → Bool)
      → ((x : A) → q x ≡ true → p x ≡ true)
      → (xs : List A) → filter q (filter p xs) ≡ filter q xs
  unfolding filter
  filter-filter p q weaker [] = refl
  filter-filter p q weaker (x ∷ xs) = elim (Bool-cases (q x)) [
    | inl e ↦
        rw (weaker x e, filter, e) (ap (λ (ys : List A). x ∷ ys) (filter-filter p q weaker xs))
    | inr e ↦ elim (Bool-cases (p x)) [
      | inl f ↦ rw (f, filter, e) (filter-filter p q weaker xs)
      | inr f ↦ rw (f, e) (filter-filter p q weaker xs)
    ]
  ]

  pub append-All {κ} : (P : A → Type κ) (xs ys : List A) → All P xs → All P ys → All P (xs ++ ys)
  append-All P [] ys hx hy = hy
  append-All P (x ∷ xs) ys hx hy = (hx.0, append-All P xs ys hx.1 hy)

-- `UPDATE … SET … WHERE …` on the rows of a table.
module _ {ℓ} {A : Type ℓ} where
  unfoldable pub update_where : (A → Bool) → (A → A) → List A → List A
  update_where p f [] = []
  update_where p f (x ∷ xs) = (if p x then f x else x) ∷ update_where p f xs

pub find-update_where :
    {A : Type 0} (p q : A → Bool) (f : A → A)
    → ((x : A) → p (f x) ≡ p x)
    → (xs : List A)
    → find p (update_where q f xs)
      ≡ (elim (find p xs) [ none ↦ none | some x ↦ some (if q x then f x else x) ])
unfolding find update_where
find-update_where p q f same [] = refl
find-update_where p q f same (x ∷ xs) = ground (arith, same x, find-update_where p q f same xs)

pub find-some : {A : Type 0} (p : A → Bool) (x : A) (xs : List A) → find p xs ≡ some x → p x ≡ true
unfolding find
find-some p x [] e = cc e
find-some p x (y ∷ ys) e = ground (arith, find-some p x ys)
