-- ===== src/Store/Views.antt =====
-- Lemmas about the maps that the rows of internal/store/sqlite.go are seen as.
use mathlib.Core.Option.{map as option_map}
use routecat.Prelude.{
  Bool, Bool-cases, List, Option, String, [], ap, arith, eq_iff, false, find, find-some,
  find-update_where, if◌then◌else◌, inl, inr, none, refl, some, str_eq, sym, true, update_where,
  ◌++◌, ◌∙◌, ◌∷◌, ◌≡◌,
}
use routecat.Store.Spec.{adjust, put}

pub find-append :
    {A : Type 0} (p : A → Bool) (xs ys : List A)
    → find p (xs ++ ys) ≡ (elim (find p xs) [ none ↦ find p ys | some x ↦ some x ])
unfolding find
find-append p [] ys = refl
find-append p (x ∷ xs) ys = ground (arith, find-append p xs ys)

module _ {A V : Type 0} (name : A → String) (value : A → V) where
  abbrev pub named : String → A → Bool
  named k x = str_eq (name x) k

  abbrev pub view : List A → String → Option V
  view xs k = option_map value (find (named k) xs)

  view-append_at :
      (x : A) (xs : List A) (k : String)
      → find (named (name x)) xs ≡ none
      → view (xs ++ x ∷ []) k ≡ put (name x) (value x) (view xs) k
  unfolding put find
  view-append_at x xs k absent = elim (Bool-cases (str_eq k (name x))) [
    | inl same ↦
        let e : k ≡ name x = (eq_iff k (name x)).0 same in
        let gone : find (named k) xs ≡ none = rw e absent in
        let hit : str_eq (name x) k ≡ true = (eq_iff (name x) k).1 (sym e) in
        rw (find-append (named k) xs (x ∷ []), same, gone, hit) refl
    | inr other ↦
        let miss : str_eq (name x) k ≡ false =
          ground (arith, eq_iff k (name x), eq_iff (name x) k) in
        let alone : find (named k) (x ∷ []) ≡ none = rw miss refl in
        rw (find-append (named k) xs (x ∷ []), other)
          (ap (option_map value) (or_else (find (named k) xs) _ alone))
  ]
    where
      or_else : (o rest : Option A) → rest ≡ none → (elim o [ none ↦ rest | some y ↦ some y ]) ≡ o
      or_else none rest e = e
      or_else (some y) rest e = refl

  -- Appending a row of a new name is putting its value into the map.
  pub view-append :
      (x : A) (xs : List A)
      → find (named (name x)) xs ≡ none
      → view (xs ++ x ∷ []) ≡ put (name x) (value x) (view xs)
  view-append x xs absent i k = view-append_at x xs k absent i

  view-update_at :
      (key : String) (f : A → A) (g : V → V) (xs : List A) (k : String)
      → ((x : A) → name (f x) ≡ name x)
      → ((x : A) → value (f x) ≡ g (value x))
      → view (update_where (named key) f xs) k ≡ adjust key g (view xs) k
  unfolding adjust
  view-update_at key f g xs k same_name same_value =
      rw (find-update_where (named k) (named key) f (λ x. ap (λ n. str_eq n k) (same_name x)) xs)
        (found (find (named k) xs) refl)
    where
      found :
          (o : Option A)
          → find (named k) xs ≡ o
          → option_map value
              (elim o [ none ↦ none | some x ↦ some (if named key x then f x else x) ])
            ≡ option_map (λ v. if str_eq k key then g v else v) (option_map value o)
      found none e = refl
      found (some x) e =
          let is_k : name x ≡ k = (eq_iff (name x) k).0 (find-some (named k) x xs e) in
          elim (Bool-cases (str_eq k key)) [
            | inl hit ↦ rw (is_k, hit) (ap some (same_value x))
            | inr miss ↦ rw (is_k, miss) refl
          ]

  -- Updating the rows of a name is adjusting the map there.
  pub view-update :
      (key : String) (f : A → A) (g : V → V) (xs : List A)
      → ((x : A) → name (f x) ≡ name x)
      → ((x : A) → value (f x) ≡ g (value x))
      → view (update_where (named key) f xs) ≡ adjust key g (view xs)
  view-update key f g xs same_name same_value i k =
      view-update_at key f g xs k same_name same_value i

-- Updating rows by a test that does not look at the name is mapping the values.
pub find-update_all :
    {A : Type 0} (p q : A → Bool) (f : A → A) (xs : List A)
    → ((x : A) → p (f x) ≡ p x)
    → find p (update_where q f xs) ≡ option_map (λ x. if q x then f x else x) (find p xs)
find-update_all p q f xs same = rw (find-update_where p q f same xs) (mapped (find p xs))
  where
    mapped :
        (o : Option _)
        → (elim o [ none ↦ none | some x ↦ some (if q x then f x else x) ])
          ≡ option_map (λ x. if q x then f x else x) o
    mapped none = refl
    mapped (some x) = refl

-- The same, where the rows themselves are the values.
module _ {A : Type 0} (name : A → String) where
  option_map-id : (o : Option A) → option_map (λ x. x) o ≡ o
  option_map-id none = refl
  option_map-id (some x) = refl

  abbrev pub rows_by_name : List A → String → Option A
  rows_by_name xs k = find (named name (λ x. x) k) xs

  as_view : (xs : List A) → view name (λ x. x) xs ≡ rows_by_name xs
  as_view xs i k = option_map-id (rows_by_name xs k) i

  pub rows-append :
      (x : A) (xs : List A)
      → rows_by_name xs (name x) ≡ none
      → rows_by_name (xs ++ x ∷ []) ≡ put (name x) x (rows_by_name xs)
  rows-append x xs absent =
      sym (as_view (xs ++ x ∷ []))
      ∙ view-append name (λ y. y) x xs absent
      ∙ ap (put (name x) x) (as_view xs)

  pub rows-update :
      (key : String) (f : A → A) (xs : List A)
      → ((x : A) → name (f x) ≡ name x)
      → rows_by_name (update_where (named name (λ x. x) key) f xs) ≡ adjust key f (rows_by_name xs)
  rows-update key f xs same =
      sym (as_view (update_where (named name (λ x. x) key) f xs))
      ∙ view-update name (λ y. y) key f f xs same (λ x. refl)
      ∙ ap (adjust key f) (as_view xs)
