-- ===== src/Lightning/LndIo/After.antt =====
-- Proofs about chained calls of LNDClient (internal/lightning/lightning.go): what holds after them.
use routecat.Prelude.{Bool, Option, false, inl, inr, none, refl, some, true, ◌≡◌, ◌⊎◌}
use routecat.Lightning.LndIo.{Io, LndError, demand, give_back, or_fail, ◌>>=◌}

module _ {W : Type 0} where
  abbrev pub Post :
      {A : Type 0} → (A → W → Type 0) → (LndError → W → Type 0) → LndError ⊎ A → W → Type 0
  Post Q E (inl e) w = E e w
  Post Q E (inr a) w = Q a w

  -- After the call from `w`, `Q` holds of a value and `E` of an error, with the world then.
  pub record After {A : Type 0} (m : Io W A) (Q : A → W → Type 0) (E : LndError → W → Type 0)
      (w : W) : Type 0 where
    pub holds : Post Q E (m w).0 (m w).1

  pub After-bind :
      {A B : Type 0} (m : Io W A) (f : A → Io W B) {Q : B → W → Type 0} {E : LndError → W → Type 0}
      {w : W}
      → After m (λ a w'. After (f a) Q E w') E w
      → After (m >>= f) Q E w
  unfolding ◌>>=◌
  After-bind {A} {B} m f {Q} {E} {w} h = record { holds = next (m w).0 (m w).1 h.holds }
    where
      next :
          (r : LndError ⊎ A) (w' : W)
          → Post (λ a w'. After (f a) Q E w') E r w'
          → let out : (LndError ⊎ B) × W = elim r [ inl e ↦ (inl e, w') | inr a ↦ f a w' ] in
            Post Q E out.0 out.1
      next (inl e) w' h = h
      next (inr a) w' h = h.holds

  pub After-or_fail :
      {A : Type 0} (e : LndError) (o : Option A) {Q : A → W → Type 0} {E : LndError → W → Type 0}
      {w : W}
      → (o ≡ none → E e w)
      → ((a : A) → o ≡ some a → Q a w)
      → After (or_fail e o) Q E w
  unfolding or_fail
  After-or_fail e none fails gives = record { holds = fails refl }
  After-or_fail e (some a) fails gives = record { holds = gives a refl }

  pub After-demand :
      (fine : Bool) (e : LndError) {Q : Unit {0} → W → Type 0} {E : LndError → W → Type 0} {w : W}
      → (fine ≡ false → E e w)
      → (fine ≡ true → Q tt w)
      → After (demand fine e) Q E w
  unfolding demand
  After-demand false e fails gives = record { holds = fails refl }
  After-demand true e fails gives = record { holds = gives refl }

  pub After-give_back :
      {A : Type 0} (a : A) {Q : A → W → Type 0} {E : LndError → W → Type 0} {w : W}
      → Q a w
      → After (give_back a) Q E w
  unfolding give_back
  After-give_back a h = record { holds = h }
