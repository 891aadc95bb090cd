-- ===== src/Lightning/LndIo/Runs.antt =====
-- Proofs about chained calls of LNDClient (internal/lightning/lightning.go): a run step by step.
use routecat.Prelude.{Bool, Option, ap, inl, inr, refl, some, true, ◌≡◌, ◌⊎◌}
use routecat.Lightning.LndIo.{Io, LndError, demand, or_fail, ◌>>=◌}

module _ {W : Type 0} {A : Type 0} where
  pub runs_on :
      {B : Type 0} (m : Io W A) (f : A → Io W B) {w w' : W} {a : A} {out : (LndError ⊎ B) × W}
      → m w ≡ (inr a, w')
      → f a w' ≡ out
      → (m >>= f) w ≡ out
  unfolding ◌>>=◌
  runs_on {B} m f {w} {w'} {a} {out} e h = rw (◌>>=◌, e, ap (λ (p : (LndError ⊎ A) × W). p.1) e) h

  pub stops :
      {B : Type 0} (m : Io W A) (f : A → Io W B) {w w' : W} {e : LndError}
      → m w ≡ (inl e, w')
      → (m >>= f) w ≡ (inl e, w')
  unfolding ◌>>=◌
  stops m f e = rw (◌>>=◌, e, ap (λ (p : (LndError ⊎ A) × W). p.1) e) refl

  pub or_fail-some :
      (e : LndError) {o : Option A} {a : A} {w : W} → o ≡ some a → or_fail e o w ≡ (inr a, w)
  unfolding or_fail
  or_fail-some e h = rw h refl

pub demand-true :
    {W : Type 0} (e : LndError) {fine : Bool} {w : W} → fine ≡ true → demand fine e w ≡ (inr tt, w)
unfolding demand
demand-true e h = rw h refl
