-- ===== src/Lightning/LndIo.antt =====
-- internal/lightning/lightning.go: the errors of LNDClient, and how its calls are chained.
-- The errors, with what their messages tell.
pub mod After
pub mod Runs
use routecat.Prelude.{Bool, List, Option, if◌then◌else◌, inl, inr, none, some, ℕ, ◌⊎◌}
use routecat.Prelude.Int.{ℤ}
use routecat.Text.{Text}

pub data LndError : Type 0 where
  no_macaroon : LndError
  no_response : LndError
  bad_json : LndError
  invalid_address : Text → LndError
  -- the amount in sats, and the bounds in millisats
  out_of_range : ℤ → ℤ → ℤ → LndError
  empty_invoice : Text → LndError
  -- the status, and the start of the body
  http_error : ℕ → List ℕ → LndError
  unreadable_payment : List ℕ → LndError
  payment_error : Text → LndError

-- A call acts on the world `W` and returns an error or a value.
abbrev pub Io : Type 0 → Type 0 → Type 0
Io W A = W → (LndError ⊎ A) × W

module _ {W : Type 0} where
  unfoldable pub give_up : {A : Type 0} → LndError → Io W A
  give_up e w = (inl e, w)

  unfoldable pub give_back : {A : Type 0} → A → Io W A
  give_back a w = (inr a, w)

  -- `if err != nil { return … }`
  infixl 5 ◌>>=◌ ◌>>◌
  unfoldable pub ◌>>=◌ : {A B : Type 0} → Io W A → (A → Io W B) → Io W B
  ◌>>=◌ m f w = let (r, w') = m w in elim r [ inl e ↦ (inl e, w') | inr a ↦ f a w' ]

  unfoldable pub ◌>>◌ : {A B : Type 0} → Io W A → Io W B → Io W B
  m >> k = m >>= λ _. k

  -- The value, or an error where there is none.
  unfoldable pub or_fail : {A : Type 0} → LndError → Option A → Io W A
  unfolding give_up give_back
  or_fail e none = give_up e
  or_fail e (some a) = give_back a

  unfoldable pub demand : Bool → LndError → Io W (Unit {0})
  unfolding give_up give_back
  demand fine e = if fine then give_back tt else give_up e

-- To unfold all of the above at once.
unfoldable pub io : Unit {0}
unfolding give_up give_back ◌>>=◌ ◌>>◌ or_fail demand
io = tt
