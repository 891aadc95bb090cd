-- ===== src/Api/Terms.antt =====
-- On what terms internal/api/api.go serves a chat.
use routecat.Prelude.{Bool, String, arith, false, refl, some, true, ℕ, ◌≡◌}
use routecat.Prelude.Int.{pos, ℤ, ◌<ℤ◌}
use routecat.Store.Tables.{Tables}
use routecat.Store.Sql.{Result, err, ok, or_zero, pure, select, ◌>>=◌}
use routecat.Store.Ensures.{
  Ensures, Ensures-bind, Ensures-mono, Ensures-or_zero, Ensures-pure, Ensures-read, OrZero, Then,
}
use routecat.Store.Users.{read_balance, user_balance}
use routecat.Store.Books.{Validated, validate_user_key-Ensures}
use routecat.Store.Accounts.{exists_key}
use routecat.Gateway.State.{seconds}
use routecat.Api.Chat.{admit, check_user}

-- A user who has passed the checks: the key is registered, and a balance above 0 is the user's own.
abbrev pub Checked : String → Tables → Result (ℤ × ℤ) → Tables → Type 0
Checked user_key t (ok (remaining, balance)) u =
    (exists_key user_key t.api_keys ≡ true)
    × (pos 0 <ℤ balance → read_balance user_key t ≡ ok balance)
    × (u ≡ t)
Checked user_key t (err e) u = u ≡ t

pub check_user-Checked :
    (user_key : String) (now : ℕ) (t : Tables)
    → Ensures (check_user user_key now) t (Checked user_key t)
unfolding check_user user_balance
check_user-Checked user_key now t =
    Ensures-bind _ _ (Ensures-mono _ validated (validate_user_key-Ensures user_key (seconds now) t))
  where
    balanced :
        (remaining : ℤ) (r : Result ℤ)
        → read_balance user_key t ≡ r
        → exists_key user_key t.api_keys ≡ true
        → OrZero
            (pos 0)
            (Then (λ (balance : ℤ). pure (remaining, balance)) (Checked user_key t))
            r
            t
    balanced remaining (ok b) e known = Ensures-pure _ (known, (λ h. e), refl)
    balanced remaining (err x) e known = Ensures-pure _ (known, (λ h. absurd (omega arith)), refl)

    validated :
        (r : Result (String × ℤ)) (u : Tables)
        → Validated user_key t r u
        → Then
            (λ (o : String × ℤ). do
              balance ← or_zero (pos 0) (select (read_balance user_key))
              pure (o.1, balance))
            (Checked user_key t)
            r
            u
    validated (err e) u same = same
    validated (ok (id, remaining)) u (known, same) = rw same (
        Ensures-bind _ _ (
          Ensures-or_zero (pos 0) _ (
            Ensures-read _ (Ensures-pure _ (known, (λ h. absurd (omega arith)), refl))
              (balanced remaining (read_balance user_key t) refl known))))

admit_free :
    (playground : Bool) (remaining balance : ℤ)
    → admit playground remaining balance ≡ some true
    → (playground ≡ true) × (pos 0 <ℤ remaining)
unfolding admit
admit_free playground remaining balance e = ground arith

admit_paid :
    (playground : Bool) (remaining balance : ℤ)
    → admit playground remaining balance ≡ some false
    → pos 0 <ℤ balance
unfolding admit
admit_paid playground remaining balance e = ground arith

-- On what terms a user is served: on the free tier in the playground, or with a balance above 0.
abbrev pub Terms : Bool → Bool → String → Tables → Type 0
Terms playground true user_key t = playground ≡ true
Terms playground false user_key t =
    (balance : ℤ) × (read_balance user_key t ≡ ok balance) × (pos 0 <ℤ balance)

pub admit-Terms :
    (playground free_tier : Bool) (remaining balance : ℤ) (user_key : String) (t : Tables)
    → admit playground remaining balance ≡ some free_tier
    → (pos 0 <ℤ balance → read_balance user_key t ≡ ok balance)
    → Terms playground free_tier user_key t
admit-Terms playground true remaining balance user_key t e own =
    (admit_free playground remaining balance e).0
admit-Terms playground false remaining balance user_key t e own =
    let some_balance = admit_paid playground remaining balance e in
    (balance, own some_balance, some_balance)
