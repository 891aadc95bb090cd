-- ===== src/Gateway/Address.antt =====
-- internal/gateway/gateway.go: the format check of Lightning addresses.
use routecat.Prelude.{
  Bool, Option, ap, arith, false, if◌then◌else◌, ltb, none, some, true, ℕ, ◌++◌, ◌||◌, ◌∙◌, ◌∷◌,
  ◌≡◌, ◌≤◌,
}
use routecat.Text.{Text, byte_length, codes, contains, is_nil, split_two}
use routecat.Text.Split.{Absent, CutAtFirst, split_two-CutAtFirst, split_two-first}

abbrev at_sign : ℕ
at_sign = b'@'

abbrev parts_valid : Option (Text × Text) → Bool
parts_valid none = false
parts_valid (some (user, domain)) =
    if is_nil user || is_nil domain then false else contains domain (codes ".")

unfoldable pub is_valid_lightning_address : Text → Bool
unfolding byte_length split_two is_nil contains
is_valid_lightning_address addr =
    if ltb (byte_length addr) 5 || ltb 320 (byte_length addr)
    then false
    else parts_valid (split_two at_sign addr)

-- What the check accepts.
pub record IsAddress (addr : Text) : Type 0 where
  pub user : Text
  pub domain : Text
  pub parts : addr ≡ user ++ b'@' ∷ domain
  pub first_at : Absent b'@' user
  pub user_given : is_nil user ≡ false
  pub domain_given : is_nil domain ≡ false
  pub dotted : contains domain (codes ".") ≡ true
  pub long : 5 ≤ byte_length addr
  pub short : byte_length addr ≤ 320

-- The check accepts a text exactly if it is an address as above: of 5 to 320 bytes, with something on
-- both sides of its first `@` and a dot behind it. Spaces are not looked for.
pub is_valid_lightning_address-IsAddress :
    (addr : Text)
    → (is_valid_lightning_address addr ≡ true → IsAddress addr)
      × (IsAddress addr → is_valid_lightning_address addr ≡ true)
unfolding is_valid_lightning_address
is_valid_lightning_address-IsAddress addr = (accepted, complete)
  where
    parts_of :
        (o : Option (Text × Text))
        → CutAtFirst at_sign addr o
        → parts_valid o ≡ true
        → 5 ≤ byte_length addr
        → byte_length addr ≤ 320
        → IsAddress addr
    parts_of none c e long short = cc e
    parts_of (some (user, domain)) c e long short = record {
      user = user;
      domain = domain;
      parts = c.0;
      first_at = c.1;
      user_given = ground arith;
      domain_given = ground arith;
      dotted = ground arith;
      long = long;
      short = short;
    }

    accepted : is_valid_lightning_address addr ≡ true → IsAddress addr
    accepted e =
        parts_of (split_two at_sign addr) (split_two-CutAtFirst at_sign addr) (ground arith)
          (ground arith) (ground arith)

    complete : IsAddress addr → is_valid_lightning_address addr ≡ true
    complete a =
        let cut = split_two-first at_sign a.user a.domain a.first_at in
        let both = ap (split_two at_sign) a.parts ∙ cut in ground (arith, both)
