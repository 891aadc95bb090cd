-- ===== src/Api/Accounts.antt =====
-- internal/api/api.go: the keys of the users, their invoices and their balance.
use routecat.Prelude.{
  Bool, Option, String, [], if◌then◌else◌, none, not, some, str_eq, ℕ, ◌*◌, ◌||◌,
}
use routecat.Prelude.Int.{leb_ℤ, ltb_ℤ, pos, quot_ℤ, scale_ℤ, wrap64, ℤ}
use routecat.Http.{
  Body, Status, bad_request, bearer_key, decoded, internal_error, invalid_json, method_not_allowed,
  service_unavailable, success, too_many_requests, unauthorized, unreadable,
}
use routecat.Store.Tables.{Db}
use routecat.Store.Sql.{err, ok}
use routecat.Store.Users.{create_user_key, user_balance, validate_user_key}
use routecat.Store.Invoices.{create_invoice}
use routecat.RateLimiter.{RateLimiter, allow, cleanup}
use routecat.Lightning.Client.{Client}
use routecat.Gateway.State.{second, seconds}

abbrev pub registrations_per_hour : ℕ
registrations_per_hour = 3

-- a.regLimit with the limit and the window that the handler writes out.
abbrev pub new_reg_limit : RateLimiter
new_reg_limit = record { requests = []; limit = registrations_per_hour; window = 3600 * second }

-- One tick of cleanupRegLimit, which is the rate limiter's cleanup written out.
unfoldable pub cleanup_reg_limit : RateLimiter → ℕ → RateLimiter
cleanup_reg_limit rl now = cleanup rl now

pub record RegisterUserRequest : Type 0 where
  pub is_post : Bool
  pub remote_addr : String
  -- X-Real-Ip, empty if it is missing
  pub real_ip : String
  -- the name
  pub body : Body String

abbrev pub client_ip : String → String → String
client_ip remote_addr real_ip = if str_eq real_ip "" then remote_addr else real_ip

abbrev pub name_or_default : String → String
name_or_default name = if str_eq name "" then "default" else name

abbrev pub free_quota : ℤ
free_quota = pos 10

-- The key and the user's id are random; `none` is a failure of the source of randomness.
unfoldable pub create_key : Option (String × String) → Body String → Db → Status × Db
create_key fresh unreadable db = (bad_request, db)
create_key fresh invalid_json db = (bad_request, db)
create_key fresh (decoded name) db = elim fresh [
  | none ↦ (internal_error, db)
  | some (key, user_id) ↦
      let (r, db') = create_user_key key user_id (name_or_default name) free_quota db in
      elim r [ err e ↦ (internal_error, db') | ok _ ↦ (success, db') ]
]

unfoldable pub handle_register_user :
    RegisterUserRequest
    → Option (String × String)
    → ℕ
    → RateLimiter
    → Db
    → Status × (RateLimiter × Db)
unfolding create_key
handle_register_user req fresh now limiter db =
    if not req.is_post
    then (method_not_allowed, (limiter, db))
    else (let (allowed, limiter') = allow limiter (client_ip req.remote_addr req.real_ip) now in
        let (status, db') = create_key fresh req.body db in
        if not allowed then (too_many_requests, (limiter', db)) else (status, (limiter', db')))

pub record TopUpRequest : Type 0 where
  pub is_post : Bool
  pub authorization : String
  -- amount_sats
  pub body : Body ℤ

-- The amount of a request, if it is one that the handler accepts.
unfoldable pub top_up_amount : Body ℤ → Option ℤ
top_up_amount unreadable = none
top_up_amount invalid_json = none
top_up_amount (decoded sats) =
    if leb_ℤ sats (pos 0)
    then none
    else if ltb_ℤ sats (pos 10) || ltb_ℤ (pos 100000) sats
    then none
    else some sats

module _ {W : Type 0} where
  -- The invoice of the Lightning node is stored under its payment hash.
  unfoldable pub issue_invoice : Option (Client W) → String → ℤ → ℕ → Db × W → Status × (Db × W)
  issue_invoice none user_key sats now s = (service_unavailable, s)
  issue_invoice (some ln) user_key sats now (db, world) =
      let (answer, world') = ln.create_invoice sats "RouteCat top-up" world in
      elim answer [
        | none ↦ (internal_error, (db, world'))
        | some (bolt11, hash) ↦
            let (r, db') =
              create_invoice hash user_key (wrap64 (scale_ℤ sats 1000)) bolt11 (seconds now) db in
            elim r [ err e ↦ (internal_error, (db', world')) | ok _ ↦ (success, (db', world')) ]
      ]

  unfoldable pub top_up_user : Option (Client W) → Body ℤ → String → ℕ → Db × W → Status × (Db × W)
  unfolding issue_invoice top_up_amount
  top_up_user ln body user_key now (db, world) =
      let (r, db') = validate_user_key user_key (seconds now) db in
      elim r [
        | err e ↦ (unauthorized, (db', world))
        | ok _ ↦ elim (top_up_amount body) [
          | none ↦ (bad_request, (db', world))
          | some sats ↦ issue_invoice ln user_key sats now (db', world)
        ]
      ]

  unfoldable pub handle_top_up : Option (Client W) → TopUpRequest → ℕ → Db × W → Status × (Db × W)
  unfolding top_up_user
  handle_top_up ln req now s =
      if not req.is_post then (method_not_allowed, s) else (elim (bearer_key req.authorization) [
        | none ↦ (unauthorized, s)
        | some user_key ↦ top_up_user ln req.body user_key now s
      ])

-- HandleBalance: the balance in msats and in sats, and what is left of the free quota.
unfoldable pub handle_balance : String → ℕ → Db → (Status × Option (ℤ × ℤ × ℤ)) × Db
handle_balance authorization now db = elim (bearer_key authorization) [
  | none ↦ ((unauthorized, none), db)
  | some user_key ↦
      let (r, db') = user_balance user_key db in
      elim r [
        | err e ↦ ((unauthorized, none), db')
        | ok balance ↦
            let (quota, db'') = validate_user_key user_key (seconds now) db' in
            let remaining : ℤ = elim quota [ ok (id, left) ↦ left | err e ↦ pos 0 ] in
            ((success, some (balance, quot_ℤ balance 1000, remaining)), db'')
      ]
]
