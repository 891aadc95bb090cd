-- ===== src/Store/Users.antt =====
-- internal/store/sqlite.go: user API keys and their balances.
use routecat.Prelude.{
  Bool, String, [], count, find, if◌then◌else◌, none, some, str_eq, update_where, ℕ, ◌&&◌, ◌++◌,
  ◌/◌, ◌==◌, ◌∷◌,
}
use routecat.Prelude.Int.{ltb_ℤ, pos, wrap64, ℤ, ◌+ℤ◌, ◌-ℤ◌}
use routecat.Store.Tables.{ApiKey, Job, Tables}
use routecat.Store.Sql.{
  Ending, Result, Sql, commit, constraint, err, insufficient_balance, no_rows, ok, or_zero, pure,
  raise, select, statement, transaction, ◌>>=◌, ◌>>◌,
}

abbrev pub has_key : String → ApiKey → Bool
has_key key row = str_eq row.key key

-- SELECT user_id, quota_daily FROM api_keys WHERE key=?
abbrev pub user_quota : String → Tables → Result (String × ℤ)
user_quota key t = elim (find (has_key key) t.api_keys) [
  | none ↦ err no_rows
  | some row ↦ ok (row.user_id, row.quota_daily)
]

abbrev pub seconds_per_day : ℕ
seconds_per_day = 86400

-- SELECT COUNT(*) FROM jobs WHERE user_key=? AND date(started_at)=date('now')
abbrev pub used_today : String → ℕ → Tables → ℤ
used_today key now t = pos (count counted t.jobs)
  where
    counted : Job → Bool
    counted j = str_eq j.user_key key && (j.started_at / seconds_per_day) == (now / seconds_per_day)

-- The user's id and what is left of the daily quota.
unfoldable pub validate_user_key : String → ℕ → Sql (String × ℤ)
validate_user_key key now = do
  (user_id, quota_daily) ← select (user_quota key)
  used ← or_zero (pos 0) (select (λ t. ok (used_today key now t)))
  pure (user_id, wrap64 (quota_daily -ℤ used))

-- INSERT INTO api_keys; the key is the primary key, the balance starts at 0
abbrev insert_user_key : ApiKey → Tables → Result (Unit {0}) × Tables
insert_user_key row t = elim (find (has_key row.key) t.api_keys) [
  | none ↦ (ok tt, record t { api_keys = t.api_keys ++ row ∷ [] })
  | some _ ↦ (err constraint, t)
]

unfoldable pub create_user_key : String → String → String → ℤ → Sql (Unit {0})
create_user_key key user_id name quota_daily = statement (
    insert_user_key (record {
      key = key;
      user_id = user_id;
      name = name;
      quota_daily = quota_daily;
      balance_msats = pos 0;
    }))

-- SELECT balance_msats FROM api_keys WHERE key=?
abbrev pub read_balance : String → Tables → Result ℤ
read_balance key t = elim (find (has_key key) t.api_keys) [
  | none ↦ err no_rows
  | some row ↦ ok row.balance_msats
]

unfoldable pub user_balance : String → Sql ℤ
user_balance key = select (read_balance key)

abbrev pub plus_balance : ℤ → ApiKey → ApiKey
plus_balance amount row = record row { balance_msats = row.balance_msats +ℤ amount }

abbrev pub minus_balance : ℤ → ApiKey → ApiKey
minus_balance amount row = record row { balance_msats = row.balance_msats -ℤ amount }

-- UPDATE api_keys SET balance_msats = balance_msats + ? WHERE key=?
abbrev pub add_balance : String → ℤ → Tables → Tables
add_balance key amount t = record t {
  api_keys = update_where (has_key key) (plus_balance amount) t.api_keys;
}

-- UPDATE api_keys SET balance_msats = balance_msats - ? WHERE key=?
abbrev pub subtract_balance : String → ℤ → Tables → Tables
subtract_balance key amount t = record t {
  api_keys = update_where (has_key key) (minus_balance amount) t.api_keys;
}

deduct_body : String → ℤ → Sql (Ending (Unit {0}))
deduct_body key amount = do
  current ← select (read_balance key)
  if ltb_ℤ current amount
      then raise (insufficient_balance current amount)
      else (do statement (λ t. (ok tt, subtract_balance key amount t)); pure (commit tt))

unfoldable pub deduct_balance : String → ℤ → Sql (Unit {0})
unfolding deduct_body
deduct_balance key amount = transaction (deduct_body key amount)
