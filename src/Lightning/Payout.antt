-- ===== src/Lightning/Payout.antt =====
-- internal/lightning/payout.go: the payout engine, which pays the nodes what they have earned.
use routecat.Prelude.{
  Bool, List, Option, String, [], if◌then◌else◌, ltb, none, some, str_eq, ℕ, ◌&&◌, ◌*◌, ◌+◌, ◌∷◌,
}
use routecat.Prelude.Int.{leb_ℤ, ltb_ℤ, pos, quot_ℤ, scale_ℤ, wrap64, ℤ, ◌+ℤ◌}
use routecat.Store.Tables.{Db, Node, PayoutStatus}
use routecat.Store.Sql.{err, ok}
use routecat.Store.Payouts.{node_balance, pending_payouts, record_payout}
use routecat.Gateway.State.{second}
use routecat.Lightning.Client.{Client}

-- Satoshis paid in the hour that began at `hour_start`, and their bound (0 for none). The channel for
-- payments may be missing.
pub record PayoutEngine (W : Type 0) : Type 0 where
  pub ln : Option (Client W)
  pub max_per_hour : ℤ
  pub spent_this_hour : ℤ
  pub hour_start : ℕ

-- The engine with what it acts on. `paid` is the log of `paid %d sats`, the last line first: the node
-- and the amount. `spent` is the round's own copy of the counter.
pub record Round (W : Type 0) : Type 0 where
  pub engine : PayoutEngine W
  pub spent : ℤ
  pub db : Db
  pub world : W
  pub paid : List (String × ℤ)

abbrev pub hour : ℕ
hour = 3600 * second

-- The counter at the start of a round: it is reset if the hour has passed.
unfoldable pub begin_hour : {W : Type 0} → ℕ → PayoutEngine W → PayoutEngine W
begin_hour now pe =
    if ltb (pe.hour_start + hour) now
    then record pe { spent_this_hour = pos 0; hour_start = now }
    else pe

abbrev pub over_cap : ℤ → ℤ → ℤ → Bool
over_cap max_per_hour spent payout_sats =
    ltb_ℤ (pos 0) max_per_hour && ltb_ℤ max_per_hour (wrap64 (spent +ℤ payout_sats))

-- The tests before a payment: what the node gets, in sats.
unfoldable pub amount_due : ℤ → ℤ → Node → ℤ → Option ℤ
amount_due max_per_hour spent n balance =
    let payout_sats = quot_ℤ balance 1000 in
    if leb_ℤ balance (pos 0)
    then none
    else if ltb_ℤ payout_sats n.redeem_threshold
    then none
    else if over_cap max_per_hour spent payout_sats
    then none
    else if str_eq n.lightning_addr ""
    then none
    else some payout_sats

module _ {W : Type 0} where
  -- A payment with a hash is recorded and counted; if the record fails the code only logs it.
  unfoldable pub settle : Node → ℤ → String → ℕ → Round W → Round W
  settle n payout_sats hash now r =
      let (_, db') =
        record_payout n.node_id (wrap64 (scale_ℤ payout_sats 1000)) hash PayoutStatus.confirmed now
          r.db in
      let pe = r.engine in
      record r {
        engine = record pe { spent_this_hour = wrap64 (pe.spent_this_hour +ℤ payout_sats) };
        spent = wrap64 (r.spent +ℤ payout_sats);
        db = db';
        paid = (n.node_id, payout_sats) ∷ r.paid;
      }

  unfoldable pub send_payout : Client W → Node → ℤ → ℕ → Round W → Round W
  unfolding settle
  send_payout ln n payout_sats now r =
      let (reply, w) = ln.pay_address n.lightning_addr payout_sats r.world in
      let r' = record r { world = w } in
      elim reply [
        | none ↦ r'
        | some hash ↦ if str_eq hash "" then r' else settle n payout_sats hash now r'
      ]

  unfoldable pub pay_node : Client W → ℕ → Node → Round W → Round W
  unfolding send_payout amount_due
  pay_node ln now n r =
      let (answer, db') = node_balance n.node_id r.db in
      let r' = record r { db = db' } in
      elim answer [
        | err e ↦ r'
        | ok balance ↦ elim (amount_due r.engine.max_per_hour r.spent n balance) [
          | none ↦ r'
          | some payout_sats ↦ send_payout ln n payout_sats now r'
        ]
      ]

  unfoldable pub pay_nodes : Client W → ℕ → List Node → Round W → Round W
  unfolding pay_node
  pay_nodes ln now [] r = r
  pay_nodes ln now (n ∷ ns) r = pay_nodes ln now ns (pay_node ln now n r)

  -- The start of a round: the counter, and the round's copy of it.
  abbrev pub open_round : ℕ → PayoutEngine W → Db → W → Round W
  open_round now pe db world =
      let pe' = begin_hour now pe in
      record { engine = pe'; spent = pe'.spent_this_hour; db = db; world = world; paid = [] }

  unfoldable pub process_payouts : Client W → ℕ → PayoutEngine W → Db → W → Round W
  unfolding pay_nodes begin_hour
  process_payouts ln now pe db world =
      let r = open_round now pe db world in
      let (answer, db') = pending_payouts db in
      let r' = record r { db = db' } in
      elim answer [ err e ↦ r' | ok nodes ↦ pay_nodes ln now nodes r' ]

  -- One tick of the loop.
  unfoldable pub payout_tick : ℕ → PayoutEngine W → Db → W → Round W
  unfolding process_payouts
  payout_tick now pe db world = elim pe.ln [
    | none ↦ record { engine = pe; spent = pe.spent_this_hour; db = db; world = world; paid = [] }
    | some ln ↦ process_payouts ln now pe db world
  ]
