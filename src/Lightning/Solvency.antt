-- ===== src/Lightning/Solvency.antt =====
-- Proofs about what internal/lightning/payout.go pays and internal/store/sqlite.go records.
use routecat.Prelude.{String, ◌^◌}
use routecat.Prelude.Int.{pos, ◌+ℤ◌, ◌<ℤ◌, ◌≤ℤ◌}
use routecat.Store.Tables.{Tables}
use routecat.Store.Jobs.{earned_total}
use routecat.Store.Payouts.{paid_total}
use routecat.Store.Ensures.{Ensures}
use routecat.Lightning.Client.{Client}

-- What each node has been paid is at most what it has earned, and the difference is an int64.
abbrev pub Solvent : Tables → Type 0
Solvent t =
    (node_id : String)
    → (paid_total node_id t ≤ℤ earned_total node_id t)
      × (earned_total node_id t <ℤ paid_total node_id t +ℤ pos (2 ^ 63))
