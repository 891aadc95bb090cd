-- ===== src/Store/Refinement.antt =====
-- Proofs that the account calls of internal/store/sqlite.go implement the maps of Store.Spec.
use routecat.Store.Tables.{Tables}
use routecat.Store.Sql.{Sql}
use routecat.Store.Ensures.{Ensures}
