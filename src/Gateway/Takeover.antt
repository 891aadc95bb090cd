-- ===== src/Gateway/Takeover.antt =====
-- A registration over a node of another key, in internal/gateway/gateway.go.
use routecat.Prelude.{
  String, [], ap, arith, false, find, find-update_where, find-some, none, refl, some, str_eq_refl,
  true, update_where, ℕ, ◌∙◌, ◌≡◌,
}
use routecat.Prelude.Int.{pos, ◌≤ℤ◌}
use routecat.Http.{bearer_key, created, decoded}
use routecat.Store.Tables.{Db, Node, Tables}
use routecat.Store.Sql.{Result, ok, statement}
use routecat.Store.Nodes.{has_node_id, refresh, register_node}
use routecat.Gateway.Register.{
  RegisterPayload, bad_address, handle_register, min_redeem_threshold_sats, node_of, refused,
  register_body, store_node,
}

refused-passes :
    (reg : RegisterPayload)
    → bad_address reg.lightning_address ≡ false
    → pos min_redeem_threshold_sats ≤ℤ reg.redeem_threshold
    → refused reg.api_key reg ≡ none
unfolding refused
refused-passes reg address threshold = ground (arith, str_eq_refl reg.api_key)

register_node_known :
    (n : Node) (now : ℕ) (t : Tables) (old : Node)
    → find (has_node_id n.node_id) t.nodes ≡ some old
    → register_node n now (record { tables = t; faults = [] }) ≡ (
      ok tt,
      record {
        tables = record t {
          nodes =
              update_where (has_node_id n.node_id) (refresh (record n { last_seen = now })) t.nodes;
        };
        faults = [];
      },
    )
unfolding register_node statement
register_node_known n now t old there = ground arith

handle_register_existing :
    (reg : RegisterPayload) (now : ℕ) (t : Tables) (victim : Node) (authorization : String)
    → bearer_key authorization ≡ some reg.api_key
    → refused reg.api_key reg ≡ none
    → find (has_node_id reg.node_id) t.nodes ≡ some victim
    → handle_register
        (record { is_post = true; authorization = authorization; body = decoded reg })
        now
        (record { tables = t; faults = [] })
      ≡ (
        created,
        record {
          tables = record t {
            nodes =
                update_where
                  (has_node_id reg.node_id)
                  (refresh (record (node_of reg) { last_seen = now }))
                  t.nodes;
          };
          faults = [];
        },
      )
unfolding handle_register register_body store_node
handle_register_existing reg now t victim authorization key passed there =
    let known = register_node_known (node_of reg) now t victim there in
    rw (key, register_body, passed, store_node, known)
      (ap (λ (o : Result (Unit {0}) × Db). (created, o.1)) known)

-- A registration with the id of a node of another key, with an address and a threshold that pass
-- the tests and no statement that fails, is answered with `created`, keeps the old key in the row
-- and redirects the node's payouts to the address that it names.
pub handle_register_takes_over :
    (reg : RegisterPayload) (now : ℕ) (t : Tables) (victim : Node) (authorization : String)
    → bearer_key authorization ≡ some reg.api_key
    → bad_address reg.lightning_address ≡ false
    → pos min_redeem_threshold_sats ≤ℤ reg.redeem_threshold
    → find (has_node_id reg.node_id) t.nodes ≡ some victim
    → let out =
        handle_register
          (record { is_post = true; authorization = authorization; body = decoded reg })
          now
          (record { tables = t; faults = [] }) in
      (out.0 ≡ created)
      × ((n : Node) × (find (has_node_id reg.node_id) out.1.tables.nodes ≡ some n)
          × (n.api_key ≡ victim.api_key)
          × (n.lightning_addr ≡ reg.lightning_address))
handle_register_takes_over reg now t victim authorization key address threshold there =
    let passed = refused-passes reg address threshold in
    let new : Node = record (node_of reg) { last_seen = now } in
    let nodes = update_where (has_node_id reg.node_id) (refresh new) t.nodes in
    let same = find-some (has_node_id reg.node_id) victim t.nodes there in
    let done = handle_register_existing reg now t victim authorization key passed there in
    rw done (
      refl,
      (
        refresh new victim,
        find-update_where (has_node_id reg.node_id) (has_node_id reg.node_id) (refresh new)
              (λ x. refl) t.nodes
            ∙ rw (there, same) refl,
        refl,
        refl,
      ),
    )
