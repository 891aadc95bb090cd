-- ===== src/Gateway/Connections.antt =====
-- Proofs about the connections of internal/gateway/gateway.go.
use routecat.Prelude.{
  String, arith, eq_iff, false, none, refl, some, str_eq_refl, true, ◌==◌, ◌≡◌, ◌≢◌,
}
use routecat.Prelude.Dict.{lookup, lookup-erase, lookup-insert}
use routecat.Gateway.State.{Gateway, NodeConn}
use routecat.Gateway.Nodes.{Heartbeat, beat, disconnect, put_conn, with_heartbeat}
use routecat.Gateway.Handlers.{SameJobs}

module _ {F : Type 0} where
  -- The end of a connection takes its entry out of the live map only if the entry is still this
  -- connection: after a node has reconnected, the end of the old connection changes nothing, and the
  -- end of the new one removes the node.
  pub disconnect-put_conn :
      (ended current : NodeConn F) (g : Gateway F)
      → ended.node_id ≡ current.node_id
      → (ended.conn ≢ current.conn → disconnect ended (put_conn current g) ≡ put_conn current g)
        × (ended.conn ≡ current.conn
            → lookup current.node_id (disconnect ended (put_conn current g)).nodes ≡ none)
  unfolding disconnect
  disconnect-put_conn ended current g same =
      let there : lookup ended.node_id (put_conn current g).nodes ≡ some current =
        rw (same, lookup-insert, str_eq_refl current.node_id) refl in
      (
        λ other.
            let apart : (current.conn == ended.conn) ≡ false = ground arith in
            rw (disconnect, there, apart) refl,
        λ own.
            let hit : (current.conn == ended.conn) ≡ true = ground arith in
            rw (disconnect, there, hit, same, lookup-erase, str_eq_refl current.node_id) refl,
      )

  -- A heartbeat of a live connection is what the router and the other nodes see next: the node's entry
  -- has the reported numbers and keeps its models, and no job and no other node's entry changes.
  pub beat_lem :
      (hb : Heartbeat F) (nc : NodeConn F) (g : Gateway F)
      → lookup nc.node_id g.nodes ≡ some nc
      → (lookup nc.node_id (beat hb nc g).nodes ≡ some (with_heartbeat hb nc))
        × ((id : String) → id ≢ nc.node_id → lookup id (beat hb nc g).nodes ≡ lookup id g.nodes)
        × SameJobs g (beat hb nc g)
  unfolding beat
  beat_lem hb nc g live =
      let own : (nc.conn == nc.conn) ≡ true = ground arith in
      rw (beat, live, own)
        (
          rw (lookup-insert, str_eq_refl nc.node_id) refl,
          λ id other. rw lookup-insert (ground (arith, eq_iff nc.node_id id)),
          (refl, refl, refl),
        )
