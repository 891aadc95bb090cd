-- ===== src/Gateway/Admission.antt =====
-- Proofs about the registration and the buyers' requests of internal/gateway/gateway.go.
use routecat.Prelude.{
  Bool-cases, Option-cases, String, arith, eq_iff, false, find, inl, inr, none, refl, some, ℕ, ◌≡◌,
  ◌⊎◌,
}
use routecat.Prelude.Int.{pos, ◌≤ℤ◌}
use routecat.Http.{
  Body, Status, bad_request, bearer_key, created, decoded, forbidden, internal_error, invalid_json,
  unreadable,
}
use routecat.Store.Tables.{Db, Node, Tables}
use routecat.Store.Sql.{Result, err, ok}
use routecat.Store.Nodes.{has_api_key, has_node_id, register_node, upsert_node}
use routecat.Gateway.Register.{
  RegisterPayload, RegisterRequest, bad_address, handle_register, min_redeem_threshold_sats,
  node_of, refused, register_body, store_node,
}
use routecat.Store.Ensures.{Ensures, Ensures-statement}

-- What the registration has done, by its answer.
abbrev pub Registered : RegisterRequest → ℕ → Tables → Status → Tables → Type 0
Registered req now t Status.created u =
    (reg : RegisterPayload) × (req.body ≡ decoded reg)
    × (bearer_key req.authorization ≡ some reg.api_key)
    × (bad_address reg.lightning_address ≡ false)
    × (pos min_redeem_threshold_sats ≤ℤ reg.redeem_threshold)
    × (upsert_node (record (node_of reg) { last_seen = now }) t ≡ (ok tt, u))
Registered req now t Status.success u = ⊥
Registered req now t status u = u ≡ t

-- An upsert that has an error of its own writes nothing.
abbrev Upserted : Node → Tables → Result (Unit {0}) → Tables → Type 0
Upserted n t (ok _) u = upsert_node n t ≡ (ok tt, u)
Upserted n t (err e) u = u ≡ t

upsert_node-Upserted :
    (n : Node) (t : Tables) → Upserted n t (upsert_node n t).0 (upsert_node n t).1
upsert_node-Upserted n t = known (upsert_node n t).0 (upsert_node n t).1 refl
  where
    known : (r : Result (Unit {0})) (u : Tables) → upsert_node n t ≡ (r, u) → Upserted n t r u
    known (ok x) u e = e
    known (err x) u e = elim (Option-cases (find (has_node_id n.node_id) t.nodes)) [
      | inr (old, there) ↦ ground arith
      | inl new ↦ elim (Option-cases (find (has_api_key n.api_key) t.nodes)) [
        | inr (other, there) ↦ ground arith
        | inl unused ↦ ground arith
      ]
    ]

register_node-Upserted :
    (n : Node) (now : ℕ) (t : Tables)
    → Ensures (register_node n now) t (Upserted (record n { last_seen = now }) t)
unfolding register_node
register_node-Upserted n now t =
    Ensures-statement _ refl (upsert_node-Upserted (record n { last_seen = now }) t)

refused-none :
    (api_key : String) (reg : RegisterPayload)
    → refused api_key reg ≡ none
    → (reg.api_key ≡ api_key)
      × (bad_address reg.lightning_address ≡ false)
      × (pos min_redeem_threshold_sats ≤ℤ reg.redeem_threshold)
unfolding refused
refused-none api_key reg e = ground (arith, eq_iff reg.api_key api_key)

refused-some :
    (api_key : String) (reg : RegisterPayload) (status : Status)
    → refused api_key reg ≡ some status
    → (status ≡ forbidden) ⊎ (status ≡ bad_request)
unfolding refused
refused-some api_key reg status e = ground arith

module _ (req : RegisterRequest) (now : ℕ) (db : Db) where
  abbrev Outcome : Status × Db → Type 0
  Outcome out = Registered req now db.tables out.0 out.1.tables

  store_node-Registered :
      (reg : RegisterPayload)
      → req.body ≡ decoded reg
      → bearer_key req.authorization ≡ some reg.api_key
      → bad_address reg.lightning_address ≡ false
      → pos min_redeem_threshold_sats ≤ℤ reg.redeem_threshold
      → Outcome (store_node reg now db)
  unfolding store_node
  store_node-Registered reg body key address threshold =
      let out = register_node (node_of reg) now db in
      ending out.0 out.1 ((register_node-Upserted (node_of reg) now db.tables).at db.faults)
    where
      ending :
          (r : Result (Unit {0})) (db' : Db)
          → Upserted (record (node_of reg) { last_seen = now }) db.tables r db'.tables
          → Outcome (elim r [ err e ↦ (internal_error, db') | ok _ ↦ (created, db') ])
      ending (ok u) db' wrote = (reg, body, key, address, threshold, wrote)
      ending (err e) db' same = same

  body-Registered :
      (api_key : String) (body : Body RegisterPayload)
      → bearer_key req.authorization ≡ some api_key
      → req.body ≡ body
      → Outcome (register_body api_key body now db)
  unfolding register_body
  body-Registered api_key unreadable key is = refl
  body-Registered api_key invalid_json key is = refl
  body-Registered api_key (decoded reg) key is = elim (Option-cases (refused api_key reg)) [
    | inl e ↦
        let (same, address, threshold) = refused-none api_key reg e in
        rw (register_body, e) (store_node-Registered reg is (rw same key) address threshold)
    | inr (status, e) ↦ elim (refused-some api_key reg status e) [
      | inl is_forbidden ↦ rw (register_body, e, is_forbidden) refl
      | inr is_bad ↦ rw (register_body, e, is_bad) refl
    ]
  ]

  -- A registration is answered with `created` only if it came with its own key, an address that is
  -- empty or well formed and a threshold of at least 100 sats, and then the node is upserted; with
  -- every other answer, and whatever statement fails, no table changes.
  pub handle_register-Registered : Outcome (handle_register req now db)
  unfolding handle_register
  handle_register-Registered = elim (Bool-cases req.is_post) [
    | inr get ↦ rw (handle_register, get) refl
    | inl post ↦ elim (Option-cases (bearer_key req.authorization)) [
      | inl e ↦ rw (handle_register, post, e) refl
      | inr (api_key, e) ↦ rw (handle_register, post, e) (body-Registered api_key req.body e refl)
    ]
  ]
