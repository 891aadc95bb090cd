-- ===== src/Router/Selection.antt =====
-- Proofs about `RouteRequest` in internal/router/router.go.
use routecat.Prelude.{
  All, Any, Bool-cases, List, Option, String, [], ap, arith, false, inl, inr, none, refl, some, sym,
  true, ◌∷◌, ◌≡◌, ◌⊎◌,
}
use routecat.Prelude.Int.{ltb_ℤ, ◌≤ℤ◌}
use routecat.Router.{NodeInfo, best_node, has_model, route_request}

abbrev pub Offers : String → NodeInfo → Type 0
Offers model n = has_model n.models model ≡ true

-- No node of the list that offers the model has a shorter queue than `best`.
abbrev pub IsShortest : String → NodeInfo → List NodeInfo → Type 0
IsShortest model best = All (λ n. Offers model n → best.queue_depth ≤ℤ n.queue_depth)

-- What the loop over `ns` makes of a best node `c` so far.
abbrev Improved : String → List NodeInfo → NodeInfo → Option NodeInfo → Type 0
Improved model ns c none = ⊥
Improved model ns c (some r) =
    ((r ≡ c) ⊎ Any (λ n. (n ≡ r) × Offers model n) ns)
    × (r.queue_depth ≤ℤ c.queue_depth)
    × IsShortest model r ns

module _ (model : String) (n : NodeInfo) (ns : List NodeInfo) where
  skip :
      (c : NodeInfo) (o : Option NodeInfo)
      → has_model n.models model ≡ false
      → Improved model ns c o
      → Improved model (n ∷ ns) c o
  skip c none e h = h
  skip c (some r) e (inl same, le, all) = (inl same, le, ((λ offers. cc), all))
  skip c (some r) e (inr there, le, all) = (inr (inr there), le, ((λ offers. cc), all))

  keep :
      (c : NodeInfo) (o : Option NodeInfo)
      → c.queue_depth ≤ℤ n.queue_depth
      → Improved model ns c o
      → Improved model (n ∷ ns) c o
  keep c none e h = h
  keep c (some r) e (inl same, le, all) = (inl same, le, ((λ offers. omega arith), all))
  keep c (some r) e (inr there, le, all) = (inr (inr there), le, ((λ offers. omega arith), all))

  take_over :
      (c : NodeInfo) (o : Option NodeInfo)
      → Offers model n
      → n.queue_depth ≤ℤ c.queue_depth
      → Improved model ns n o
      → Improved model (n ∷ ns) c o
  take_over c none offers e h = h
  take_over c (some r) offers e (inl same, le, all) =
      (inr (inl (sym same, offers)), omega arith, ((λ _. le), all))
  take_over c (some r) offers e (inr there, le, all) =
      (inr (inr there), omega arith, ((λ _. le), all))

best_node-Improved :
    (model : String) (ns : List NodeInfo) (c : NodeInfo)
    → Improved model ns c (best_node model ns (some c))
unfolding best_node
best_node-Improved model [] c = (inl refl, omega arith, tt)
best_node-Improved model (n ∷ ns) c = elim (Bool-cases (has_model n.models model)) [
  | inr e ↦ rw e (skip model n ns c _ e (best_node-Improved model ns c))
  | inl e ↦ elim (Bool-cases (ltb_ℤ n.queue_depth c.queue_depth)) [
    | inl shorter ↦
        rw (e, shorter) (take_over model n ns c _ e (ground arith) (best_node-Improved model ns n))
    | inr longer ↦
        rw (e, longer) (keep model n ns c _ (ground arith) (best_node-Improved model ns c))
  ]
]

-- What the answer says of the snapshot.
abbrev pub Chosen : String → List NodeInfo → Option String → Type 0
Chosen model nodes none = All (λ n. has_model n.models model ≡ false) nodes
Chosen model nodes (some id) =
    Any (λ n. (n.node_id ≡ id) × Offers model n × IsShortest model n nodes) nodes

abbrev Best : String → List NodeInfo → Option NodeInfo → Type 0
Best model ns none = All (λ n. has_model n.models model ≡ false) ns
Best model ns (some r) = Any (λ n. (n ≡ r) × Offers model n) ns × IsShortest model r ns

best_node-Best : (model : String) (ns : List NodeInfo) → Best model ns (best_node model ns none)
unfolding best_node
best_node-Best model [] = tt
best_node-Best model (n ∷ ns) = elim (Bool-cases (has_model n.models model)) [
  | inr e ↦ rw e (skip_none _ (best_node-Best model ns) e)
  | inl e ↦ rw e (first _ e (best_node-Improved model ns n))
]
  where
    skip_none :
        (o : Option NodeInfo)
        → Best model ns o
        → has_model n.models model ≡ false
        → Best model (n ∷ ns) o
    skip_none none h e = (e, h)
    skip_none (some r) (there, all) e = (inr there, ((λ offers. cc), all))

    first : (o : Option NodeInfo) → Offers model n → Improved model ns n o → Best model (n ∷ ns) o
    first none offers h = absurd h
    first (some r) offers (inl same, le, all) = (inl (sym same, offers), ((λ _. le), all))
    first (some r) offers (inr there, le, all) = (inr there, ((λ _. le), all))

pub route_request-Chosen :
    (model : String) (nodes : List NodeInfo) → Chosen model nodes (route_request model (some nodes))
unfolding route_request
route_request-Chosen model nodes = answer _ (best_node-Best model nodes)
  where
    named :
        (r : NodeInfo) (ns : List NodeInfo)
        → IsShortest model r nodes
        → Any (λ n. (n ≡ r) × Offers model n) ns
        → Any (λ n. (n.node_id ≡ r.node_id) × Offers model n × IsShortest model n nodes) ns
    named r [] all h = h
    named r (n ∷ ns) all (inl (same, offers)) =
        inl (ap (λ (m : NodeInfo). m.node_id) same, offers, rw same all)
    named r (n ∷ ns) all (inr there) = inr (named r ns all there)

    answer :
        (o : Option NodeInfo)
        → Best model nodes o
        → Chosen model nodes (elim o [ none ↦ none | some best ↦ some best.node_id ])
    answer none h = h
    answer (some r) (there, all) = named r nodes all there
