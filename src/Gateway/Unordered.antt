-- ===== src/Gateway/Unordered.antt =====
-- Proofs about LiveNodeInfos in internal/gateway/gateway.go with RouteRequest and AvailableModels in
-- internal/router/router.go: the hub's nodes are a Go map, whose order of iteration is arbitrary.
use routecat.Prelude.{Bool, List, Option, String, arith, refl, some, sym, ◌||◌, ◌∙◌, ◌≡◌}
use routecat.Prelude.Int.{ℤ}
use routecat.Router.{NodeInfo, available_models, has_model, route_request}
use routecat.Router.Models.{available_models_lem, offered}
use routecat.Router.Order.{Waits, route_request-reordered}
use routecat.Gateway.State.{Gateway}
use routecat.Gateway.Nodes.{live_node_infos, node_info}
use mathlib.Core.List.{Perm, Permᴰ}
use mathlib.Core.List.Perm
use mathlib.Core.Logic.{∥∥₁_elim}

offered-Permᴰ : (m : String) {xs ys : List NodeInfo} → Permᴰ xs ys → offered m xs ≡ offered m ys
offered-Permᴰ m Permᴰ.nil = refl
offered-Permᴰ m (Permᴰ.cons e p) = rw (e, offered-Permᴰ m p) refl
offered-Permᴰ m (Permᴰ.swap {a} {b} {a'} {b'} {l} e f) =
    rw (e, f) (or_swap (has_model b'.models m) (has_model a'.models m) (offered m l))
  where
    or_swap : (x y z : Bool) → (x || (y || z)) ≡ (y || (x || z))
    or_swap x y z = ground arith
offered-Permᴰ m (Permᴰ.trans p q) = offered-Permᴰ m p ∙ offered-Permᴰ m q

-- Two iteration orders of the same models give the same models.
abbrev pub SameModels : List String → List String → Type 0
SameModels xs ys = (m : String) → has_model xs m ≡ has_model ys m

module _ {F : Type 0} (g h : Gateway F) where
  -- What the router answers does not hang on the order in which the hub's map of nodes is iterated:
  -- for two orders of the same nodes a request for a model is refused in both or in neither, the nodes
  -- chosen have queues of the same length, and the same models are on offer.
  pub route_any_order :
      (model : String)
      → Perm g.nodes h.nodes
      → ((q : Option ℤ) × Waits model
            (live_node_infos g)
            (route_request model (some (live_node_infos g)))
            q
          × Waits model (live_node_infos h) (route_request model (some (live_node_infos h))) q)
        × SameModels
            (available_models (some (live_node_infos g)))
            (available_models (some (live_node_infos h)))
  unfolding live_node_infos
  route_any_order model p =
      let infos = Perm.map (λ e. node_info e.1) p in
      (
        route_request-reordered model _ _ infos,
        λ m.
            (available_models_lem (live_node_infos g)).1 m
            ∙ ∥∥₁_elim infos (hlevel) (offered-Permᴰ m)
            ∙ sym ((available_models_lem (live_node_infos h)).1 m),
      )
