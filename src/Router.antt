-- ===== src/Router.antt =====
-- internal/router/router.go: the choice of a node for a request, and the models on offer.
-- `none` is a router whose source is not wired yet; a source is the snapshot that it returns.
pub mod Selection
pub mod Models
pub mod Order
use routecat.Prelude.{
  Bool, List, Option, String, [], false, if◌then◌else◌, none, not, some, str_eq, true, ◌++◌, ◌||◌,
  ◌∷◌,
}
use routecat.Prelude.Int.{ltb_ℤ, ℤ}

pub record NodeInfo : Type 0 where
  pub node_id : String
  pub models : List String
  pub vram_free_mb : ℤ
  pub region : String
  pub queue_depth : ℤ

abbrev pub Source : Type 0
Source = Option (List NodeInfo)

unfoldable pub has_model : List String → String → Bool
has_model [] target = false
has_model (m ∷ ms) target = str_eq m target || has_model ms target

-- best == nil || n.QueueDepth < best.QueueDepth
unfoldable pub improves : NodeInfo → Option NodeInfo → Bool
improves n none = true
improves n (some best) = ltb_ℤ n.queue_depth best.queue_depth

-- The loop over the snapshot, with the best node so far.
unfoldable pub best_node : String → List NodeInfo → Option NodeInfo → Option NodeInfo
unfolding improves
best_node model [] best = best
best_node model (n ∷ ns) best =
    best_node model ns
      (if not (has_model n.models model) then best else if improves n best then some n else best)

-- `none` is ErrNoNode.
unfoldable pub route_request : String → Source → Option String
unfolding best_node
route_request model none = none
route_request model (some nodes) = elim (best_node model nodes none) [
  | none ↦ none
  | some best ↦ some best.node_id
]

-- The inner loop, over one node's models; a model is in `out` exactly if it is in the `seen` map.
unfoldable pub add_models : List String → List String → List String
unfolding has_model
add_models out [] = out
add_models out (m ∷ ms) = add_models (if has_model out m then out else out ++ m ∷ []) ms

unfoldable pub collect_models : List String → List NodeInfo → List String
unfolding add_models
collect_models out [] = out
collect_models out (n ∷ ns) = collect_models (add_models out n.models) ns

unfoldable pub available_models : Source → List String
unfolding collect_models
available_models none = []
available_models (some nodes) = collect_models [] nodes
