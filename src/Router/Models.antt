-- ===== src/Router/Models.antt =====
-- Proofs about `AvailableModels` in internal/router/router.go.
use routecat.Prelude.{
  Bool, Bool-cases, List, String, [], arith, eq_iff, false, inl, inr, refl, some, str_eq, ◌++◌,
  ◌||◌, ◌∷◌, ◌≡◌,
}
use routecat.Router.{NodeInfo, add_models, available_models, collect_models, has_model}

-- Some node of the snapshot has the model.
abbrev pub offered : String → List NodeInfo → Bool
offered m [] = false
offered m (n ∷ ns) = has_model n.models m || offered m ns

abbrev pub NoneTwice : List String → Type 0
NoneTwice [] = Unit
NoneTwice (m ∷ ms) = (has_model ms m ≡ false) × NoneTwice ms

has_model-append :
    (xs : List String) (y m : String) → has_model (xs ++ y ∷ []) m ≡ (has_model xs m || str_eq y m)
unfolding has_model
has_model-append [] y m = ground arith
has_model-append (x ∷ xs) y m = ground (arith, has_model-append xs y m)

NoneTwice-append :
    (xs : List String) (y : String)
    → NoneTwice xs
    → has_model xs y ≡ false
    → NoneTwice (xs ++ y ∷ [])
unfolding has_model
NoneTwice-append [] y h e = (refl, tt)
NoneTwice-append (x ∷ xs) y h e =
    ground (arith, NoneTwice-append xs y h.1, has_model-append xs y x, eq_iff x y, eq_iff y x)

has_model-add :
    (out ms : List String) (m : String)
    → has_model (add_models out ms) m ≡ (has_model out m || has_model ms m)
unfolding add_models has_model
has_model-add out [] m = ground arith
has_model-add out (x ∷ ms) m = elim (Bool-cases (has_model out x)) [
  | inl old ↦ rw (old, has_model-add out ms m) (ground (arith, eq_iff x m))
  | inr new ↦ rw (new, has_model-add (out ++ x ∷ []) ms m, has_model-append out x m) (ground arith)
]

NoneTwice-add : (out ms : List String) → NoneTwice out → NoneTwice (add_models out ms)
unfolding add_models
NoneTwice-add out [] h = h
NoneTwice-add out (x ∷ ms) h = elim (Bool-cases (has_model out x)) [
  | inl old ↦ rw old (NoneTwice-add out ms h)
  | inr new ↦ rw new (NoneTwice-add (out ++ x ∷ []) ms (NoneTwice-append out x h new))
]

collect_models_lem :
    (out : List String) (ns : List NodeInfo)
    → NoneTwice out
    → NoneTwice (collect_models out ns)
      × ((m : String) → has_model (collect_models out ns) m ≡ (has_model out m || offered m ns))
unfolding collect_models
collect_models_lem out [] h = (h, λ m. ground arith)
collect_models_lem out (n ∷ ns) h =
    let ih = collect_models_lem (add_models out n.models) ns (NoneTwice-add out n.models h) in
    (ih.0, λ m. rw (ih.1 m, has_model-add out n.models m) (ground arith))

-- The models on offer: none stands twice, and a model is listed exactly if a connected node has it.
pub available_models_lem :
    (ns : List NodeInfo)
    → NoneTwice (available_models (some ns))
      × ((m : String) → has_model (available_models (some ns)) m ≡ offered m ns)
unfolding available_models
available_models_lem ns =
    let (once, listed) = collect_models_lem [] ns tt in
    (once, λ m. rw (listed m) (unfold has_model in refl))
