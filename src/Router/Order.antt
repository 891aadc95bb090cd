-- ===== src/Router/Order.antt =====
-- Proofs about internal/router/router.go: the snapshot comes out of a Go map, which is iterated in no
-- fixed order.
use routecat.Prelude.{
  All, Any, Bool-cases, List, Option, String, [], ap, arith, false, if◌then◌else◌, inl, inr, none,
  refl, some, ◌∙◌, ◌∷◌, ◌≡◌,
}
use routecat.Prelude.Int.{eq_of_parts, ltb_ℤ, ℤ, ◌≤ℤ◌}
use routecat.Router.{NodeInfo, has_model, route_request}
use routecat.Router.Selection.{Chosen, IsShortest, Offers, route_request-Chosen}
use mathlib.Core.List.{Perm, Permᴰ}
use mathlib.Core.Logic.{∥∥₁_elim}
use mathlib.Core.Quot
use mathlib.Core.Quot.{Quot}

abbrev shorter : ℤ → Option ℤ → Option ℤ
shorter q none = some q
shorter q (some r) = some (if ltb_ℤ q r then q else r)

-- The shortest queue among the nodes that offer the model.
unfoldable pub least : String → List NodeInfo → Option ℤ
least model [] = none
least model (n ∷ ns) =
    if has_model n.models model then shorter n.queue_depth (least model ns) else least model ns

-- The snapshot, less the order of its nodes.
abbrev pub Snapshot : Type 0
Snapshot = Quot (λ (xs ys : List NodeInfo). Perm xs ys)

abbrev pub snapshot : List NodeInfo → Snapshot
snapshot = Quot.mk

shorter_twice : (q r : ℤ) (o : Option ℤ) → shorter q (shorter r o) ≡ shorter r (shorter q o)
shorter_twice q r none = ground (arith, eq_of_parts q r)
shorter_twice q r (some s) = ground (arith, eq_of_parts q r)

least-swap :
    (model : String) (x y : NodeInfo) (ns : List NodeInfo)
    → least model (x ∷ y ∷ ns) ≡ least model (y ∷ x ∷ ns)
unfolding least
least-swap model x y ns = elim (Bool-cases (has_model x.models model)) [
  | inr ex ↦ rw ex refl
  | inl ex ↦ elim (Bool-cases (has_model y.models model)) [
    | inr ey ↦ rw ey refl
    | inl ey ↦ rw (ex, ey) (shorter_twice _ _ _)
  ]
]

least-cons :
    (model : String) (x y : NodeInfo) (xs ys : List NodeInfo)
    → x ≡ y
    → least model xs ≡ least model ys
    → least model (x ∷ xs) ≡ least model (y ∷ ys)
unfolding least
least-cons model x y xs ys e h = rw (e, h) refl

pub least-Permᴰ :
    (model : String) {xs ys : List NodeInfo} → Permᴰ xs ys → least model xs ≡ least model ys
least-Permᴰ model Permᴰ.nil = refl
least-Permᴰ model (Permᴰ.cons e p) = least-cons model _ _ _ _ e (least-Permᴰ model p)
least-Permᴰ model (Permᴰ.swap e f) =
    least-cons model _ _ _ _ e (least-cons model _ _ _ _ f refl) ∙ least-swap model _ _ _
least-Permᴰ model (Permᴰ.trans p q) = least-Permᴰ model p ∙ least-Permᴰ model q

pub Option_ℤ-IsSet : IsSet (Option ℤ)
Option_ℤ-IsSet = hlevel

-- It is a function of the snapshot.
unfoldable pub least_queue : String → Snapshot → Option ℤ
least_queue model =
    Quot.lift Option_ℤ-IsSet (least model)
      (λ xs ys p. ∥∥₁_elim p (Option_ℤ-IsSet _ _) (least-Permᴰ model))

-- No node offers the model.
least_none :
    (model : String) (ns : List NodeInfo)
    → All (λ n. has_model n.models model ≡ false) ns
    → least model ns ≡ none
unfolding least
least_none model [] h = refl
least_none model (n ∷ ns) h = rw h.0 (least_none model ns h.1)

-- The minimum is no larger than a bound that the queues keep.
abbrev BoundedBy : ℤ → Option ℤ → Type 0
BoundedBy q none = Unit
BoundedBy q (some r) = q ≤ℤ r

least-BoundedBy :
    (model : String) (best : NodeInfo) (ns : List NodeInfo)
    → IsShortest model best ns
    → BoundedBy best.queue_depth (least model ns)
unfolding least
least-BoundedBy model best [] h = tt
least-BoundedBy model best (n ∷ ns) h = elim (Bool-cases (has_model n.models model)) [
  | inr e ↦ rw e (least-BoundedBy model best ns h.1)
  | inl e ↦ rw e (bound (least model ns) (h.0 e) (least-BoundedBy model best ns h.1))
]
  where
    bound :
        (o : Option ℤ)
        → best.queue_depth ≤ℤ n.queue_depth
        → BoundedBy best.queue_depth o
        → BoundedBy best.queue_depth (shorter n.queue_depth o)
    bound none le h = le
    bound (some r) le h = ground (arith)

-- Such a bound is the minimum if a node that offers the model attains it.
least-attained :
    (model : String) (best : NodeInfo) (ns : List NodeInfo)
    → IsShortest model best ns
    → Any (λ n. Offers model n × (best.queue_depth ≡ n.queue_depth)) ns
    → least model ns ≡ some best.queue_depth
unfolding least
least-attained model best [] h there = elim there [ ]
least-attained model best (n ∷ ns) h (inl (offers, same)) =
    rw offers (front (least model ns) (least-BoundedBy model best ns h.1))
  where
    front :
        (o : Option ℤ)
        → BoundedBy best.queue_depth o
        → shorter n.queue_depth o ≡ some best.queue_depth
    front none b = rw same refl
    front (some r) b =
        ground (arith, eq_of_parts r best.queue_depth, eq_of_parts n.queue_depth best.queue_depth)
least-attained model best (n ∷ ns) h (inr there) = elim (Bool-cases (has_model n.models model)) [
  | inr e ↦ rw e (least-attained model best ns h.1 there)
  | inl e ↦
      rw (e, least-attained model best ns h.1 there)
        (ground (arith, eq_of_parts n.queue_depth best.queue_depth, h.0 e))
]

-- The wait that an answer promises: its node's queue, or none where there is no node.
abbrev pub Waits : String → List NodeInfo → Option String → Option ℤ → Type 0
Waits model ns none q = q ≡ none
Waits model ns (some id) q =
    Any (λ n. (n.node_id ≡ id) × Offers model n × (q ≡ some n.queue_depth)) ns

module _ (model : String) (ns : List NodeInfo) where
  picked :
      (id : String) (ms : List NodeInfo)
      → ((n : NodeInfo)
          → IsShortest model n ns
          → Any (λ m. Offers model m × (n.queue_depth ≡ m.queue_depth)) ms
          → least model ns ≡ some n.queue_depth)
      → Any (λ n. (n.node_id ≡ id) × Offers model n × IsShortest model n ns) ms
      → Any (λ n. (n.node_id ≡ id) × Offers model n × (least model ns ≡ some n.queue_depth)) ms
  picked id [] l h = h
  picked id (m ∷ ms) l (inl (same, offers, all)) = inl (same, offers, l m all (inl (offers, refl)))
  picked id (m ∷ ms) l (inr there) = inr (picked id ms (λ n all h. l n all (inr h)) there)

  waits : (o : Option String) → Chosen model ns o → Waits model ns o (least model ns)
  waits none h = least_none model ns h
  waits (some id) h = picked id ns (λ n all there. least-attained model n ns all there) h

  -- The chosen node's queue is the least of the snapshot as a set.
  route_request-Waits :
      Waits model ns (route_request model (some ns)) (least_queue model (snapshot ns))
  unfolding least_queue
  route_request-Waits = waits _ (route_request-Chosen model ns)

-- Whatever the order of the snapshot, a request waits as long, and is refused or not.
pub route_request-reordered :
    (model : String) (ns ms : List NodeInfo)
    → Perm ns ms
    → (q : Option ℤ) × Waits model ns (route_request model (some ns)) q
      × Waits model ms (route_request model (some ms)) q
route_request-reordered model ns ms p =
    let same = ap (least_queue model) (Quot.sound p) in
    (
      least_queue model (snapshot ns),
      route_request-Waits model ns,
      rw same (route_request-Waits model ms),
    )
