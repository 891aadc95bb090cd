-- ===== src/Text/Split.antt =====
-- Proofs about the splitting functions of Text.
use routecat.Prelude.{
  All, Bool-cases, Option, [], ap, arith, if◌then◌else◌, inl, inr, none, some, ℕ, ◌++◌, ◌==◌, ◌∷◌,
  ◌≡◌, ◌≢◌,
}
use routecat.Text.{Text, split_two}

abbrev pub Absent : ℕ → Text → Type 0
Absent sep = All (λ c. c ≢ sep)

-- The text is cut at its first separator, or has none.
abbrev pub CutAtFirst : ℕ → Text → Option (Text × Text) → Type 0
CutAtFirst sep s none = Absent sep s
CutAtFirst sep s (some (left, right)) = (s ≡ left ++ sep ∷ right) × Absent sep left

pub split_two-CutAtFirst : (sep : ℕ) (s : Text) → CutAtFirst sep s (split_two sep s)
unfolding split_two
split_two-CutAtFirst sep [] = tt
split_two-CutAtFirst sep (c ∷ s) = cut (split_two sep s) (split_two-CutAtFirst sep s)
  where
    cut :
        (o : Option (Text × Text))
        → CutAtFirst sep s o
        → CutAtFirst sep (c ∷ s) (
            if c == sep
            then some ([], s)
            else (elim o [ none ↦ none | some (left, right) ↦ some (c ∷ left, right) ]))
    cut none h = elim (Bool-cases (c == sep)) [
      | inl e ↦ rw e (ground arith)
      | inr e ↦ rw e (ground arith, h)
    ]
    cut (some (left, right)) h = elim (Bool-cases (c == sep)) [
      | inl e ↦ rw e (ground arith)
      | inr e ↦ rw e (ap (λ (t : Text). c ∷ t) h.0, (ground arith, h.1))
    ]

-- And where a text has the separator, it is cut there.
pub split_two-first :
    (sep : ℕ) (left right : Text)
    → Absent sep left
    → split_two sep (left ++ sep ∷ right) ≡ some (left, right)
unfolding split_two
split_two-first sep [] right absent = ground arith
split_two-first sep (c ∷ left) right absent =
    rw (split_two-first sep left right absent.1) (ground arith)
