-- ===== src/Batcher/Singleton.antt =====
-- The batcher that all clients of a process share: `get_batcher` and `shutdown_batcher` of
-- cycletls/_batcher.py. A batcher is named by a number; the lock makes each function one step.
use cycletls_python.Base.{
  ℕ, List, [], ◌∷◌, Option, none, some, length, ◌≡◌, refl, Option-cases, inl, inr,
}

-- The batcher in use, the batch sizes of those that were made, and those that were shut down.
pub record Batchers : Type 0 where
  pub current : Option ℕ
  pub sizes : List ℕ
  pub shut : List ℕ

unfoldable pub start : Batchers
start = record { current = none; sizes = []; shut = [] }

-- RequestBatcher(batch_size=...)
unfoldable pub make : ℕ → Batchers → Batchers
make size b = record b { current = some (length b.sizes); sizes = size ∷ b.sizes }

-- get_batcher
unfoldable pub get_batcher : ℕ → Batchers → ℕ × Batchers
unfolding make
get_batcher size b = elim b.current [ some id ↦ (id, b) | none ↦ (length b.sizes, make size b) ]

-- shutdown_batcher
unfoldable pub shutdown_batcher : Batchers → Batchers
shutdown_batcher b = elim b.current [
  | none ↦ b
  | some id ↦ record { current = none; sizes = b.sizes; shut = id ∷ b.shut }
]

-- A second client gets the batcher of the first one, with the size that the first one asked for;
-- when either of them closes, the other one is left with a batcher that is shut down.
shared_batcher :
    (size size' : ℕ) (b : Batchers)
    → let (id, first) = get_batcher size b in
      let (id', second) = get_batcher size' first in
      (id' ≡ id) × (second ≡ first) × ((shutdown_batcher second).shut ≡ id ∷ b.shut)
unfolding get_batcher make shutdown_batcher
shared_batcher size size' b = elim (Option-cases b.current) [
  | inl e ↦ rw e (refl, refl, refl)
  | inr (id, e) ↦ rw e (refl, refl, refl)
]
