-- ===== src/Core/Compaction/Budget.antt =====
-- How core/compaction.py shares the room for tool messages among them.
use native.Mathlib.Nat.{le-div_iff_mul-le, div-mul-le_self, mul-suc}
use vishwakarma.Prelude.{
  ℕ, zero, suc, ◌-◌, ◌/◌, ◌≤◌, ◌<◌, ◌≡◌, some, List, [], ◌∷◌, arith, leb, if◌then◌else◌, length,
  get_elem?,
}
use vishwakarma.Core.Conversation.{Message}
use vishwakarma.Core.Compaction.{allocate}

-- the share of the others is no smaller than the share before
share_grows : (r k taken : ℕ) → taken ≤ r / suc k → 0 < k → r / suc k ≤ (r - taken) / k
share_grows r k taken t pos =
    let q = r / suc k in
    (le-div_iff_mul-le pos).1 (omega (arith, div-mul-le_self r (suc k), mul-suc q k))

module _ {P : Type 0} where
  get_elem?-length-pos :
      (i : ℕ) (a : Message P × ℕ) (xs : List (Message P × ℕ))
      → get_elem? xs i ≡ some a
      → 0 < length xs
  get_elem?-length-pos i a [] at = cc
  get_elem?-length-pos i a (x ∷ xs) at = omega arith

  -- A message whose size is at most an equal part of the room is kept whole, whatever stands
  -- before it.
  pub allocate-whole :
      (remaining i size : ℕ) (msg : Message P) (sized : List (Message P × ℕ))
      → get_elem? sized i ≡ some (msg, size)
      → size ≤ remaining / length sized
      → get_elem? (allocate remaining sized) i ≡ some msg
  unfolding allocate
  allocate-whole remaining i size msg [] at h = cc
  allocate-whole remaining zero size msg ((m, s) ∷ rest) at h = ground arith
  allocate-whole remaining (suc i) size msg ((m, s) ∷ rest) at h =
      let share = remaining / suc (length rest) in
      let taken = (if leb s share then s else share) in
      let fits : taken ≤ share = ground arith in
      allocate-whole (remaining - taken) i size msg rest at (
        omega (
          arith,
          share_grows remaining (length rest) taken fits
              (get_elem?-length-pos i (msg, size) rest at),
        ))
