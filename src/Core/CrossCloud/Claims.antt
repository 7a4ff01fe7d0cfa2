-- ===== src/Core/CrossCloud/Claims.antt =====
-- Who puts the halves of core/cross_cloud.py together.
use vishwakarma.Prelude.{
  ℕ, ◌+◌, String, ◌≡◌, refl, Bool, false, ◌&&◌, none, some, List, [], ◌∷◌, arith, str_eq, eq_iff,
  if◌then◌else◌, any,
}
use vishwakarma.Prelude.Dict
use vishwakarma.Prelude.Dict.{get-put, get-empty}
use vishwakarma.Core.CrossCloud.{Tables, write_finding, claim_synthesis}

-- the calls of the workers: a half that is written, or an attempt to claim
pub data Call : Type 0 where
  write : ℕ → String → String → String → Call
  claim : Bool → String → String → Call

-- whether a call is an attempt for the incident that reaches the database
abbrev pub reaches : String → Call → Bool
reaches id (write now k cloud rca) = false
reaches id (claim up k worker) = up && str_eq k id

-- how many attempts for the incident are granted
unfoldable pub claims_granted : String → List Call → Tables → ℕ
claims_granted id [] t = 0
claims_granted id (write now k cloud rca ∷ calls) t =
    claims_granted id calls (write_finding now k cloud rca t)
claims_granted id (claim up k worker ∷ calls) t =
    let (granted, t') = claim_synthesis up k worker t in
    (if granted && str_eq k id then 1 else 0) + claims_granted id calls t'

-- an incident that was claimed is not claimed again
claimed_stays :
    (id w : String) (calls : List Call) (t : Tables)
    → Dict.get id t.synthesis ≡ some w
    → claims_granted id calls t ≡ 0
unfolding claims_granted claim_synthesis write_finding
claimed_stays id w [] t h = refl
claimed_stays id w (write now k cloud rca ∷ calls) t h =
    claimed_stays id w calls (write_finding now k cloud rca t) h
claimed_stays id w (claim up k worker ∷ calls) t h = ground (
  arith,
  h,
  eq_iff k id,
  get-put k id worker t.synthesis,
  claimed_stays id w calls t,
  claimed_stays id w calls (record t { synthesis = Dict.put k worker t.synthesis }),
)

-- Of all attempts of the workers to claim the synthesis of an incident that nobody claimed, in
-- whatever order with the halves that are written and the claims of other incidents, exactly one is
-- granted, or none if none reaches the database.
pub claims_granted-one :
    (id : String) (calls : List Call) (t : Tables)
    → Dict.get id t.synthesis ≡ none
    → claims_granted id calls t ≡ (if any (reaches id) calls then 1 else 0)
unfolding claims_granted claim_synthesis write_finding
claims_granted-one id [] t h = refl
claims_granted-one id (write now k cloud rca ∷ calls) t h =
    claims_granted-one id calls (write_finding now k cloud rca t) h
claims_granted-one id (claim up k worker ∷ calls) t h = ground (
  arith,
  h,
  eq_iff k id,
  get-put k id worker t.synthesis,
  claims_granted-one id calls t,
  claims_granted-one id calls (record t { synthesis = Dict.put k worker t.synthesis }),
  claimed_stays id worker calls (record t { synthesis = Dict.put k worker t.synthesis }),
)
