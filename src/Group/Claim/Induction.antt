-- ===== src/Group/Claim/Induction.antt =====
-- The rule for the loop of `claim`: what every claimed candidate keeps, the loop keeps.
use eventfs.Prelude.{◌≡◌, refl, List, [], ◌∷◌, Option, ◌⊎◌, inl, inr}
use eventfs.Group.{AggregateDeliveryCandidate, AggregateGroupRetry}
use eventfs.Group.Claim.{
  ClaimRequest, ClaimState, Verdict, halt, pass, take, verdict, take_candidate, claim_loop,
}

Verdict-cases :
    (x : Verdict) → (x ≡ halt) ⊎ (x ≡ pass) ⊎ ((r : Option AggregateGroupRetry) × (x ≡ take r))
Verdict-cases halt = inl refl
Verdict-cases pass = inr (inl refl)
Verdict-cases (take r) = inr (inr (r, refl))

module _ {ℓ} (q : ClaimRequest) (P : ClaimState → Type ℓ)
    (keep : (c : AggregateDeliveryCandidate) (s : ClaimState) (r : Option AggregateGroupRetry)
      → verdict q c s ≡ take r
      → P s
      → P (take_candidate q c r s)) where
  pub claim_loop_induction :
      (cs : List AggregateDeliveryCandidate) (s : ClaimState) → P s → P (claim_loop q cs s)
  unfolding claim_loop
  claim_loop_induction [] s h = h
  claim_loop_induction (c ∷ cs) s h = elim (Verdict-cases (verdict q c s)) [
    | inl e ↦ rw (e, claim_loop) h
    | inr (inl e) ↦ rw (e, claim_loop) (claim_loop_induction cs s h)
    | inr (inr (r, e)) ↦
        rw (e, claim_loop) (claim_loop_induction cs (take_candidate q c r s) (keep c s r e h))
  ]
