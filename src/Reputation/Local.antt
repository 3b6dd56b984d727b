-- ===== src/Reputation/Local.antt =====
-- The score that backend/app/services/intel/reputation_service.py computes in one cell.
use trust_shield.Base.{
  ℕ, String, Option, none, some, Bool, List, ◌≡◌, ◌≤◌, refl, subst, arith, ◌>>=◌, some_inj,
}
use trust_shield.Base.Float.{FloatOps}
use trust_shield.Base.Int.{ℤ, pos, negsuc}
use trust_shield.Reputation.{
  Ring, ReputationDb, ReputationLibrary, Reputation, tier, clamp, get_ring_info, ring_bump,
  find_entity, total_score, reputation_of, get_propagated_risk, raw_score, recency_weight,
  weight_of_days, compute_local_reputation,
}

pub clamp-bounds : (z : ℤ) → clamp z ≤ 100
unfolding clamp
clamp-bounds (pos n) = omega arith
clamp-bounds (negsuc n) = omega arith

made :
    {F : Type 0} (o : Option ℤ) (f : ℤ → Reputation F) (r : Reputation F)
    → (o >>= λ z. some (f z)) ≡ some r
    → (z : ℤ) × (f z ≡ r)
made none f r h = cc
made (some z) f r h = (z, some_inj h)

module _ {F : Type 0} (ops : FloatOps F) (lib : ReputationLibrary F) where
  -- A reputation of one cell has a score of at most 100 and the tier of its score, and it is the same
  -- whatever rings are stored and whatever ring the graph has for the entity: also where the graph can
  -- be reached, no ring is ever counted or named.
  pub local_ignores_rings :
      (now : ℕ) (connects : Bool) (value kind : String) (db : ReputationDb) (rings : List Ring)
      (ring_of : String → Option String) (r : Reputation F)
      → compute_local_reputation ops lib now connects value kind db ≡ some r
      → (r.score ≤ 100)
        × (r.reputation_tier ≡ tier r.score)
        × (r.ring_membership ≡ none)
        × (compute_local_reputation ops
              (record lib { ring_of = ring_of })
              now
              connects
              value
              kind
              (record db { rings = rings })
            ≡ some r)
  unfolding compute_local_reputation get_ring_info total_score reputation_of find_entity
      get_propagated_risk raw_score recency_weight weight_of_days ring_bump
  local_ignores_rings now c value kind db rings ring_of r h =
      let (z, e) =
        made (total_score ops lib now c value kind db) (reputation_of ops lib c value kind db) r
          h in
      (
        subst (λ (x : Reputation F). x.score ≤ 100) e (clamp-bounds z),
        subst (λ (x : Reputation F). x.reputation_tier ≡ tier x.score) e refl,
        subst (λ (x : Reputation F). x.ring_membership ≡ none) e refl,
        h,
      )
