-- ===== src/Reputation/Examples.antt =====
-- The theorems on reputations, at one phone number that was reported.
use trust_shield.Base.{ℕ, suc, none, some, Bool, true, [], ◌∷◌, ◌≡◌, ◌≤◌, refl, ◌+◌, arith, leb}
use trust_shield.Base.Whole.{whole_floats}
use trust_shield.Reputation.{
  Ring, ReputationDb, ReputationLibrary, Reputation, tier, compute_local_reputation, find_entity,
  total_score, reputation_of, get_propagated_risk, get_ring_info, ring_bump, raw_score,
  recency_weight, clamp, weight_of_days,
}
use trust_shield.Reputation.Local.{local_ignores_rings}
use trust_shield.Reputation.Federation.{compute_reputation, times, peers_asked_again}

abbrev parts : ReputationLibrary ℕ
parts = record {
  log = λ x. x;
  round = λ x. x;
  round4 = λ x. x;
  clean = λ s. s;
  hash = λ s. s;
  cached_risk = λ s. none;
  graph_risk = λ s. 0;
  ring_of = λ s. some "ring-1";
}

abbrev ring : Ring
ring = record { ring_id = "ring-1"; status = "confirmed" }

abbrev db : ReputationDb
db = record {
  entities =
      record {
        entity_value = "PHONE:98";
        report_count = 4;
        last_seen = some 0;
        first_reported = some 0;
      }
      ∷ [];
  shared = [];
  rings = ring ∷ [];
}

-- The sum is 50 tenths times 10, which is cut to 100.
abbrev known : Reputation ℕ
known = record {
  entity = "98";
  reputation_tier = "confirmed_scam";
  score = 100;
  direct_reports = 4;
  propagated_risk = 0;
  ring_membership = none;
  last_reported_at = some 0;
  first_seen = some 0;
  federation = none;
}

found : compute_local_reputation whole_floats parts 100 true "98" "PHONE" db ≡ some known
unfolding compute_local_reputation find_entity total_score reputation_of get_propagated_risk
    get_ring_info ring_bump raw_score recency_weight weight_of_days tier clamp
found = refl

local_ignores_rings_example :
    (100 ≤ 100)
    × ("confirmed_scam" ≡ tier 100)
    × (known.ring_membership ≡ none)
    × (compute_local_reputation whole_floats
          (record parts { ring_of = λ s. none })
          100
          true
          "98"
          "PHONE"
          (record db { rings = [] })
        ≡ some known)
local_ignores_rings_example =
    local_ignores_rings whole_floats parts 100 true "98" "PHONE" db [] (λ s. none) known found

-- The local computation fits once two pairs of calls do.
abbrev fits : ℕ → Bool
fits j = leb 2 j

peers_asked_again_example :
    (r : Reputation ℕ) × (compute_reputation whole_floats parts 100
        ("https://eu.example" ∷ [])
        (λ u. none)
        true
        fits
        (some known)
        (suc (3 + 2))
      ≡ (some r, times whole_floats parts 100 ("https://eu.example" ∷ []) (λ u. none) 3))
peers_asked_again_example =
    peers_asked_again whole_floats parts 100 ("https://eu.example" ∷ []) (λ u. none) fits known 2 3
      (λ j h. ground arith) (λ j h. ground arith)
