-- ===== src/Reputation.antt =====
-- The reputation of an entity: backend/app/services/intel/reputation_service.py and its lookup in
-- other cells, backend/app/services/intel/cell_federation.py. Instants are seconds; an instant to come
-- counts as today, as its negative number of days does in the source.
pub mod Local
pub mod Federation
mod Examples
use trust_shield.Base.{
  ℕ, zero, suc, String, Option, none, some, Bool, true, false, not, ◌&&◌, List, [], ◌∷◌, ◌++◌, map,
  ◌+◌, ◌-◌, ◌*◌, ◌/◌, ◌==◌, ◌=s=◌, ◌<>◌, if◌then◌else◌, is_none, is_set, leb, min, find_first,
  length, select, or_else, ◌>>=◌,
}
use trust_shield.Base.Float.{FloatOps, fmin}
use trust_shield.Base.Int.{ℤ, pos, negsuc}

-- Rows of the tables of flagged entities, of entities shared by banks and of rings.
pub record Flagged : Type 0 where
  pub entity_value : String
  pub report_count : ℕ
  pub last_seen : Option ℕ
  pub first_reported : Option ℕ

pub record Shared : Type 0 where
  pub entity_hash : String
  pub banks_reporting : ℕ

pub record Ring : Type 0 where
  pub ring_id : String
  pub status : String

pub record ReputationDb : Type 0 where
  pub entities : List Flagged
  pub shared : List Shared
  pub rings : List Ring

pub record RingInfo : Type 0 where
  pub ring_id : Option String
  pub ring_status : Option String

-- What the service calls: the logarithm, `round(x)` and `round(x, 4)`, `lower().strip()` of a text, the
-- hash of a text, the risk of an entity that the cache of the graph has, and where the graph answers the
-- risk of the entity and the ring of its node.
pub record ReputationLibrary (F : Type 0) : Type 0 where
  pub log : F → F
  pub round : F → F
  pub round4 : F → F
  pub clean : String → String
  pub hash : String → String
  pub cached_risk : String → Option F
  pub graph_risk : String → F
  pub ring_of : String → Option String

pub record Federated : Type 0 where
  pub peer_count : ℕ
  pub sources : List String

pub record Reputation (F : Type 0) : Type 0 where
  pub entity : String
  pub reputation_tier : String
  pub score : ℕ
  pub direct_reports : ℕ
  pub propagated_risk : F
  pub ring_membership : Option String
  pub last_reported_at : Option ℕ
  pub first_seen : Option ℕ
  pub federation : Option Federated

unfoldable pub tier : ℕ → String
tier score =
    if leb 80 score
    then "confirmed_scam"
    else if leb 50 score
    then "suspicious"
    else if leb 20 score
    then "watch"
    else "clean"

-- `max(0, min(100, x))`
unfoldable pub clamp : ℤ → ℕ
clamp (pos n) = min 100 n
clamp (negsuc n) = 0

abbrev no_ring : RingInfo
no_ring = record { ring_id = none; ring_status = none }

-- `FraudEntityGraph().connected`, before a connection is attempted
abbrev new_graph_connected : Bool
new_graph_connected = false

module _ {F : Type 0} (ops : FloatOps F) (lib : ReputationLibrary F) where
  -- The weight of an age in days.
  unfoldable pub weight_of_days : ℕ → F
  weight_of_days days =
      if leb days 7
      then ops.decimal 10 1
      else if leb days 30
      then ops.decimal 7 1
      else if leb days 90
      then ops.decimal 4 1
      else if leb days 180
      then ops.decimal 2 1
      else ops.decimal 1 1

  unfoldable pub recency_weight : ℕ → Option ℕ → F
  recency_weight now none = ops.decimal 1 1
  recency_weight now (some last_seen) = weight_of_days ((now - last_seen) / 86400)

  -- `_get_propagated_risk`: `get_entity_risk` asks the cache, then the graph, which has a risk of 0
  -- where it does not answer.
  unfoldable pub get_propagated_risk : Bool → String → F
  get_propagated_risk connects entity = elim (lib.cached_risk entity) [
    | some risk ↦ risk
    | none ↦ if connects then lib.graph_risk entity else ops.of_ℕ 0
  ]

  -- `_get_ring_info`; `connects` is whether the graph answers once a connection is attempted.
  unfoldable pub get_ring_info : Bool → String → ReputationDb → RingInfo
  get_ring_info connects entity db =
      if not new_graph_connected
      then no_ring
      else if not connects
      then no_ring
      else elim (lib.ring_of entity) [
        | none ↦ no_ring
        | some k ↦ elim (find_first (λ (r : Ring). r.ring_id =s= k) db.rings) [
          | none ↦ record { ring_id = some k; ring_status = none }
          | some r ↦ record { ring_id = some k; ring_status = some r.status }
        ]
      ]

  unfoldable pub ring_bump : RingInfo → ℕ
  ring_bump r =
      if or_else r.ring_status "" =s= "confirmed" then 25 else if is_set r.ring_id then 15 else 0

  -- The sum of the four parts of a score, of the number of reports, the last one, the risk, the bump
  -- of a ring and the number of banks.
  unfoldable pub raw_score : ℕ → ℕ → Option ℕ → F → ℕ → ℕ → F
  raw_score now reports last_seen risk bump banks =
      let base =
        ops.mul (fmin ops (ops.of_ℕ 50) (ops.mul (lib.log (ops.of_ℕ (1 + reports))) (ops.of_ℕ 10)))
          (recency_weight now last_seen) in
      ops.add (ops.add (ops.add base (ops.of_ℕ bump)) (ops.mul risk (ops.of_ℕ 30)))
        (ops.of_ℕ (min 20 (banks * 5)))

  -- `_compute_local_reputation`, in three parts: the row of the entity, `int` of the sum, which may
  -- raise (`none`), and the answer.
  unfoldable pub find_entity : (entity_value entity_type : String) → ReputationDb → Option Flagged
  find_entity entity_value entity_type db =
      let key = entity_type <> ":" <> lib.clean entity_value in
      find_first (λ (e : Flagged). e.entity_value =s= key) db.entities

  unfoldable pub total_score :
      ℕ → Bool → (entity_value entity_type : String) → ReputationDb → Option ℤ
  total_score now connects entity_value entity_type db =
      let key = entity_type <> ":" <> lib.clean entity_value in
      let entity = find_entity entity_value entity_type db in
      let cross =
        find_first (λ (s : Shared). s.entity_hash =s= lib.hash (lib.clean entity_value))
          db.shared in
      let reports : ℕ = elim entity [ none ↦ 0 | some e ↦ e.report_count ] in
      let last_seen : Option ℕ = elim entity [ none ↦ none | some e ↦ e.last_seen ] in
      let banks : ℕ = elim cross [ none ↦ 0 | some s ↦ s.banks_reporting ] in
      ops.trunc (
        raw_score now reports last_seen (get_propagated_risk connects key)
          (ring_bump (get_ring_info connects key db)) banks)

  unfoldable pub reputation_of :
      Bool → (entity_value entity_type : String) → ReputationDb → ℤ → Reputation F
  reputation_of connects entity_value entity_type db total =
      let key = entity_type <> ":" <> lib.clean entity_value in
      let entity = find_entity entity_value entity_type db in
      record {
        entity = entity_value;
        reputation_tier = tier (clamp total);
        score = clamp total;
        direct_reports = elim entity [ none ↦ 0 | some e ↦ e.report_count ];
        propagated_risk = lib.round4 (get_propagated_risk connects key);
        ring_membership = (get_ring_info connects key db).ring_id;
        last_reported_at = elim entity [ none ↦ none | some e ↦ e.last_seen ];
        first_seen = elim entity [ none ↦ none | some e ↦ e.first_reported ];
        federation = none;
      }

  unfoldable pub compute_local_reputation :
      ℕ → Bool → (entity_value entity_type : String) → ReputationDb → Option (Reputation F)
  compute_local_reputation now connects entity_value entity_type db =
      total_score now connects entity_value entity_type db >>= λ total.
      some (reputation_of connects entity_value entity_type db total)
