-- ===== src/GraphStore/Examples.antt =====
-- The theorems on the store of the entity graph, at one phone number.
use trust_shield.Base.{ℕ, String, none, some, true, false, [], ◌∷◌, ◌≡◌, refl, ◌+◌}
use trust_shield.Base.Whole.{whole_floats, whole_laws}
use trust_shield.GraphStore.{
  Entity, Store, Servers, entity_event, add_entity, add_session_link, drain_backlog,
  get_entity_risk,
}
use trust_shield.GraphStore.Backlog.{
  IsUp, IsDown, add_all, outage_is_made_up, drain_loops_while_down, buffered_link_is_lost,
}
use trust_shield.GraphStore.Nodes.{Distinct, IsCapped}
use trust_shield.GraphStore.Runs.{starts, adds, Run-IsSound}
use trust_shield.GraphStore.Views.{Row, EdgeRow}

abbrev up : Servers
up = record { connected = true; redis = true; succeeds = λ n. true }

abbrev down : Servers
down = record { connected = true; redis = true; succeeds = λ n. false }

up-IsUp : IsUp up
up-IsUp = record { connected = refl; redis = refl; succeeds = λ n. refl }

down-IsDown : IsDown down
down-IsDown = record { connected = refl; redis = refl; fails = λ n. refl }

abbrev hash : String → String
hash v = v

abbrev phone : Entity ℕ
phone = record {
  value = "9876543210";
  entity_type = "PHONE";
  report_count = 0;
  graph_risk_score = 1;
}

abbrev empty : Store ℕ
empty = record { nodes = []; links = []; backlog = []; cache = []; runs = 0 }

abbrev waiting : Store ℕ
waiting = record empty { backlog = entity_event phone ∷ [] }

outage_is_made_up_example :
    (after : Store ℕ) × (drain_backlog whole_floats hash up 2
        (add_all whole_floats hash down (phone ∷ []) empty)
      ≡ some (1, after))
    × (after.nodes ≡ (add_all whole_floats hash up (phone ∷ []) empty).nodes)
    × (after.links ≡ (add_all whole_floats hash up (phone ∷ []) empty).links)
    × (after.cache ≡ (add_all whole_floats hash up (phone ∷ []) empty).cache)
    × (after.backlog ≡ [])
outage_is_made_up_example =
    outage_is_made_up whole_floats hash down up down-IsDown up-IsUp (phone ∷ []) empty refl

drain_loops_while_down_example : drain_backlog whole_floats hash down 100 waiting ≡ none
drain_loops_while_down_example =
    drain_loops_while_down whole_floats hash down down-IsDown 100 phone [] waiting refl

buffered_link_is_lost_example :
    drain_backlog whole_floats hash up 5
      (add_session_link whole_floats hash down "a" "b" "s1" empty)
    ≡ some (0, record empty { runs = 0 + 1 })
buffered_link_is_lost_example =
    buffered_link_is_lost whole_floats hash down up down-IsDown up-IsUp "a" "b" "s1" 4 empty refl

Run-IsSound_example :
    Distinct (add_entity whole_floats hash up phone empty).nodes
    × ((servers : Servers) (v : String)
        → IsCapped whole_floats
            (get_entity_risk whole_floats hash servers v
              (add_entity whole_floats hash up phone empty)).0)
Run-IsSound_example =
    Run-IsSound whole_floats hash whole_laws (add_entity whole_floats hash up phone empty)
      (adds up phone empty (starts [] 0))

abbrev row : String → Row ℕ
row v = record {
  value = v;
  entity_type = some "PHONE";
  risk_score = some 1;
  ring_id = none;
  report_count = some 2;
}

abbrev edge : EdgeRow
edge = record { src = some "a"; dst = some "b"; weight = none }
