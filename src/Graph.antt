-- ===== src/Graph.antt =====
-- The entity graph's own algorithms: `propagate_belief` of
-- backend/app/services/graph/risk_propagation.py and `_simple_clustering` and the levels of rings of
-- backend/app/services/graph/ring_detection.py. A set is a list of its members.
pub mod Search
pub mod Belief
pub mod Levels
pub mod Nearness
pub mod Clusters
pub mod Partition
pub mod Components
mod Examples
use trust_shield.Base.{
  ℕ, zero, suc, String, Option, none, some, Bool, true, false, not, ◌&&◌, List, [], ◌∷◌, ◌++◌, map,
  ◌+◌, ◌=s=◌, leb, if◌then◌else◌, select, any, length,
}
use trust_shield.Base.Float.{FloatOps, fmax, fmin}

unfoldable pub is_in : String → List String → Bool
is_in x xs = any (λ y. y =s= x) xs

-- A dictionary from an entity to its neighbours with the weights of the edges.
abbrev pub Weighted : Type 0 → Type 0
Weighted F = List (String × List (String × F))

unfoldable pub is_key : {E : Type 0} → String → List (String × List E) → Bool
is_key node [] = false
is_key node ((k, es) ∷ g) = let rest = is_key node g in if k =s= node then true else rest

-- `graph.get(node, [])`
unfoldable pub edges_of : {E : Type 0} → List (String × List E) → String → List E
edges_of [] node = []
edges_of ((k, es) ∷ g) node = let rest = edges_of g node in if k =s= node then es else rest

-- The variables of the search.
pub record Walk (F : Type 0) : Type 0 where
  pub visited : List String
  pub queue : List (String × ℕ)
  pub total_risk : F

-- Floats, and the power of a float.
module _ {F : Type 0} (ops : FloatOps F) (pow : F → ℕ → F) where
  module _ (seeds : List String) (max_hops : ℕ) (dampening : F) where
    -- One neighbour of a node that is `hop` steps away.
    unfoldable pub visit : ℕ → String × F → Walk F → Walk F
    visit hop (neighbor, edge_weight) w = if is_in neighbor w.visited then w else record {
      visited = neighbor ∷ w.visited;
      queue = w.queue ++ (neighbor, hop + 1) ∷ [];
      total_risk =
          if is_in neighbor seeds
          then ops.add w.total_risk (ops.mul (pow dampening hop) edge_weight)
          else w.total_risk;
    }

    unfoldable pub visit_all : ℕ → List (String × F) → Walk F → Walk F
    visit_all hop [] w = w
    visit_all hop (e ∷ es) w = visit_all hop es (visit hop e w)

    -- One turn of the loop, for the node that was taken from the queue.
    unfoldable pub expand : Weighted F → String × ℕ → Walk F → Walk F
    expand graph (node, hop) w =
        if leb max_hops hop then w else visit_all hop (edges_of graph node) w

    -- The loop, with a number of turns after which it is given up.
    unfoldable pub search : ℕ → Weighted F → Walk F → Option F
    search zero graph w = elim w.queue [ [] ↦ some w.total_risk | n ∷ rest ↦ none ]
    search (suc fuel) graph w = elim w.queue [
      | [] ↦ some w.total_risk
      | n ∷ rest ↦ search fuel graph (expand graph n (record w { queue = rest }))
    ]

  unfoldable pub propagate_belief : ℕ → Weighted F → String → List String → ℕ → F → Option F
  propagate_belief fuel graph entity_value seeds max_hops dampening =
      if is_in entity_value seeds
      then some (ops.of_ℕ 0)
      else if not (is_key entity_value graph)
      then some (ops.of_ℕ 0)
      else elim (search seeds max_hops dampening fuel graph (record {
        visited = entity_value ∷ [];
        queue = (entity_value, 0) ∷ [];
        total_risk = ops.of_ℕ 0;
      })) [ none ↦ none | some r ↦ some (fmin ops (ops.of_ℕ 1) (fmax ops (ops.of_ℕ 0) r)) ]

-- `adj[src].add(dst)`
unfoldable pub add_neighbor :
    String → String → List (String × List String) → List (String × List String)
add_neighbor src dst [] = []
add_neighbor src dst ((k, ns) ∷ g) =
    let rest = add_neighbor src dst g in
    if k =s= src then (k, (if is_in dst ns then ns else ns ++ dst ∷ [])) ∷ g else (k, ns) ∷ rest

unfoldable pub add_edges :
    List (String × String) → List (String × List String) → List (String × List String)
add_edges [] adj = adj
add_edges ((src, dst) ∷ es) adj = add_edges es (
    if is_key src adj && is_key dst adj
    then add_neighbor dst src (add_neighbor src dst adj)
    else adj)

-- The variables of the clustering: the stack's top is its head.
pub record Cluster : Type 0 where
  pub visited : List String
  pub component : List String
  pub stack : List String

unfoldable pub take_in : List (String × List String) → String → Cluster → Cluster
take_in adj n c = if is_in n c.visited then c else record {
  visited = n ∷ c.visited;
  component = n ∷ c.component;
  stack = select (λ m. not (is_in m (n ∷ c.visited))) (edges_of adj n) ++ c.stack;
}

-- The inner loop, with a number of turns after which it is given up.
unfoldable pub grow : ℕ → List (String × List String) → Cluster → Option Cluster
grow zero adj c = elim c.stack [ [] ↦ some c | n ∷ rest ↦ none ]
grow (suc fuel) adj c = elim c.stack [
  | [] ↦ some c
  | n ∷ rest ↦ grow fuel adj (take_in adj n (record c { stack = rest }))
]

-- The outer loop over the nodes.
unfoldable pub clusters_from :
    ℕ → List (String × List String) → List String → List String → Option (List (List String))
clusters_from fuel adj [] visited = some []
clusters_from fuel adj (n ∷ ns) visited =
    if is_in n visited
    then clusters_from fuel adj ns visited
    else elim (grow fuel adj (record { visited = visited; component = []; stack = n ∷ [] })) [
      | none ↦ none
      | some c ↦ elim (clusters_from fuel adj ns c.visited) [
        | none ↦ none
        | some cs ↦ some (c.component ∷ cs)
      ]
    ]

unfoldable pub simple_clustering :
    ℕ → List String → List (String × String) → Option (List (List String))
simple_clustering fuel entities edges =
    clusters_from fuel (add_edges edges (map (λ e. (e, [])) entities)) entities []

-- The risk level of a ring.
unfoldable pub ring_level : ℕ → ℕ → String
ring_level total_reports members =
    if leb 50 total_reports && leb 10 members
    then "critical"
    else if leb 20 total_reports
    then "high"
    else if leb 5 total_reports
    then "medium"
    else "low"
