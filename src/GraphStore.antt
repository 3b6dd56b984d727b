-- ===== src/GraphStore.antt =====
-- The store of the entity graph: `FraudEntityGraph` of backend/app/services/graph/entity_graph.py, its
-- writes to Neo4j with their backlog in Redis, and the cache of risk scores. The Cypher statements act
-- on nodes whose values are unique, as the constraint of `ensure_indexes` says, and on links; the
-- times they note are left out. The calls of Redis succeed where it is connected.
pub mod Backlog
pub mod Nodes
pub mod Runs
pub mod Views
mod Examples
use trust_shield.Base.{
  ℕ, zero, suc, String, Option, none, some, Bool, true, false, not, ◌&&◌, ◌||◌, List, [], ◌∷◌, ◌++◌,
  map, ◌+◌, ◌=s=◌, if◌then◌else◌, is_some, is_none, any, find_first, select, length, ◌==◌,
}
use trust_shield.Base.Float.{FloatOps, fmin}

-- `FlaggedEntity`
pub record Entity (F : Type 0) : Type 0 where
  pub value : String
  pub entity_type : String
  pub report_count : ℕ
  pub graph_risk_score : F

pub record Node (F : Type 0) : Type 0 where
  pub value : String
  pub entity_type : String
  pub report_count : ℕ
  pub graph_risk_score : F
  pub pagerank_score : F
  pub ring_id : Option String

-- A relationship `APPEARED_WITH`, which has no direction.
pub record Link : Type 0 where
  pub one : String
  pub other : String
  pub session_id : String
  pub weight : ℕ

-- An event of the backlog: the method and its payload, of a link the keys and values.
pub data Event (F : Type 0) : Type 0 where
  entity_event : Entity F → Event F
  link_event : List (String × String) → Event F

-- The tables of Neo4j and Redis, with the number of statements run so far. The backlog is listed from
-- its right end, where events are popped, to its left end, where they are pushed.
pub record Store (F : Type 0) : Type 0 where
  pub nodes : List (Node F)
  pub links : List Link
  pub backlog : List (Event F)
  pub cache : List (String × F)
  pub runs : ℕ

-- The servers: whether the two are connected, and whether the n-th statement succeeds.
pub record Servers : Type 0 where
  pub connected : Bool
  pub redis : Bool
  pub succeeds : ℕ → Bool

-- `d[k]`
unfoldable pub lookup : {A : Type 0} → String → List (String × A) → Option A
lookup k [] = none
lookup k ((a, v) ∷ ps) = if a =s= k then some v else lookup k ps

abbrev pub has_value : {F : Type 0} → String → Node F → Bool
has_value v n = n.value =s= v

abbrev pub is_between : String → String → String → Link → Bool
is_between a b s l =
    (l.session_id =s= s)
    && (((l.one =s= a) && (l.other =s= b)) || ((l.one =s= b) && (l.other =s= a)))

abbrev pub touches : String → Link → Bool
touches v l = (l.one =s= v) || (l.other =s= v)

-- `MERGE (a)-[r:APPEARED_WITH {session_id: $session_id}]-(b)`
unfoldable pub merge_link : String → String → String → List Link → List Link
merge_link a b s [] = record { one = a; other = b; session_id = s; weight = 1 } ∷ []
merge_link a b s (l ∷ ls) =
    let rest = merge_link a b s ls in
    if is_between a b s l then record l { weight = l.weight + 1 } ∷ ls else l ∷ rest

-- A row of the updates of scores.
pub record Update (F : Type 0) : Type 0 where
  pub value : String
  pub pagerank : F
  pub risk : F

-- `MATCH (n:Entity {value: u.value}) SET ...`, for one row
unfoldable pub set_scores : {F : Type 0} → Update F → Node F → Node F
set_scores u n =
    if n.value =s= u.value
    then record n { pagerank_score = u.pagerank; graph_risk_score = u.risk }
    else n

unfoldable pub set_ring : {F : Type 0} → String × String → Node F → Node F
set_ring (v, ring) n = if n.value =s= v then record n { ring_id = some ring } else n

-- `UNWIND $updates AS u`
unfoldable pub unwind : {A B : Type 0} → (A → B → B) → List A → List B → List B
unwind f [] ns = ns
unwind f (u ∷ us) ns = unwind f us (map (f u) ns)

module _ {F : Type 0} (ops : FloatOps F) where
  -- `MERGE (n:Entity {value: $value})`
  unfoldable pub merge_node : Entity F → List (Node F) → List (Node F)
  merge_node e [] =
      record {
        value = e.value;
        entity_type = e.entity_type;
        report_count = e.report_count;
        graph_risk_score = e.graph_risk_score;
        pagerank_score = ops.of_ℕ 0;
        ring_id = none;
      }
      ∷ []
  merge_node e (n ∷ ns) =
      let rest = merge_node e ns in
      if n.value =s= e.value
      then record n {
        report_count = n.report_count + 1;
        graph_risk_score =
            if ops.lt n.graph_risk_score e.graph_risk_score
            then e.graph_risk_score
            else n.graph_risk_score;
      }
        ∷ ns
      else n ∷ rest

  module _ (hash : String → String) (servers : Servers) where
    unfoldable pub invalidate_cache : String → Store F → Store F
    invalidate_cache v st =
        if servers.redis
        then record st { cache = select (λ c. not (c.0 =s= hash v)) st.cache }
        else st

    unfoldable pub invalidate_all_risk_cache : Store F → ℕ × Store F
    invalidate_all_risk_cache st =
        if servers.redis then (length st.cache, record st { cache = [] }) else (0, st)

    unfoldable pub buffer_to_backlog : Event F → Store F → Store F
    buffer_to_backlog ev st =
        if servers.redis then record st { backlog = st.backlog ++ ev ∷ [] } else st

    -- `_add_entity_raw`
    unfoldable pub add_entity_raw : Entity F → Store F → Store F
    add_entity_raw e st =
        let next = record st { runs = st.runs + 1 } in
        if servers.succeeds st.runs
        then invalidate_cache e.value (record next { nodes = merge_node e st.nodes })
        else buffer_to_backlog (entity_event e) next

    unfoldable pub add_entity : Entity F → Store F → Store F
    add_entity e st = if servers.connected then add_entity_raw e st else st

    -- `_add_session_link_raw`, which buffers the parameters of its statement
    unfoldable pub add_session_link_raw : String → String → String → Store F → Store F
    add_session_link_raw a b s st =
        let next = record st { runs = st.runs + 1 } in
        if servers.succeeds st.runs
        then if any (has_value a) st.nodes && any (has_value b) st.nodes
          then record next { links = merge_link a b s st.links }
          else next
        else buffer_to_backlog (link_event (("a_val", a) ∷ ("b_val", b) ∷ ("session_id", s) ∷ []))
            next

    unfoldable pub add_session_link : String → String → String → Store F → Store F
    add_session_link a b s st = if servers.connected then add_session_link_raw a b s st else st

    -- The replay of a popped event; `none` where a key is missing.
    unfoldable pub replay : Event F → Store F → Option (Store F)
    replay (entity_event e) st = some (add_entity_raw e st)
    replay (link_event payload) st = elim (lookup "entity_a_id" payload) [
      | none ↦ none
      | some a ↦ elim (lookup "entity_b_id" payload) [
        | none ↦ none
        | some b ↦ elim (lookup "session_id" payload) [
          | none ↦ none
          | some s ↦ some (add_session_link_raw a b s st)
        ]
      ]
    ]

    -- The loop of `drain_backlog`, with a number of turns after which it is given up (`none`).
    unfoldable pub drain : ℕ → ℕ → Store F → Option (ℕ × Store F)
    drain zero drained st = none
    drain (suc fuel) drained st = elim st.backlog [
      | [] ↦ some (drained, st)
      | ev ∷ rest ↦ elim (replay ev (record st { backlog = rest })) [
        | none ↦ some (drained, record st { backlog = rest })
        | some after ↦ drain fuel (drained + 1) after
      ]
    ]

    unfoldable pub drain_backlog : ℕ → Store F → Option (ℕ × Store F)
    drain_backlog fuel st =
        if servers.redis && servers.connected then drain fuel 0 st else some (0, st)

    -- `_compute_entity_risk`, of the statement that is run next
    unfoldable pub compute_entity_risk : String → Store F → F
    compute_entity_risk v st =
        if not servers.connected || not (servers.succeeds st.runs)
        then ops.of_ℕ 0
        else elim (find_first (has_value v) st.nodes) [
          | none ↦ ops.of_ℕ 0
          | some n ↦
              (let degree = length (select (touches v) st.links) in
                let boost =
                  fmin ops (ops.decimal 3 1) (ops.mul (ops.of_ℕ degree) (ops.decimal 5 2)) in
                fmin ops (ops.of_ℕ 1) (
                  ops.add (ops.add n.graph_risk_score (ops.mul n.pagerank_score (ops.decimal 3 1)))
                    boost))
        ]

    unfoldable pub get_entity_risk : String → Store F → F × Store F
    get_entity_risk v st = elim (if servers.redis then lookup (hash v) st.cache else none) [
      | some score ↦ (score, st)
      | none ↦
          (let score = compute_entity_risk v st in
            let next = if servers.connected then record st { runs = st.runs + 1 } else st in
            (
              score,
              if servers.redis && ops.lt (ops.of_ℕ 0) score
                  then record next { cache = (hash v, score) ∷ next.cache }
                  else next,
            ))
    ]

    unfoldable pub update_entity_scores : List (Update F) → Store F → Store F
    update_entity_scores updates st =
        let next = record st { runs = st.runs + 1 } in
        if not servers.connected || length updates == 0
        then st
        else if servers.succeeds st.runs
        then (invalidate_all_risk_cache
            (record next { nodes = unwind set_scores updates st.nodes })).1
        else next

    -- `update_ring_ids`, of the pairs of an entity and its ring
    unfoldable pub update_ring_ids : List (String × String) → Store F → Store F
    update_ring_ids assignments st =
        let next = record st { runs = st.runs + 1 } in
        if not servers.connected || length assignments == 0
        then st
        else if servers.succeeds st.runs
        then record next { nodes = unwind set_ring assignments st.nodes }
        else next
