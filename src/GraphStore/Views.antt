-- ===== src/GraphStore/Views.antt =====
-- The views of the entity graph: `get_graph_for_visualization` and `get_neighborhood` of
-- backend/app/services/graph/entity_graph.py, of the rows that their queries give. The label of a
-- node is a function of its value and, in the second, its type.
pub mod Shape
use trust_shield.Base.{
  ℕ, String, Option, none, some, Bool, true, false, not, ◌&&◌, ◌||◌, List, [], ◌∷◌, ◌++◌, ◌≡◌, ◌≢◌,
  ◌≤◌, refl, sym, ap, ◌∙◌, ◌=s=◌, ◌==◌, if◌then◌else◌, arith, All, Bool-cases, inl, inr, any,
  or_text, or_else, is_set, take, length, length-take, eq_iff, eq_refl, text_ne, min, map,
}

-- A row of a query: an entity.
pub record Row (F : Type 0) : Type 0 where
  pub value : String
  pub entity_type : Option String
  pub risk_score : Option F
  pub ring_id : Option String
  pub report_count : Option ℕ

pub record EdgeRow : Type 0 where
  pub src : Option String
  pub dst : Option String
  pub weight : Option ℕ

-- A node and an edge of a view, of the fields that vary.
pub record NodeView (F : Type 0) : Type 0 where
  pub id : String
  pub label : String
  pub risk : Option F
  pub entity_type : Option String
  pub ring_id : Option String
  pub report_count : Option ℕ

pub record EdgeView : Type 0 where
  pub source : String
  pub target : String
  pub weight : Option ℕ

pub record View (F : Type 0) : Type 0 where
  pub nodes : List (NodeView F)
  pub edges : List EdgeView

abbrev has_id : {F : Type 0} → String → NodeView F → Bool
has_id k n = n.id =s= k

-- `tuple(sorted([a, b]))` of the two ends of edges are the same
abbrev same_ends : EdgeView → EdgeView → Bool
same_ends e f =
    ((e.source =s= f.source) && (e.target =s= f.target))
    || ((e.source =s= f.target) && (e.target =s= f.source))

-- `x or 1`
abbrev one_or_more : ℕ → ℕ
one_or_more n = if n == 0 then 1 else n

-- The identifiers of values: hashed, or themselves; the label of a value and its type.
module _ {F : Type 0} (zero : F) (id_of : String → String) (label : String → String → String) where
  unfoldable pub node_of : Row F → NodeView F
  node_of r = record {
    id = id_of r.value;
    label = label r.value (or_text r.entity_type "");
    risk = some (or_else r.risk_score zero);
    entity_type = r.entity_type;
    ring_id = r.ring_id;
    report_count = some (or_else r.report_count 0);
  }

  unfoldable pub center_of : Row F → NodeView F
  center_of r = record (node_of r) {
    entity_type = some (if is_set r.entity_type then or_text r.entity_type "" else "UNKNOWN");
  }

  -- A loop over rows: each new identifier gives a node.
  unfoldable pub add_nodes : List (Row F) → List (NodeView F) → List (NodeView F)
  add_nodes [] shown = shown
  add_nodes (r ∷ rs) shown =
      add_nodes rs (if any (has_id (id_of r.value)) shown then shown else shown ++ node_of r ∷ [])

  -- The loop over edges.
  unfoldable pub add_edges : List EdgeRow → List EdgeView → List EdgeView
  add_edges [] shown = shown
  add_edges (e ∷ es) shown =
      let made : EdgeView = record {
        source = id_of (or_text e.src "");
        target = id_of (or_text e.dst "");
        weight = some (one_or_more (or_else e.weight 1));
      } in
      add_edges es (
        if not (is_set e.src) || not (is_set e.dst) || any (same_ends made) shown
        then shown
        else shown ++ made ∷ [])

  -- `get_neighborhood`, of a record that was found
  unfoldable pub get_neighborhood :
      Row F → (depth1 depth2 : List (Row F)) → (all_edges : List EdgeRow) → View F
  get_neighborhood center depth1 depth2 all_edges = record {
    nodes = take 200 (add_nodes depth2 (add_nodes depth1 (center_of center ∷ [])));
    edges = take 400 (add_edges all_edges []);
  }

  -- The node of `get_graph_for_visualization`, which takes the row's fields as they are.
  unfoldable pub plain_node : Row F → NodeView F
  plain_node r = record {
    id = id_of r.value;
    label = label r.value "";
    risk = r.risk_score;
    entity_type = r.entity_type;
    ring_id = r.ring_id;
    report_count = r.report_count;
  }

  -- The loop of `get_graph_for_visualization`: each new node with an edge from the center.
  unfoldable pub add_neighbors : String → List (Row F) → View F → View F
  add_neighbors center [] v = v
  add_neighbors center (r ∷ rs) v = add_neighbors center rs (
      if any (has_id (id_of r.value)) v.nodes then v else record {
        nodes = v.nodes ++ plain_node r ∷ [];
        edges = v.edges ++ record { source = center; target = id_of r.value; weight = none } ∷ [];
      })

  unfoldable pub get_graph_for_visualization : String → F → List (Row F) → View F
  get_graph_for_visualization value risk neighbors =
      let center : NodeView F = record {
        id = id_of value;
        label = label value "";
        risk = some risk;
        entity_type = some "CENTER";
        ring_id = none;
        report_count = some 0;
      } in
      add_neighbors (id_of value) neighbors (record { nodes = center ∷ []; edges = [] })
