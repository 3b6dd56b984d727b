-- ===== src/GraphStore/Views/Shape.antt =====
-- The shape of the views of backend/app/services/graph/entity_graph.py.
use trust_shield.Base.{
  ℕ, zero, suc, String, none, Bool, true, false, List, [], ◌∷◌, ◌++◌, ◌+◌, ◌≡◌, ◌≢◌, ◌≤◌, refl, sym,
  ap, subst, ◌∙◌, ◌=s=◌, if◌then◌else◌, arith, All, All-append, All-map, Bool-cases, inl, inr, any,
  take, length, length-take, length-append, eq_refl, text_ne,
}
use trust_shield.GraphStore.Views.{
  Row, EdgeRow, NodeView, View, node_of, center_of, plain_node, add_nodes, add_edges,
  get_neighborhood, add_neighbors, get_graph_for_visualization,
}

-- No two nodes have an identifier in common.
abbrev pub Apart : {F : Type 0} → List (NodeView F) → Type 0
Apart [] = Unit
Apart (n ∷ ns) = All (λ m. n.id ≢ m.id) ns × Apart ns

abbrev pub shows : {F : Type 0} → String → List (NodeView F) → Bool
shows k ns = any (λ n. n.id =s= k) ns

All-take : {A : Type 0} (P : A → Type 0) (k : ℕ) (xs : List A) → All P xs → All P (take k xs)
All-take P zero xs h = tt
All-take P (suc k) [] h = tt
All-take P (suc k) (x ∷ xs) (h, hs) = (h, All-take P k xs hs)

module _ {F : Type 0} where
  shows-append :
      (k : String) (ns : List (NodeView F)) (n : NodeView F)
      → n.id ≡ k
      → shows k (ns ++ n ∷ []) ≡ true
  shows-append k [] n h = rw (h, eq_refl k) refl
  shows-append k (m ∷ ns) n h = elim (Bool-cases (m.id =s= k)) [
    | inl e ↦ rw e refl
    | inr e ↦ rw e (shows-append k ns n h)
  ]

  shows-kept :
      (k : String) (ns : List (NodeView F)) (n : NodeView F)
      → shows k ns ≡ true
      → shows k (ns ++ n ∷ []) ≡ true
  shows-kept k [] n = λ h. cc
  shows-kept k (m ∷ ns) n = elim (Bool-cases (m.id =s= k)) [
    | inl e ↦ rw e (λ h. refl)
    | inr e ↦ rw e (λ h. shows-kept k ns n h)
  ]

  Apart-append :
      (ns : List (NodeView F)) (n : NodeView F)
      → Apart ns
      → shows n.id ns ≡ false
      → Apart (ns ++ n ∷ [])
  Apart-append [] n h = λ e. (tt, tt)
  Apart-append (m ∷ ns) n (h, hs) = elim (Bool-cases (m.id =s= n.id)) [
    | inl e ↦ rw e (λ k. cc)
    | inr e ↦
        rw e (λ k. (All-append _ ns (n ∷ []) h (text_ne m.id n.id e, tt), Apart-append ns n hs k))
  ]

  Apart-take : (k : ℕ) (ns : List (NodeView F)) → Apart ns → Apart (take k ns)
  Apart-take zero ns h = tt
  Apart-take (suc k) [] h = tt
  Apart-take (suc k) (n ∷ ns) (h, hs) = (All-take _ k ns h, Apart-take k ns hs)

  module _ (zero_risk : F) (id_of : String → String) (label : String → String → String) where
    add_nodes-Apart :
        (rs : List (Row F)) (shown : List (NodeView F))
        → Apart shown
        → Apart (add_nodes zero_risk id_of label rs shown)
    unfolding add_nodes node_of
    add_nodes-Apart [] shown h = h
    add_nodes-Apart (r ∷ rs) shown h = elim (Bool-cases (shows (id_of r.value) shown)) [
      | inl e ↦ rw e (add_nodes-Apart rs shown h)
      | inr e ↦ rw e (add_nodes-Apart rs _ (Apart-append shown _ h e))
    ]

    -- The nodes of a neighborhood have distinct identifiers; there are 200 nodes and 400 edges at most.
    pub get_neighborhood-Apart :
        (center : Row F) (depth1 depth2 : List (Row F)) (edges : List EdgeRow)
        → let v = get_neighborhood zero_risk id_of label center depth1 depth2 edges in
          Apart v.nodes × (length v.nodes ≤ 200) × (length v.edges ≤ 400)
    unfolding get_neighborhood
    get_neighborhood-Apart center depth1 depth2 edges = (
      Apart-take 200 _ (add_nodes-Apart depth2 _ (add_nodes-Apart depth1 _ (tt, tt))),
      omega (
        arith,
        length-take 200 (
            add_nodes zero_risk id_of label depth2 (
              add_nodes zero_risk id_of label depth1
                (center_of zero_risk id_of label center ∷ []))),
      ),
      omega (arith, length-take 400 (add_edges zero_risk id_of label edges [])),
    )

    -- A star: distinct nodes, of which one is the center, and for each other one edge, from the center.
    abbrev pub IsStar : String → View F → Type 0
    IsStar center v =
        Apart v.nodes
        × (shows center v.nodes ≡ true)
        × All (λ e. (e.source ≡ center) × (center ≢ e.target) × (shows e.target v.nodes ≡ true))
            v.edges
        × (length v.nodes ≡ length v.edges + 1)

    not_shown :
        (k m : String) (ns : List (NodeView F)) → shows k ns ≡ true → shows m ns ≡ false → k ≢ m
    not_shown k m ns h e =
        λ same. (let clash : true ≡ false = sym h ∙ ap (λ x. shows x ns) same ∙ e in cc)

    add_neighbors-IsStar :
        (center : String) (rs : List (Row F)) (v : View F)
        → IsStar center v
        → IsStar center (add_neighbors zero_risk id_of label center rs v)
    unfolding add_neighbors plain_node
    add_neighbors-IsStar center [] v h = h
    add_neighbors-IsStar center (r ∷ rs) v (apart, shown, edges, count) =
        elim (Bool-cases (shows (id_of r.value) v.nodes)) [
          | inl e ↦
              rw (add_neighbors, e) (add_neighbors-IsStar center rs v (apart, shown, edges, count))
          | inr e ↦
              (let n = plain_node zero_risk id_of label r in
                rw (add_neighbors, e)
                  (add_neighbors-IsStar center rs _ (
                    Apart-append v.nodes n apart e,
                    shows-kept center v.nodes n shown,
                    All-append _ v.edges _
                        (All-map _ _ v.edges
                          (λ f (a, b, c). (a, b, shows-kept f.target v.nodes n c)) edges)
                        (
                          (
                            refl,
                            not_shown center (id_of r.value) v.nodes shown e,
                            shows-append (id_of r.value) v.nodes n refl,
                          ),
                          tt,
                        ),
                    omega (
                      arith,
                      count,
                      length-append v.nodes (n ∷ []),
                      length-append v.edges
                          (record { source = center; target = id_of r.value; weight = none } ∷ []),
                    ),
                  )))
        ]

    add_neighbors-shows :
        (center k : String) (rs : List (Row F)) (v : View F)
        → shows k v.nodes ≡ true
        → shows k (add_neighbors zero_risk id_of label center rs v).nodes ≡ true
    unfolding add_neighbors
    add_neighbors-shows center k [] v h = h
    add_neighbors-shows center k (r ∷ rs) v h = elim (Bool-cases (shows (id_of r.value) v.nodes)) [
      | inl e ↦ rw (add_neighbors, e) (add_neighbors-shows center k rs v h)
      | inr e ↦
          rw (add_neighbors, e)
            (add_neighbors-shows center k rs _
              (shows-kept k v.nodes (plain_node zero_risk id_of label r) h))
    ]

    -- The view with a node and its edge more.
    abbrev extended : String → Row F → View F → View F
    extended center r v = record {
      nodes = v.nodes ++ plain_node zero_risk id_of label r ∷ [];
      edges = v.edges ++ record { source = center; target = id_of r.value; weight = none } ∷ [];
    }

    add_neighbors-round :
        (center : String) (r : Row F) (rs : List (Row F)) (v : View F) (b : Bool)
        → shows (id_of r.value) v.nodes ≡ b
        → add_neighbors zero_risk id_of label center (r ∷ rs) v
          ≡ add_neighbors zero_risk id_of label center rs (if b then v else extended center r v)
    unfolding add_neighbors
    add_neighbors-round center r rs v b e =
        ap
          (λ b.
            add_neighbors zero_risk id_of label center rs (if b then v else extended center r v))
          e

    add_neighbors-All :
        (center : String) (rs : List (Row F)) (v : View F)
        → All
            (λ r.
              shows (id_of r.value) (add_neighbors zero_risk id_of label center rs v).nodes ≡ true)
            rs
    unfolding plain_node
    add_neighbors-All center [] v = tt
    add_neighbors-All center (r ∷ rs) v =
        let shown =
          λ (w : View F). All (λ (r : Row F). shows (id_of r.value) w.nodes ≡ true) (r ∷ rs) in
        elim (Bool-cases (shows (id_of r.value) v.nodes)) [
          | inl e ↦
              subst shown (sym (add_neighbors-round center r rs v true e))
                (add_neighbors-shows center (id_of r.value) rs v e, add_neighbors-All center rs v)
          | inr e ↦ subst shown (sym (add_neighbors-round center r rs v false e)) (
            add_neighbors-shows center (id_of r.value) rs (extended center r v)
                (shows-append (id_of r.value) v.nodes (plain_node zero_risk id_of label r) refl),
            add_neighbors-All center rs (extended center r v),
          )
        ]

    -- The view of an entity is a star around it: its nodes have distinct identifiers, each neighbor is
    -- shown, and each node but the center has one edge, which comes from the center.
    pub visualization-IsStar :
        (value : String) (risk : F) (neighbors : List (Row F))
        → let v = get_graph_for_visualization zero_risk id_of label value risk neighbors in
          IsStar (id_of value) v × All (λ r. shows (id_of r.value) v.nodes ≡ true) neighbors
    unfolding get_graph_for_visualization
    visualization-IsStar value risk neighbors = (
      add_neighbors-IsStar (id_of value) neighbors _
          ((tt, tt), rw (eq_refl (id_of value)) refl, tt, refl),
      add_neighbors-All (id_of value) neighbors _,
    )
