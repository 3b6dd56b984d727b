-- ===== src/Graph/Partition.antt =====
-- The result of `_simple_clustering`, backend/app/services/graph/ring_detection.py: a partition.
use trust_shield.Base.{
  ℕ, String, some, true, false, List, [], ◌∷◌, ◌++◌, map, ◌≡◌, refl, sym, ap, ◌∙◌, ◌+◌, ◌≤◌, ◌=s=◌,
  ◌⊎◌, arith, length, length-append, ◌*◌, ◌&&◌, Bool-cases, inl, inr, eq_refl, subst,
}
use trust_shield.Graph.{
  is_in, edges_of, add_edges, add_neighbor, is_key, Cluster, grow, clusters_from, simple_clustering,
}
use trust_shield.Graph.Search.{is_in-left, is_in-right}
use trust_shield.Graph.Levels.{is_in-cases}
use trust_shield.Graph.Clusters.{
  Adjacency, waiting, waiting-grown, Distinct, Known, One, grow_rule, take_in-One,
}

-- The members of clusters, the last ones first, before those visited already.
abbrev pub gather : List (List String) → List String → List String
gather [] visited = visited
gather (c ∷ cs) visited = gather cs (c ++ visited)

-- The neighbours of the members of each cluster are in it or were visited before it.
abbrev pub Closing : Adjacency → List String → List (List String) → Type 0
Closing adj visited [] = Unit
Closing adj visited (c ∷ cs) =
    ((x y : String)
      → is_in x c ≡ true
      → is_in y (edges_of adj x) ≡ true
      → is_in y (c ++ visited) ≡ true)
    × Closing adj (c ++ visited) cs

waiting-le : (adj : Adjacency) (v : List String) → waiting adj v ≤ waiting adj []
waiting-le adj [] = omega arith
waiting-le adj (n ∷ v) = omega (arith, waiting-grown adj v n, waiting-le adj v)

-- Entities that are visited, with all their neighbours, each once.
record Settled (adj : Adjacency) (v : List String) : Type 0 where
  distinct : Distinct v
  closed : (x y : String) → is_in x v ≡ true → is_in y (edges_of adj x) ≡ true → is_in y v ≡ true

-- A cluster is found whole.
grown :
    (fuel : ℕ) (adj : Adjacency) (v : List String) (n : String)
    → waiting adj [] + 1 ≤ fuel
    → Settled adj v
    → (c : Cluster) × (grow fuel adj (record { visited = v; component = []; stack = n ∷ [] })
        ≡ some c)
      × (c.visited ≡ c.component ++ v)
      × Settled adj c.visited
      × (is_in n c.visited ≡ true)
unfolding is_in
grown fuel adj v n h s =
    let (c, found, empty, one) =
      grow_rule (One adj v n) adj (λ m w comp rest k. take_in-One adj v n m w comp rest k) fuel v []
        (n ∷ []) (omega (arith, h, waiting-le adj v))
        (record {
          since = refl;
          distinct = s.distinct;
          rooted = inr (rw (eq_refl n) refl);
          closed = λ x y i j. inl (s.closed x y i j);
        }) in
    let visited : (x : String) → Known x c → is_in x c.visited ≡ true = λ x k. elim k [
      | inl i ↦ i
      | inr i ↦ (let clash : true ≡ false = sym i ∙ ap (is_in x) empty in cc)
    ] in
    (
      c,
      found,
      one.since,
      record { distinct = one.distinct; closed = λ x y i j. visited y (one.closed x y i j) },
      visited n one.rooted,
    )

member :
    (c : Cluster) (v : List String) (x : String)
    → c.visited ≡ c.component ++ v
    → is_in x (c.component ++ v) ≡ true
    → is_in x c.visited ≡ true
member c v x e h = subst (λ l. is_in x l ≡ true) (sym e) h

-- What the outer loop gives.
record Parted (adj : Adjacency) (ns v : List String) (cs : List (List String)) : Type 0 where
  distinct : Distinct (gather cs v)
  covers : (x : String) → (is_in x ns ≡ true) ⊎ (is_in x v ≡ true) → is_in x (gather cs v) ≡ true
  closing : Closing adj v cs

clusters_from-Parted :
    (fuel : ℕ) (adj : Adjacency) (ns v : List String)
    → waiting adj [] + 1 ≤ fuel
    → Settled adj v
    → (cs : List (List String)) × (clusters_from fuel adj ns v ≡ some cs) × Parted adj ns v cs
unfolding clusters_from is_in
clusters_from-Parted fuel adj [] v h s = (
  [],
  refl,
  record { distinct = s.distinct; covers = λ x i. elim i [ inl j ↦ cc | inr j ↦ j ]; closing = tt },
)
clusters_from-Parted fuel adj (n ∷ ns) v h s = elim (Bool-cases (is_in n v)) [
  | inl k ↦
      let (cs, found, p) = clusters_from-Parted fuel adj ns v h s in
      (
        cs,
        rw k found,
        record {
          distinct = p.distinct;
          covers = λ x i. elim i [
            | inl j ↦ (elim (is_in-cases x n ns j) [
              | inl e ↦ p.covers x (inr (subst (λ z. is_in z v ≡ true) e k))
              | inr q ↦ p.covers x (inl q)
            ])
            | inr j ↦ p.covers x (inr j)
          ];
          closing = p.closing;
        },
      )
  | inr k ↦
      let (c, found, since, settled, rooted) = grown fuel adj v n h s in
      let (cs, rest, p) = clusters_from-Parted fuel adj ns c.visited h settled in
      (
        c.component ∷ cs,
        rw (k, found, rest) refl,
        record {
          distinct = subst (λ l. Distinct (gather cs l)) since p.distinct;
          covers = λ x i.
              subst (λ l. is_in x (gather cs l) ≡ true) since
                (elim i [
                  | inl j ↦ (elim (is_in-cases x n ns j) [
                    | inl e ↦ p.covers x (inr (subst (λ z. is_in z c.visited ≡ true) e rooted))
                    | inr q ↦ p.covers x (inl q)
                  ])
                  | inr j ↦ p.covers x (inr (member c v x since (is_in-right x c.component v j)))
                ]);
          closing = (
            λ x y i j.
                subst (λ l. is_in y l ≡ true) since
                  (settled.closed x y (member c v x since (is_in-left x c.component v i)) j),
            subst (λ l. Closing adj l cs) since p.closing,
          );
        },
      )
]

-- An edge adds at most one neighbour to each of its ends.
waiting-add_neighbor :
    (src dst : String) (adj : Adjacency)
    → waiting (add_neighbor src dst adj) [] ≤ waiting adj [] + 1
unfolding waiting is_in add_neighbor
waiting-add_neighbor src dst [] = omega arith
waiting-add_neighbor src dst ((k, ns) ∷ adj) = elim (Bool-cases (k =s= src)) [
  | inr h ↦ rw h (omega (arith, waiting-add_neighbor src dst adj))
  | inl h ↦ elim (Bool-cases (is_in dst ns)) [
    | inl i ↦ rw (h, i) (omega arith)
    | inr i ↦ rw (h, i) (omega (arith, length-append ns (dst ∷ [])))
  ]
]

waiting-add_edges :
    (es : List (String × String)) (adj : Adjacency)
    → waiting (add_edges es adj) [] ≤ waiting adj [] + 2 * length es
unfolding add_edges
waiting-add_edges [] adj = omega arith
waiting-add_edges ((src, dst) ∷ es) adj = elim (Bool-cases (is_key src adj && is_key dst adj)) [
  | inr h ↦ rw h (omega (arith, waiting-add_edges es adj))
  | inl h ↦ rw h (
      omega (
        arith,
        waiting-add_edges es (add_neighbor dst src (add_neighbor src dst adj)),
        waiting-add_neighbor dst src (add_neighbor src dst adj),
        waiting-add_neighbor src dst adj,
      ))
]

waiting-new : (entities : List String) → waiting (map (λ e. (e, [])) entities) [] ≡ 0
unfolding waiting is_in
waiting-new [] = refl
waiting-new (e ∷ es) = omega (arith, waiting-new es)

-- With two turns for each edge and one more the clustering answers, whatever cycles the edges have.
-- Every entity is in a cluster, none is in two or twice in one, and every neighbour of a member is in
-- the same cluster or in an earlier one.
pub simple_clustering-Parted :
    (fuel : ℕ) (entities : List String) (edges : List (String × String))
    → 2 * length edges + 1 ≤ fuel
    → let adj = add_edges edges (map (λ e. (e, [])) entities) in
      (cs : List (List String)) × (simple_clustering fuel entities edges ≡ some cs)
      × Distinct (gather cs [])
      × ((x : String) → is_in x entities ≡ true → is_in x (gather cs []) ≡ true)
      × Closing adj [] cs
unfolding simple_clustering is_in
simple_clustering-Parted fuel entities edges h =
    let adj : Adjacency = add_edges edges (map (λ e. (e, [])) entities) in
    let (cs, found, p) =
      clusters_from-Parted fuel adj entities []
        (omega
          (arith, h, waiting-add_edges edges (map (λ e. (e, [])) entities), waiting-new entities))
        (record { distinct = tt; closed = λ x y i j. cc }) in
    (cs, found, p.distinct, λ x i. p.covers x (inl i), p.closing)
