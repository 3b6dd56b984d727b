-- ===== src/Graph/Components.antt =====
-- The clusters of `_simple_clustering`, backend/app/services/graph/ring_detection.py, hold their
-- members' neighbours.
use trust_shield.Base.{
  ℕ, String, some, true, false, List, [], ◌∷◌, ◌++◌, map, ◌≡◌, refl, sym, ◌∙◌, ◌+◌, ◌*◌, ◌≤◌, ◌=s=◌,
  ◌⊎◌, length, Bool-cases, inl, inr, eq_refl, eq_iff, subst, All,
}
use trust_shield.Graph.{is_in, is_key, edges_of, add_edges, add_neighbor, simple_clustering}
use trust_shield.Graph.Search.{is_in-left, is_in-right}
use trust_shield.Graph.Levels.{is_in-cases}
use trust_shield.Graph.Clusters.{Adjacency, Distinct}
use trust_shield.Graph.Partition.{gather, Closing, simple_clustering-Parted}

-- A neighbour's neighbour is the entity itself.
abbrev pub Symmetric : Adjacency → Type 0
Symmetric adj = (x y : String) → is_in y (edges_of adj x) ≡ true → is_in x (edges_of adj y) ≡ true

is_in-added :
    (y d : String) (ns : List String)
    → is_in y (ns ++ d ∷ []) ≡ true
    → (is_in y ns ≡ true) ⊎ (d ≡ y)
unfolding is_in
is_in-added y d [] h = elim (is_in-cases y d [] h) [ inl e ↦ inr e | inr i ↦ inl i ]
is_in-added y d (n ∷ ns) h = elim (is_in-cases y n (ns ++ d ∷ []) h) [
  | inl e ↦ inl (subst (λ z. is_in z (n ∷ ns) ≡ true) e (rw (eq_refl n) refl))
  | inr i ↦ elim (is_in-added y d ns i) [
    | inl j ↦ inl (is_in-right y (n ∷ []) ns j)
    | inr e ↦ inr e
  ]
]

-- The neighbours after one is added.
add_neighbor-cases :
    (src dst x y : String) (adj : Adjacency)
    → is_in y (edges_of (add_neighbor src dst adj) x) ≡ true
    → (is_in y (edges_of adj x) ≡ true) ⊎ ((src ≡ x) × (dst ≡ y))
unfolding edges_of add_neighbor is_in
add_neighbor-cases src dst x y [] = λ h. cc
add_neighbor-cases src dst x y ((k, ns) ∷ adj) = elim (Bool-cases (k =s= src)) [
  | inr a ↦ elim (Bool-cases (k =s= x)) [
    | inl b ↦ rw (a, b) (λ h. inl h)
    | inr b ↦ rw (a, b) (λ h. add_neighbor-cases src dst x y adj h)
  ]
  | inl a ↦ elim (Bool-cases (k =s= x)) [
    | inr b ↦ rw (a, b) (λ h. inl h)
    | inl b ↦ elim (Bool-cases (is_in dst ns)) [
      | inl c ↦ rw (a, b, c) (λ h. inl h)
      | inr c ↦
          rw (a, b, c)
            (λ h. elim (is_in-added y dst ns h) [
              | inl j ↦ inl j
              | inr e ↦ inr (sym ((eq_iff k src).0 a) ∙ (eq_iff k x).0 b, e)
            ])
    ]
  ]
]

add_neighbor-keeps :
    (src dst x y : String) (adj : Adjacency)
    → is_in y (edges_of adj x) ≡ true
    → is_in y (edges_of (add_neighbor src dst adj) x) ≡ true
unfolding edges_of add_neighbor is_in
add_neighbor-keeps src dst x y [] = λ h. h
add_neighbor-keeps src dst x y ((k, ns) ∷ adj) = elim (Bool-cases (k =s= src)) [
  | inr a ↦ elim (Bool-cases (k =s= x)) [
    | inl b ↦ rw (a, b) (λ h. h)
    | inr b ↦ rw (a, b) (λ h. add_neighbor-keeps src dst x y adj h)
  ]
  | inl a ↦ elim (Bool-cases (k =s= x)) [
    | inr b ↦ rw (a, b) (λ h. h)
    | inl b ↦ elim (Bool-cases (is_in dst ns)) [
      | inl c ↦ rw (a, b, c) (λ h. h)
      | inr c ↦ rw (a, b, c) (λ h. is_in-left y ns (dst ∷ []) h)
    ]
  ]
]

add_neighbor-has :
    (src dst : String) (adj : Adjacency)
    → is_key src adj ≡ true
    → is_in dst (edges_of (add_neighbor src dst adj) src) ≡ true
unfolding edges_of add_neighbor is_in is_key
add_neighbor-has src dst [] = λ h. cc
add_neighbor-has src dst ((k, ns) ∷ adj) = elim (Bool-cases (k =s= src)) [
  | inr a ↦ rw (a, a) (λ h. add_neighbor-has src dst adj h)
  | inl a ↦ elim (Bool-cases (is_in dst ns)) [
    | inl c ↦ rw (a, c, a) (λ h. c)
    | inr c ↦ rw (a, c, a) (λ h. is_in-right dst ns (dst ∷ []) (rw (eq_refl dst) refl))
  ]
]

add_neighbor-key :
    (src dst x : String) (adj : Adjacency) → is_key x (add_neighbor src dst adj) ≡ is_key x adj
unfolding add_neighbor is_key
add_neighbor-key src dst x [] = refl
add_neighbor-key src dst x ((k, ns) ∷ adj) = elim (Bool-cases (k =s= src)) [
  | inr a ↦ rw (a, add_neighbor-key src dst x adj) refl
  | inl a ↦ rw a refl
]

-- One edge, put in at both ends.
both-Symmetric :
    (src dst : String) (adj : Adjacency)
    → is_key src adj ≡ true
    → is_key dst adj ≡ true
    → Symmetric adj
    → Symmetric (add_neighbor dst src (add_neighbor src dst adj))
both-Symmetric src dst adj ks kd s x y h =
    let one = add_neighbor src dst adj in
    let there : is_in dst (edges_of (add_neighbor dst src one) src) ≡ true =
      add_neighbor-keeps dst src src dst one (add_neighbor-has src dst adj ks) in
    let back : is_in src (edges_of (add_neighbor dst src one) dst) ≡ true =
      add_neighbor-has dst src one (add_neighbor-key src dst dst adj ∙ kd) in
    elim (add_neighbor-cases dst src x y one h) [
      | inr (e, f) ↦
          subst (λ z. is_in x (edges_of (add_neighbor dst src one) z) ≡ true) f
            (subst (λ z. is_in z (edges_of (add_neighbor dst src one) src) ≡ true) e there)
      | inl i ↦ elim (add_neighbor-cases src dst x y adj i) [
        | inr (e, f) ↦
            subst (λ z. is_in x (edges_of (add_neighbor dst src one) z) ≡ true) f
              (subst (λ z. is_in z (edges_of (add_neighbor dst src one) dst) ≡ true) e back)
        | inl j ↦ add_neighbor-keeps dst src y x one (add_neighbor-keeps src dst y x adj (s x y j))
      ]
    ]

add_edges-Symmetric :
    (es : List (String × String)) (adj : Adjacency) → Symmetric adj → Symmetric (add_edges es adj)
unfolding add_edges
add_edges-Symmetric [] adj s = s
add_edges-Symmetric ((src, dst) ∷ es) adj s = elim (Bool-cases (is_key src adj)) [
  | inr a ↦ rw a (add_edges-Symmetric es adj s)
  | inl a ↦ elim (Bool-cases (is_key dst adj)) [
    | inr b ↦ rw (a, b) (add_edges-Symmetric es adj s)
    | inl b ↦
        rw (a, b)
          (add_edges-Symmetric es (add_neighbor dst src (add_neighbor src dst adj))
            (both-Symmetric src dst adj a b s))
  ]
]

no_neighbor :
    (entities : List String) (x y : String)
    → is_in y (edges_of (map (λ e. (e, [])) entities) x) ≡ false
unfolding edges_of is_in
no_neighbor [] x y = refl
no_neighbor (e ∷ es) x y = elim (Bool-cases (e =s= x)) [
  | inl a ↦ rw a refl
  | inr a ↦ rw a (no_neighbor es x y)
]

new-Symmetric : (entities : List String) → Symmetric (map (λ e. (e, [])) entities)
new-Symmetric entities x y h = (let clash : true ≡ false = sym h ∙ no_neighbor entities x y in cc)

-- A list with distinct members has distinct ends, and none of its first part is in its last.
Distinct-gathered :
    (cs : List (List String)) (v : List String) → Distinct (gather cs v) → Distinct v
Distinct-gathered [] v d = d
Distinct-gathered (c ∷ cs) v d = Distinct-end c v (Distinct-gathered cs (c ++ v) d)
  where
    Distinct-end : (c v : List String) → Distinct (c ++ v) → Distinct v
    Distinct-end [] v d = d
    Distinct-end (x ∷ c) v (n, d) = Distinct-end c v d

apart :
    (c v : List String) (x : String)
    → Distinct (c ++ v)
    → is_in x c ≡ true
    → is_in x v ≡ true
    → true ≡ false
unfolding is_in
apart [] v x d h i = sym h
apart (y ∷ c) v x (n, d) h i = elim (is_in-cases x y c h) [
  | inl e ↦ sym (is_in-right y c v (subst (λ z. is_in z v ≡ true) (sym e) i)) ∙ n
  | inr j ↦ apart c v x d j i
]

is_in-append :
    (x : String) (c v : List String)
    → is_in x (c ++ v) ≡ true
    → (is_in x c ≡ true) ⊎ (is_in x v ≡ true)
unfolding is_in
is_in-append x [] v h = inr h
is_in-append x (y ∷ c) v h = elim (is_in-cases x y (c ++ v) h) [
  | inl e ↦ inl (subst (λ z. is_in z (y ∷ c) ≡ true) e (rw (eq_refl y) refl))
  | inr i ↦ elim (is_in-append x c v i) [ inl j ↦ inl (is_in-right x (y ∷ []) c j) | inr j ↦ inr j ]
]

-- The neighbours of a cluster's members are its members.
abbrev pub Whole : Adjacency → List String → Type 0
Whole adj c = (x y : String) → is_in x c ≡ true → is_in y (edges_of adj x) ≡ true → is_in y c ≡ true

All-Whole :
    (adj : Adjacency) (cs : List (List String)) (seen : List String)
    → Symmetric adj
    → Distinct (gather cs seen)
    → Closing adj seen cs
    → Whole adj seen
    → All (Whole adj) cs
All-Whole adj [] seen s d c w = tt
All-Whole adj (c ∷ cs) seen s d (closing, rest) w = (
  λ x y i j. elim (is_in-append y c seen (closing x y i j)) [
    | inl k ↦ k
    | inr k ↦
        (let clash : true ≡ false =
            apart c seen x (Distinct-gathered cs (c ++ seen) d) i (w y x k (s x y j)) in
          cc)
  ],
  All-Whole adj cs (c ++ seen) s d rest (λ x y i j. elim (is_in-append x c seen i) [
    | inl k ↦ closing x y k j
    | inr k ↦ is_in-right y c seen (w x y k j)
  ]),
)

-- With two turns for each edge and one more the clustering answers, whatever cycles the edges have.
-- Every entity is in a cluster, none is in two or twice in one, and every neighbour of a member is in
-- the same cluster.
pub simple_clustering-Whole :
    (fuel : ℕ) (entities : List String) (edges : List (String × String))
    → 2 * length edges + 1 ≤ fuel
    → let adj = add_edges edges (map (λ e. (e, [])) entities) in
      (cs : List (List String)) × (simple_clustering fuel entities edges ≡ some cs)
      × Distinct (gather cs [])
      × ((x : String) → is_in x entities ≡ true → is_in x (gather cs []) ≡ true)
      × All (Whole adj) cs
unfolding is_in
simple_clustering-Whole fuel entities edges h =
    let adj = add_edges edges (map (λ e. (e, [])) entities) in
    let (cs, found, distinct, covers, closing) = simple_clustering-Parted fuel entities edges h in
    (
      cs,
      found,
      distinct,
      covers,
      All-Whole adj cs []
          (add_edges-Symmetric edges (map (λ e. (e, [])) entities) (new-Symmetric entities))
          distinct closing (λ x y i j. cc),
    )
