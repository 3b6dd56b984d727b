-- ===== src/Graph/Clusters.antt =====
-- The clusters of `_simple_clustering`, backend/app/services/graph/ring_detection.py.
use trust_shield.Base.{
  ℕ, zero, suc, String, some, Bool, true, false, not, List, [], ◌∷◌, ◌++◌, ◌≡◌, refl, sym, ap, ◌∙◌,
  ◌+◌, ◌≤◌, ◌=s=◌, ◌⊎◌, arith, if◌then◌else◌, length, length-append, select, Bool-cases, inl, inr,
  eq_refl, eq_iff, subst,
}
use trust_shield.Graph.{is_in, edges_of, Cluster, take_in, grow}
use trust_shield.Graph.Search.{is_in-left, is_in-right}
use trust_shield.Graph.Levels.{is_in-cases}

abbrev pub Adjacency : Type 0
Adjacency = List (String × List String)

-- The neighbours of the nodes that were not visited.
unfoldable pub waiting : Adjacency → List String → ℕ
waiting [] visited = 0
waiting ((k, ns) ∷ adj) visited = (if is_in k visited then 0 else length ns) + waiting adj visited

pub waiting-grown :
    (adj : Adjacency) (v : List String) (n : String) → waiting adj (n ∷ v) ≤ waiting adj v
unfolding waiting is_in
waiting-grown [] v n = omega arith
waiting-grown ((k, ns) ∷ adj) v n = elim (Bool-cases (n =s= k)) [
  | inl h ↦ rw h (ground (arith, waiting-grown adj v n))
  | inr h ↦ rw h (omega (arith, waiting-grown adj v n))
]

-- A visited node's neighbours wait no longer.
waiting-visited :
    (adj : Adjacency) (v : List String) (n : String)
    → is_in n v ≡ false
    → waiting adj (n ∷ v) + length (edges_of adj n) ≤ waiting adj v
unfolding waiting is_in edges_of
waiting-visited [] v n h = omega arith
waiting-visited ((k, ns) ∷ adj) v n h = elim (Bool-cases (k =s= n)) [
  | inl e ↦
      let same : is_in k v ≡ false = ap (λ z. is_in z v) ((eq_iff k n).0 e) ∙ h in
      let back : (n =s= k) ≡ true = ap (λ z. n =s= z) ((eq_iff k n).0 e) ∙ eq_refl n in
      rw (e, same, back) (omega (arith, waiting-grown adj v n))
  | inr e ↦ elim (Bool-cases (n =s= k)) [
    | inl f ↦ rw (e, f) (ground (arith, waiting-visited adj v n h))
    | inr f ↦ rw (e, f) (omega (arith, waiting-visited adj v n h))
  ]
]

length-select : {A : Type 0} (p : A → Bool) (xs : List A) → length (select p xs) ≤ length xs
length-select p [] = omega arith
length-select p (x ∷ xs) = ground (arith, length-select p xs)

-- The turns that are left.
abbrev left : Adjacency → Cluster → ℕ
left adj c = length c.stack + waiting adj c.visited

take_in-left :
    (adj : Adjacency) (n : String) (c : Cluster) → left adj (take_in adj n c) ≤ left adj c
unfolding take_in
take_in-left adj n c = elim (Bool-cases (is_in n c.visited)) [
  | inl h ↦ rw h (omega arith)
  | inr h ↦
      let fresh = select (λ m. not (is_in m (n ∷ c.visited))) (edges_of adj n) in
      rw h (
        omega (
          arith,
          waiting-visited adj c.visited n h,
          length-append fresh c.stack,
          length-select (λ m. not (is_in m (n ∷ c.visited))) (edges_of adj n),
        ))
]

-- The rule of the inner loop.
pub grow_rule :
    (Keeps : Cluster → Type 0) (adj : Adjacency)
    → ((n : String) (v comp rest : List String)
        → Keeps (record { visited = v; component = comp; stack = n ∷ rest })
        → Keeps (take_in adj n (record { visited = v; component = comp; stack = rest })))
    → (fuel : ℕ) (v comp stack : List String) → length stack + waiting adj v ≤ fuel
    → Keeps (record { visited = v; component = comp; stack = stack })
    → (c : Cluster) × (grow fuel adj (record { visited = v; component = comp; stack = stack })
        ≡ some c)
      × (c.stack ≡ [])
      × Keeps c
unfolding grow
grow_rule Keeps adj step zero v comp [] h k =
    (record { visited = v; component = comp; stack = [] }, refl, refl, k)
grow_rule Keeps adj step zero v comp (n ∷ rest) h k =
    (let clash : suc zero ≡ zero = omega (arith, h) in cc)
grow_rule Keeps adj step (suc fuel) v comp [] h k =
    (record { visited = v; component = comp; stack = [] }, refl, refl, k)
grow_rule Keeps adj step (suc fuel) v comp (n ∷ rest) h k =
    let c = take_in adj n (record { visited = v; component = comp; stack = rest }) in
    grow_rule Keeps adj step fuel c.visited c.component c.stack
      (omega
        (arith, h, take_in-left adj n (record { visited = v; component = comp; stack = rest })))
      (step n v comp rest k)

-- No member stands twice in a list.
abbrev pub Distinct : List String → Type 0
Distinct [] = Unit
Distinct (x ∷ xs) = (is_in x xs ≡ false) × Distinct xs

is_in-select :
    (p : String → Bool) (xs : List String) (x : String)
    → is_in x xs ≡ true
    → p x ≡ true
    → is_in x (select p xs) ≡ true
unfolding is_in
is_in-select p [] x h k = cc
is_in-select p (y ∷ xs) x h k = elim (is_in-cases x y xs h) [
  | inl e ↦
      let q : p y ≡ true = ap p e ∙ k in
      rw q (subst (λ z. is_in z (y ∷ select p xs) ≡ true) e (rw (eq_refl y) refl))
  | inr i ↦ elim (Bool-cases (p y)) [
    | inl q ↦ rw q (is_in-right x (y ∷ []) (select p xs) (is_in-select p xs x i k))
    | inr q ↦ rw q (is_in-select p xs x i k)
  ]
]

-- An entity was visited or is on the stack.
abbrev pub Known : String → Cluster → Type 0
Known x c = (is_in x c.visited ≡ true) ⊎ (is_in x c.stack ≡ true)

-- What one cluster keeps: its members are those visited since it began, each once; its first node
-- and the neighbours of the visited are visited or on the stack.
pub record One (adj : Adjacency) (before : List String) (root : String) (c : Cluster) : Type 0 where
  pub since : c.visited ≡ c.component ++ before
  pub distinct : Distinct c.visited
  pub rooted : Known root c
  pub closed :
      (x y : String) → is_in x c.visited ≡ true → is_in y (edges_of adj x) ≡ true → Known y c

-- The node that is taken from the stack is known after it as well.
take_in-Known :
    (adj : Adjacency) (n x : String) (v comp rest : List String)
    → Known x (record { visited = v; component = comp; stack = n ∷ rest })
    → Known x (take_in adj n (record { visited = v; component = comp; stack = rest }))
unfolding take_in is_in
take_in-Known adj n x v comp rest r = elim (Bool-cases (is_in n v)) [
  | inl h ↦ rw h (elim r [
    | inl i ↦ inl i
    | inr j ↦ elim (is_in-cases x n rest j) [
      | inl e ↦ inl (subst (λ z. is_in z v ≡ true) e h)
      | inr i ↦ inr i
    ]
  ])
  | inr h ↦ rw h (elim r [
    | inl i ↦ inl (is_in-right x (n ∷ []) v i)
    | inr j ↦ elim (is_in-cases x n rest j) [
      | inl e ↦ inl (subst (λ z. is_in z (n ∷ v) ≡ true) e (rw (eq_refl n) refl))
      | inr i ↦ inr (is_in-right x (select (λ m. not (is_in m (n ∷ v))) (edges_of adj n)) rest i)
    ]
  ])
]

-- The neighbours of the node itself.
take_in-closed :
    (adj : Adjacency) (n y : String) (v comp rest : List String)
    → is_in n v ≡ false
    → is_in y (edges_of adj n) ≡ true
    → Known y (take_in adj n (record { visited = v; component = comp; stack = rest }))
unfolding take_in
take_in-closed adj n y v comp rest h i = elim (Bool-cases (is_in y (n ∷ v))) [
  | inl k ↦ rw h (inl k)
  | inr k ↦
      let fresh = select (λ m. not (is_in m (n ∷ v))) (edges_of adj n) in
      rw h (
        inr (
          is_in-left y fresh rest
            (is_in-select (λ m. not (is_in m (n ∷ v))) (edges_of adj n) y i (ap not k))))
]

pub take_in-One :
    (adj : Adjacency) (before : List String) (root n : String) (v comp rest : List String)
    → One adj before root (record { visited = v; component = comp; stack = n ∷ rest })
    → One adj before root (take_in adj n (record { visited = v; component = comp; stack = rest }))
unfolding take_in
take_in-One adj before root n v comp rest o = elim (Bool-cases (is_in n v)) [
  | inl h ↦ record {
    since = rw h o.since;
    distinct = rw h o.distinct;
    rooted = take_in-Known adj n root v comp rest o.rooted;
    closed = λ x y i j. take_in-Known adj n y v comp rest (o.closed x y (rw h at i) j);
  }
  | inr h ↦ record {
    since = rw h (ap (λ l. n ∷ l) o.since);
    distinct = rw h (h, o.distinct);
    rooted = take_in-Known adj n root v comp rest o.rooted;
    closed = λ x y i j. elim (is_in-cases x n v (rw h at i)) [
      | inl e ↦
          take_in-closed adj n y v comp rest h
            (subst (λ z. is_in y (edges_of adj z) ≡ true) (sym e) j)
      | inr k ↦ take_in-Known adj n y v comp rest (o.closed x y k j)
    ];
  }
]
