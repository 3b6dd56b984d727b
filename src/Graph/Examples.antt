-- ===== src/Graph/Examples.antt =====
-- The theorems on the graph's algorithms, at a cycle of three entities.
use trust_shield.Base.{
  All, ℕ, zero, suc, ◌*◌, ◌=s=◌, Bool-cases, inl, inr, String, some, true, List, [], ◌∷◌, ◌≡◌, refl,
  arith, leb, ltb, map,
}
use trust_shield.Base.Whole.{whole_floats, whole_laws}
use trust_shield.Graph.{
  is_in, is_key, edges_of, Weighted, propagate_belief, add_edges, add_neighbor, simple_clustering,
  clusters_from, grow, take_in,
}
use trust_shield.Graph.Clusters.{Distinct}
use trust_shield.Graph.Components.{Whole, simple_clustering-Whole}
use trust_shield.Graph.Partition.{gather}
use trust_shield.Graph.Belief.{Walks, here, on, Far, propagate_belief_bounded}
use trust_shield.Graph.Nearness.{AllPositive, near_fraud}

abbrev power : ℕ → ℕ → ℕ
power b zero = 1
power b (suc n) = b * power b n

power_one : (n : ℕ) → power 1 n ≡ 1
power_one zero = refl
power_one (suc n) = omega (arith, power_one n)

-- a → b → c → a, each edge with the weight 1
abbrev cycle : Weighted ℕ
cycle = ("a", ("b", 1) ∷ []) ∷ ("b", ("c", 1) ∷ []) ∷ ("c", ("a", 1) ∷ []) ∷ []

propagate_belief_bounded_example :
    (r : ℕ) × (propagate_belief whole_floats power 4 cycle "a" ("c" ∷ []) 3 1 ≡ some r)
    × (leb 0 r ≡ true)
    × (leb r 1 ≡ true)
propagate_belief_bounded_example =
    propagate_belief_bounded whole_floats power whole_laws 4 cycle "a" ("c" ∷ []) 3 1 (omega arith)

no_seed : Far whole_floats power cycle "a" [] 3
unfolding is_in
no_seed n s h walk = refl

all_positive : AllPositive whole_floats power cycle 1 3
unfolding edges_of
all_positive hop node near = elim (Bool-cases ("a" =s= node)) [
  | inl h ↦ rw (h, power_one hop) (refl, tt)
  | inr h ↦ elim (Bool-cases ("b" =s= node)) [
    | inl i ↦ rw (h, i, power_one hop) (refl, tt)
    | inr i ↦ elim (Bool-cases ("c" =s= node)) [
      | inl j ↦ rw (h, i, j, power_one hop) (refl, tt)
      | inr j ↦ rw (h, i, j) tt
    ]
  ]
]

two_steps : Walks cycle "a" 2 "c"
unfolding is_in edges_of
two_steps = on {b = "b"} (on {b = "a"} here refl) refl

near_fraud_example :
    (r : ℕ) × (propagate_belief whole_floats power 4 cycle "a" ("c" ∷ []) 3 1 ≡ some r)
    × (ltb 0 r ≡ true)
unfolding is_in is_key
near_fraud_example =
    near_fraud whole_floats power whole_laws (λ a b h p. ground arith) refl 4 cycle "a" ("c" ∷ []) 3
      1 2 "c" all_positive refl refl (omega arith) two_steps refl (omega arith)

abbrev entities : List String
entities = "a" ∷ "b" ∷ "c" ∷ []

abbrev edges : List (String × String)
edges = ("a", "b") ∷ ("b", "a") ∷ []

simple_clustering-Whole_example :
    let adj = add_edges edges (map (λ e. (e, [])) entities) in
    (cs : List (List String)) × (simple_clustering 5 entities edges ≡ some cs)
    × Distinct (gather cs [])
    × ((x : String) → is_in x entities ≡ true → is_in x (gather cs []) ≡ true)
    × All (Whole adj) cs
simple_clustering-Whole_example = simple_clustering-Whole 5 entities edges (omega arith)

two_clusters : simple_clustering 5 entities edges ≡ some (("b" ∷ "a" ∷ []) ∷ ("c" ∷ []) ∷ [])
unfolding simple_clustering clusters_from grow take_in add_edges add_neighbor is_key is_in edges_of
two_clusters = refl
