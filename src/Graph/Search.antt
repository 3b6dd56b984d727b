-- ===== src/Graph/Search.antt =====
-- The loop of `propagate_belief` of backend/app/services/graph/risk_propagation.py: the turns it needs
-- and a rule for its invariants.
use trust_shield.Base.{
  ℕ, zero, suc, String, some, true, false, not, List, [], ◌∷◌, ◌++◌, map, ◌≡◌, refl, ap, ◌∙◌, ◌+◌,
  ◌≤◌, ◌=s=◌, arith, leb, length, length-append, count_by, All, All-map, Bool-cases, inl, inr,
  eq_iff, eq_refl,
}
use trust_shield.Base.Float.{FloatOps}
use trust_shield.Graph.{is_in, Weighted, edges_of, Walk, visit, visit_all, expand, search}

-- The entities at the ends of the edges, one for each edge.
abbrev pub names : {F : Type 0} → Weighted F → List String
names [] = []
names ((k, es) ∷ g) = map (λ e. e.0) es ++ names g

-- How many of a list are not in a set.
unfoldable pub unseen : List String → List String → ℕ
unseen xs seen = count_by (λ x. not (is_in x seen)) xs

unseen-grown : (xs seen : List String) (n : String) → unseen xs (n ∷ seen) ≤ unseen xs seen
unfolding unseen is_in
unseen-grown [] seen n = omega arith
unseen-grown (x ∷ xs) seen n = elim (Bool-cases (n =s= x)) [
  | inl h ↦ rw h (omega (arith, unseen-grown xs seen n))
  | inr h ↦ rw h (omega (arith, unseen-grown xs seen n))
]

is_in-of_equal : (x y : String) (xs : List String) → (x =s= y) ≡ true → is_in x xs ≡ is_in y xs
is_in-of_equal x y xs h = ap (λ z. is_in z xs) ((eq_iff x y).0 h)

-- A new member of the list is seen from now on.
unseen-smaller :
    (xs seen : List String) (n : String)
    → is_in n xs ≡ true
    → is_in n seen ≡ false
    → unseen xs (n ∷ seen) + 1 ≤ unseen xs seen
unfolding unseen is_in
unseen-smaller [] seen n h k = cc
unseen-smaller (x ∷ xs) seen n h k = elim (Bool-cases (x =s= n)) [
  | inl e ↦
      let same : is_in x seen ≡ false = is_in-of_equal x n seen e ∙ k in
      let back : (n =s= x) ≡ true = ap (λ z. n =s= z) ((eq_iff x n).0 e) ∙ eq_refl n in
      rw (same, back) (omega (arith, unseen-grown xs seen n))
  | inr e ↦
      let rest = unseen-smaller xs seen n (rw e at h) k in
      elim (Bool-cases (n =s= x)) [
        | inl f ↦ rw f (omega (arith, rest))
        | inr f ↦ rw f (omega (arith, rest))
      ]
]

pub is_in-left : (x : String) (xs ys : List String) → is_in x xs ≡ true → is_in x (xs ++ ys) ≡ true
unfolding is_in
is_in-left x [] ys h = cc
is_in-left x (y ∷ xs) ys h = elim (Bool-cases (y =s= x)) [
  | inl e ↦ rw e refl
  | inr e ↦ rw e (is_in-left x xs ys (rw e at h))
]

pub is_in-right : (x : String) (xs ys : List String) → is_in x ys ≡ true → is_in x (xs ++ ys) ≡ true
unfolding is_in
is_in-right x [] ys h = h
is_in-right x (y ∷ xs) ys h = elim (Bool-cases (y =s= x)) [
  | inl e ↦ rw e refl
  | inr e ↦ rw e (is_in-right x xs ys h)
]

-- An edge whose end is in a list.
abbrev EndsIn : {F : Type 0} → List String → String × F → Type 0
EndsIn xs e = is_in e.0 xs ≡ true

ends_of :
    {F : Type 0} (es : List (String × F)) (ys : List String)
    → All (EndsIn (map (λ e. e.0) es ++ ys)) es
unfolding is_in
ends_of [] ys = tt
ends_of ((n, x) ∷ es) ys = (
  rw (eq_refl n) refl,
  All-map (EndsIn (map (λ e. e.0) es ++ ys)) (EndsIn (n ∷ map (λ e. e.0) es ++ ys)) es
      (λ e h. is_in-right e.0 (n ∷ []) (map (λ e. e.0) es ++ ys) h) (ends_of es ys),
)

edges_of-EndsIn :
    {F : Type 0} (g : Weighted F) (node : String) → All (EndsIn (names g)) (edges_of g node)
unfolding edges_of
edges_of-EndsIn [] node = tt
edges_of-EndsIn ((k, es) ∷ g) node = elim (Bool-cases (k =s= node)) [
  | inl h ↦ rw h (ends_of es (names g))
  | inr h ↦ rw h (
      All-map (EndsIn (names g)) (EndsIn (names ((k, es) ∷ g))) (edges_of g node)
        (λ e i. is_in-right e.0 (map (λ e. e.0) es) (names g) i) (edges_of-EndsIn g node))
]

-- What is left to do: the entities not seen yet and the queue.
abbrev pending : {F : Type 0} → List String → Walk F → ℕ
pending xs w = unseen xs w.visited + length w.queue

module _ {F : Type 0} (ops : FloatOps F) (pow : F → ℕ → F) where
  module _ (seeds : List String) (max_hops : ℕ) (dampening : F) where
    visit-pending :
        (xs : List String) (hop : ℕ) (e : String × F) (w : Walk F)
        → EndsIn xs e
        → pending xs (visit ops pow seeds max_hops dampening hop e w) ≤ pending xs w
    unfolding visit
    visit-pending xs hop (n, x) w h = elim (Bool-cases (is_in n w.visited)) [
      | inl k ↦ rw k (omega arith)
      | inr k ↦ rw k (
          omega
            (arith, unseen-smaller xs w.visited n h k, length-append w.queue ((n, hop + 1) ∷ [])))
    ]

    visit_all-pending :
        (xs : List String) (hop : ℕ) (es : List (String × F)) (w : Walk F)
        → All (EndsIn xs) es
        → pending xs (visit_all ops pow seeds max_hops dampening hop es w) ≤ pending xs w
    unfolding visit_all
    visit_all-pending xs hop [] w h = omega arith
    visit_all-pending xs hop (e ∷ es) w (h, hs) = omega (
      arith,
      visit-pending xs hop e w h,
      visit_all-pending xs hop es (visit ops pow seeds max_hops dampening hop e w) hs,
    )

    expand-pending :
        (g : Weighted F) (n : String × ℕ) (w : Walk F)
        → pending (names g) (expand ops pow seeds max_hops dampening g n w) ≤ pending (names g) w
    unfolding expand
    expand-pending g (node, hop) w = elim (Bool-cases (leb max_hops hop)) [
      | inl h ↦ rw h (omega arith)
      | inr h ↦ rw h (visit_all-pending (names g) hop (edges_of g node) w (edges_of-EndsIn g node))
    ]

    -- The rule of the loop: with a turn for each entity that is not seen and each member of the queue
    -- it answers, and what every turn keeps holds at its end.
    pub search_rule :
        (Keeps : Walk F → Type 0) (g : Weighted F)
        → ((n : String × ℕ) (v : List String) (rest : List (String × ℕ)) (t : F)
            → Keeps (record { visited = v; queue = n ∷ rest; total_risk = t })
            → Keeps (
                expand ops pow seeds max_hops dampening g n
                  (record { visited = v; queue = rest; total_risk = t })))
        → (fuel : ℕ) (v : List String) (q : List (String × ℕ)) (t : F)
        → unseen (names g) v + length q ≤ fuel
        → Keeps (record { visited = v; queue = q; total_risk = t })
        → (end : Walk F) × (search ops pow seeds max_hops dampening fuel g
              (record { visited = v; queue = q; total_risk = t })
            ≡ some end.total_risk)
          × (end.queue ≡ [])
          × Keeps end
    unfolding search
    search_rule Keeps g step zero v [] t h k =
        (record { visited = v; queue = []; total_risk = t }, refl, refl, k)
    search_rule Keeps g step zero v (n ∷ q) t h k =
        (let clash : suc zero ≡ zero = omega (arith, h) in cc)
    search_rule Keeps g step (suc fuel) v [] t h k =
        (record { visited = v; queue = []; total_risk = t }, refl, refl, k)
    search_rule Keeps g step (suc fuel) v (n ∷ q) t h k =
        let next =
          expand ops pow seeds max_hops dampening g n
            (record { visited = v; queue = q; total_risk = t }) in
        search_rule Keeps g step fuel next.visited next.queue next.total_risk
          (omega (arith, h, expand-pending g n (record { visited = v; queue = q; total_risk = t })))
          (step n v q t k)
