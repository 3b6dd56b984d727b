-- ===== src/Graph/Belief.antt =====
-- What `propagate_belief` of backend/app/services/graph/risk_propagation.py answers.
use trust_shield.Base.{
  ℕ, String, some, true, false, List, [], ◌∷◌, map, ◌≡◌, refl, ap, ◌∙◌, ◌+◌, ◌≤◌, ◌<◌, arith, leb,
  length, All, All-map, All-append, Bool-cases, inl, inr, eq_refl,
}
use trust_shield.Base.Float.{FloatOps, FloatLaws, fmax, fmin}
use trust_shield.Graph.{
  is_in, is_key, Weighted, edges_of, Walk, visit, visit_all, expand, search, propagate_belief,
}
use trust_shield.Graph.Search.{names, unseen, is_in-right, search_rule}

-- A walk of a number of steps along the edges.
pub data Walks {F : Type 0} (g : Weighted F) (a : String) : ℕ → String → Type 0 where
  here : Walks g a 0 a
  on :
      {n : ℕ} {b c : String}
      → Walks g a n b
      → is_in c (map (λ e. e.0) (edges_of g b)) ≡ true
      → Walks g a (n + 1) c

pub unseen-le : (xs seen : List String) → unseen xs seen ≤ length xs
unfolding unseen
unseen-le [] seen = omega arith
unseen-le (x ∷ xs) seen = ground (arith, unseen-le xs seen)

own_ends :
    {F : Type 0} (es : List (String × F))
    → All (λ (e : String × F). is_in e.0 (map (λ e. e.0) es) ≡ true) es
unfolding is_in
own_ends [] = tt
own_ends {F} ((n, x) ∷ es) = (
  rw (eq_refl n) refl,
  All-map (λ (e : String × F). is_in e.0 (map (λ e. e.0) es) ≡ true)
      (λ (e : String × F). is_in e.0 (n ∷ map (λ e. e.0) es) ≡ true) es
      (λ e h. is_in-right e.0 (n ∷ []) (map (λ e. e.0) es) h) (own_ends es),
)

module _ {F : Type 0} (ops : FloatOps F) (pow : F → ℕ → F) where
  -- Clamping to the interval from 0 to 1.
  clamped :
      FloatLaws ops
      → (r : F)
      → let x = fmin ops (ops.of_ℕ 1) (fmax ops (ops.of_ℕ 0) r) in
        (ops.le (ops.of_ℕ 0) x ≡ true) × (ops.le x (ops.of_ℕ 1) ≡ true)
  clamped laws r =
      let m = fmax ops (ops.of_ℕ 0) r in
      let low : ops.le (ops.of_ℕ 0) m ≡ true = elim (Bool-cases (ops.lt (ops.of_ℕ 0) r)) [
        | inl h ↦ rw h (laws.lt-le (ops.of_ℕ 0) r h)
        | inr h ↦ rw h (laws.le_refl (ops.of_ℕ 0))
      ] in
      elim (Bool-cases (ops.lt m (ops.of_ℕ 1))) [
        | inl h ↦ rw h (low, laws.lt-le m (ops.of_ℕ 1) h)
        | inr h ↦ rw h (laws.le-of_ℕ 0 1 (omega arith), laws.le_refl (ops.of_ℕ 1))
      ]

  clamped-zero :
      ops.lt (ops.of_ℕ 0) (ops.of_ℕ 1) ≡ true
      → (r : F) → r ≡ ops.of_ℕ 0
      → fmin ops (ops.of_ℕ 1) (fmax ops (ops.of_ℕ 0) r) ≡ ops.of_ℕ 0
  clamped-zero h r e =
      ap (λ x. fmin ops (ops.of_ℕ 1) (fmax ops (ops.of_ℕ 0) x)) e
      ∙ elim (Bool-cases (ops.lt (ops.of_ℕ 0) (ops.of_ℕ 0))) [
        | inl k ↦ rw (k, h) refl
        | inr k ↦ rw (k, h) refl
      ]

  -- The answer of a search from one entity, put into the interval.
  pub of_search :
      (fuel : ℕ) (g : Weighted F) (entity : String) (seeds : List String) (max_hops : ℕ)
      → (dampening r : F) → is_in entity seeds ≡ false
      → is_key entity g ≡ true
      → search ops pow seeds max_hops dampening fuel g
          (record { visited = entity ∷ []; queue = (entity, 0) ∷ []; total_risk = ops.of_ℕ 0 })
        ≡ some r
      → propagate_belief ops pow fuel g entity seeds max_hops dampening
        ≡ some (fmin ops (ops.of_ℕ 1) (fmax ops (ops.of_ℕ 0) r))
  unfolding propagate_belief
  of_search fuel g entity seeds max_hops dampening r a b h = rw (a, propagate_belief, b, h) refl

  -- With one turn for each edge and one more, `propagate_belief` answers, whatever cycles the graph
  -- has, and the answer lies between 0 and 1.
  pub propagate_belief_bounded :
      FloatLaws ops
      → (fuel : ℕ) (g : Weighted F) (entity : String) (seeds : List String) (max_hops : ℕ)
      → (dampening : F) → length (names g) + 1 ≤ fuel
      → (r : F) × (propagate_belief ops pow fuel g entity seeds max_hops dampening ≡ some r)
        × (ops.le (ops.of_ℕ 0) r ≡ true)
        × (ops.le r (ops.of_ℕ 1) ≡ true)
  unfolding propagate_belief
  propagate_belief_bounded laws fuel g entity seeds max_hops dampening h =
      let low : ops.le (ops.of_ℕ 0) (ops.of_ℕ 0) ≡ true = laws.le_refl (ops.of_ℕ 0) in
      let high : ops.le (ops.of_ℕ 0) (ops.of_ℕ 1) ≡ true = laws.le-of_ℕ 0 1 (omega arith) in
      elim (Bool-cases (is_in entity seeds)) [
        | inl a ↦ (ops.of_ℕ 0, rw (a, propagate_belief) refl, low, high)
        | inr a ↦ elim (Bool-cases (is_key entity g)) [
          | inr b ↦ (ops.of_ℕ 0, rw (a, propagate_belief, b) refl, low, high)
          | inl b ↦
              let (w, found, _, _) =
                search_rule ops pow seeds max_hops dampening (λ w. Unit) g (λ n v rest t k. tt) fuel
                  (entity ∷ []) ((entity, 0) ∷ []) (ops.of_ℕ 0)
                  (omega (arith, h, unseen-le (names g) (entity ∷ []))) tt in
              let (low, high) = clamped laws w.total_risk in
              (
                fmin ops (ops.of_ℕ 1) (fmax ops (ops.of_ℕ 0) w.total_risk),
                of_search fuel g entity seeds max_hops dampening w.total_risk a b found,
                low,
                high,
              )
        ]
      ]

  module _ (g : Weighted F) (entity : String) (seeds : List String) (max_hops : ℕ) where
    -- No walk of at most `max_hops` steps leads to a seed.
    abbrev pub Far : Type 0
    Far = (n : ℕ) (s : String) → n ≤ max_hops → Walks g entity n s → is_in s seeds ≡ false

    -- The queue holds ends of walks, and no risk was found.
    abbrev Clean : Walk F → Type 0
    Clean w = All (λ (n : String × ℕ). Walks g entity n.1 n.0) w.queue × (w.total_risk ≡ ops.of_ℕ 0)

    visit-Clean :
        (dampening : F) (hop : ℕ) (node : String) (e : String × F) (w : Walk F)
        → Far
        → hop < max_hops
        → Walks g entity hop node
        → is_in e.0 (map (λ e. e.0) (edges_of g node)) ≡ true
        → Clean w
        → Clean (visit ops pow seeds max_hops dampening hop e w)
    unfolding visit
    visit-Clean dampening hop node (n, x) w far h walk i (q, t) =
        elim (Bool-cases (is_in n w.visited)) [
          | inl k ↦ rw k (q, t)
          | inr k ↦
              rw (k, far (hop + 1) n (omega (arith, h)) (on walk i))
                (
                  All-append (λ (n : String × ℕ). Walks g entity n.1 n.0) w.queue
                      ((n, hop + 1) ∷ []) q (on walk i, tt),
                  t,
                )
        ]

    visit_all-Clean :
        (dampening : F) (hop : ℕ) (node : String) (es : List (String × F)) (w : Walk F)
        → Far
        → hop < max_hops
        → Walks g entity hop node
        → All (λ (e : String × F). is_in e.0 (map (λ e. e.0) (edges_of g node)) ≡ true) es
        → Clean w
        → Clean (visit_all ops pow seeds max_hops dampening hop es w)
    unfolding visit_all
    visit_all-Clean dampening hop node [] w far h walk i c = c
    visit_all-Clean dampening hop node (e ∷ es) w far h walk (i, is) c =
        visit_all-Clean dampening hop node es (visit ops pow seeds max_hops dampening hop e w) far h
          walk is (visit-Clean dampening hop node e w far h walk i c)

    expand-Clean :
        (dampening : F) (n : String × ℕ) (v : List String) (rest : List (String × ℕ)) (t : F)
        → Far
        → Clean (record { visited = v; queue = n ∷ rest; total_risk = t })
        → Clean (
            expand ops pow seeds max_hops dampening g n
              (record { visited = v; queue = rest; total_risk = t }))
    unfolding expand
    expand-Clean dampening (node, hop) v rest t far ((walk, q), z) =
        elim (Bool-cases (leb max_hops hop)) [
          | inl h ↦ rw h (q, z)
          | inr h ↦ rw h (
              visit_all-Clean dampening hop node (edges_of g node)
                (record { visited = v; queue = rest; total_risk = t }) far (ground (arith, h)) walk
                (own_ends (edges_of g node)) (q, z))
        ]

  -- An entity from which no walk of at most `max_hops` steps leads to a seed has a propagated risk
  -- of exactly 0, with a turn for each edge and one more.
  pub far_from_fraud :
      ops.lt (ops.of_ℕ 0) (ops.of_ℕ 1) ≡ true
      → (fuel : ℕ) (g : Weighted F) (entity : String) (seeds : List String) (max_hops : ℕ)
      → (dampening : F) → Far g entity seeds max_hops
      → length (names g) + 1 ≤ fuel
      → propagate_belief ops pow fuel g entity seeds max_hops dampening ≡ some (ops.of_ℕ 0)
  unfolding propagate_belief
  far_from_fraud lt01 fuel g entity seeds max_hops dampening far h =
      elim (Bool-cases (is_key entity g)) [
        | inr b ↦ rw (far 0 entity (omega arith) here, propagate_belief, b) refl
        | inl b ↦
            let (w, found, _, (_, z)) =
              search_rule ops pow seeds max_hops dampening (Clean g entity seeds max_hops) g
                (λ n v rest t k. expand-Clean g entity seeds max_hops dampening n v rest t far k)
                fuel (entity ∷ []) ((entity, 0) ∷ []) (ops.of_ℕ 0)
                (omega (arith, h, unseen-le (names g) (entity ∷ []))) ((here, tt), refl) in
            of_search fuel g entity seeds max_hops dampening w.total_risk
              (far 0 entity (omega arith) here) b found
            ∙ ap some (clamped-zero lt01 w.total_risk z)
      ]
