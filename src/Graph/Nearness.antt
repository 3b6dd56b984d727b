-- ===== src/Graph/Nearness.antt =====
-- When `propagate_belief` of backend/app/services/graph/risk_propagation.py answers a positive risk.
use trust_shield.Base.{
  ℕ, suc, String, some, true, false, List, [], ◌∷◌, ◌≡◌, sym, ap, ◌∙◌, ◌+◌, ◌≤◌, arith, leb, length,
  All, Bool-cases, inl, inr,
}
use trust_shield.Base.Float.{FloatOps, FloatLaws, fmax, fmin}
use trust_shield.Graph.{
  is_in, is_key, Weighted, edges_of, Walk, visit, visit_all, expand, propagate_belief,
}
use trust_shield.Graph.Search.{names, search_rule}
use trust_shield.Graph.Belief.{Walks, of_search, unseen-le}
use trust_shield.Graph.Levels.{is_in-cases, Searching, turn-Searching, start-Searching, end-Done}

module _ {F : Type 0} (ops : FloatOps F) (pow : F → ℕ → F) where
  abbrev IsPositive : F → Type 0
  IsPositive x = ops.lt (ops.of_ℕ 0) x ≡ true

  -- A positive float added to one that is not negative gives a positive one.
  abbrev pub AddsUp : Type 0
  AddsUp = (a b : F) → ops.le (ops.of_ℕ 0) a ≡ true → IsPositive b → IsPositive (ops.add a b)

  -- Every edge adds a positive risk at every distance below the bound.
  abbrev pub AllPositive : Weighted F → F → ℕ → Type 0
  AllPositive g dampening max_hops =
      (hop : ℕ) (node : String)
      → suc hop ≤ max_hops
      → All (λ (e : String × F). IsPositive (ops.mul (pow dampening hop) e.1)) (edges_of g node)

  module _ (laws : FloatLaws ops) (adds : AddsUp) (seeds : List String) (max_hops : ℕ)
      (dampening : F) where
    -- The total is not negative, and positive once a seed was met.
    abbrev Counted : Walk F → Type 0
    Counted w =
        (ops.le (ops.of_ℕ 0) w.total_risk ≡ true)
        × ((s : String) → is_in s seeds ≡ true → is_in s w.visited ≡ true → IsPositive w.total_risk)

    visit-Counted :
        (hop : ℕ) (e : String × F) (w : Walk F)
        → IsPositive (ops.mul (pow dampening hop) e.1)
        → Counted w
        → Counted (visit ops pow seeds max_hops dampening hop e w)
    unfolding visit
    visit-Counted hop (n, x) w p (low, seen) = elim (Bool-cases (is_in n w.visited)) [
      | inl k ↦ rw k (low, seen)
      | inr k ↦
          let more = adds w.total_risk (ops.mul (pow dampening hop) x) low p in
          elim (Bool-cases (is_in n seeds)) [
            | inl m ↦
                rw (k, m)
                  (
                    laws.lt-le (ops.of_ℕ 0) (ops.add w.total_risk (ops.mul (pow dampening hop) x))
                        more,
                    λ s i j. more,
                  )
            | inr m ↦
                rw (k, m)
                  (
                    low,
                    λ s i j. elim (is_in-cases s n w.visited j) [
                      | inl e ↦
                          (let clash : true ≡ false = sym i ∙ ap (λ z. is_in z seeds) (sym e) ∙ m in
                            cc)
                      | inr v ↦ seen s i v
                    ],
                  )
          ]
    ]

    visit_all-Counted :
        (hop : ℕ) (es : List (String × F)) (w : Walk F)
        → All (λ (e : String × F). IsPositive (ops.mul (pow dampening hop) e.1)) es
        → Counted w
        → Counted (visit_all ops pow seeds max_hops dampening hop es w)
    unfolding visit_all
    visit_all-Counted hop [] w p c = c
    visit_all-Counted hop (e ∷ es) w (p, ps) c =
        visit_all-Counted hop es (visit ops pow seeds max_hops dampening hop e w) ps
          (visit-Counted hop e w p c)

    expand-Counted :
        (g : Weighted F) (n : String × ℕ) (w : Walk F)
        → AllPositive g dampening max_hops
        → Counted w
        → Counted (expand ops pow seeds max_hops dampening g n w)
    unfolding expand
    expand-Counted g (node, hop) w p c = elim (Bool-cases (leb max_hops hop)) [
      | inl h ↦ rw h c
      | inr h ↦ rw h (visit_all-Counted hop (edges_of g node) w (p hop node (ground arith)) c)
    ]

  -- A positive float stays positive between 0 and 1.
  clamped-IsPositive :
      IsPositive (ops.of_ℕ 1)
      → (r : F) → IsPositive r
      → IsPositive (fmin ops (ops.of_ℕ 1) (fmax ops (ops.of_ℕ 0) r))
  clamped-IsPositive one r p =
      rw p (elim (Bool-cases (ops.lt r (ops.of_ℕ 1))) [ inl h ↦ rw h p | inr h ↦ rw h one ])

  -- An entity of the graph, itself no seed, from which a walk of at most `max_hops` steps leads to a
  -- seed, has a positive propagated risk, with a turn for each edge and one more, when every edge
  -- adds a positive risk at every distance below `max_hops`.
  pub near_fraud :
      FloatLaws ops
      → AddsUp
      → IsPositive (ops.of_ℕ 1)
      → (fuel : ℕ) (g : Weighted F) (entity : String) (seeds : List String) (max_hops : ℕ)
      → (dampening : F) (n : ℕ) (s : String) → AllPositive g dampening max_hops
      → is_key entity g ≡ true
      → is_in entity seeds ≡ false
      → n ≤ max_hops
      → Walks g entity n s
      → is_in s seeds ≡ true
      → length (names g) + 1 ≤ fuel
      → (r : F) × (propagate_belief ops pow fuel g entity seeds max_hops dampening ≡ some r)
        × (ops.lt (ops.of_ℕ 0) r ≡ true)
  unfolding is_in
  near_fraud laws adds one fuel g entity seeds max_hops dampening n s p k e hn walk hs h =
      let C = Counted laws adds seeds max_hops dampening in
      let S = Searching g entity ops pow seeds max_hops dampening in
      let start : C
          (record { visited = entity ∷ []; queue = (entity, 0) ∷ []; total_risk = ops.of_ℕ 0 }) =
        (
          laws.le_refl (ops.of_ℕ 0),
          λ z i j. elim (is_in-cases z entity [] j) [
            | inl q ↦ (let clash : true ≡ false = sym i ∙ ap (λ u. is_in u seeds) (sym q) ∙ e in cc)
            | inr q ↦ cc
          ],
        ) in
      let (w, found, empty, (searched, (_, counted))) =
        search_rule ops pow seeds max_hops dampening (λ w. S w × C w) g
          (λ m v rest t (a, b). (
            turn-Searching g entity ops pow seeds max_hops dampening m v rest t a,
            expand-Counted laws adds seeds max_hops dampening g m
                (record { visited = v; queue = rest; total_risk = t }) p b,
          ))
          fuel (entity ∷ []) ((entity, 0) ∷ []) (ops.of_ℕ 0)
          (omega (arith, h, unseen-le (names g) (entity ∷ [])))
          (start-Searching g entity ops pow seeds max_hops dampening (ops.of_ℕ 0), start) in
      let done = end-Done g entity ops pow seeds max_hops dampening w empty searched in
      (
        fmin ops (ops.of_ℕ 1) (fmax ops (ops.of_ℕ 0) w.total_risk),
        of_search ops pow fuel g entity seeds max_hops dampening w.total_risk e k found,
        clamped-IsPositive one w.total_risk (counted s hs (done n s hn walk)),
      )
