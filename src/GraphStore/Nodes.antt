-- ===== src/GraphStore/Nodes.antt =====
-- What each operation of the store of backend/app/services/graph/entity_graph.py keeps: nodes with
-- distinct values, and risk scores of at most 1.
use trust_shield.Base.{
  map, length, ◌==◌, sym, ℕ, zero, suc, String, Option, none, some, Bool, true, false, not, ◌&&◌,
  List, [], ◌∷◌, ◌≡◌, ◌≢◌, refl, ap, subst, ◌||◌, ◌+◌, ◌=s=◌, if◌then◌else◌, arith, All, Bool-cases,
  Option-cases, inl, inr, select, find_first, any, text_ne, some_inj,
}
use trust_shield.Base.Float.{FloatOps, FloatLaws, fmin}
use trust_shield.GraphStore.{
  Update, set_scores, set_ring, unwind, update_entity_scores, update_ring_ids,
  invalidate_all_risk_cache, Entity, Node, Event, entity_event, link_event, Store, Servers, lookup,
  has_value, merge_node, invalidate_cache, buffer_to_backlog, add_entity_raw, add_entity,
  add_session_link_raw, add_session_link, replay, drain, compute_entity_risk, get_entity_risk,
}

-- No two nodes have a value in common.
abbrev pub Distinct : {F : Type 0} → List (Node F) → Type 0
Distinct [] = Unit
Distinct (n ∷ ns) = All (λ m. n.value ≢ m.value) ns × Distinct ns

All-select :
    {A : Type 0} (P : A → Type 0) (p : A → Bool) (xs : List A) → All P xs → All P (select p xs)
All-select P p [] h = tt
All-select P p (x ∷ xs) (h, hs) = elim (Bool-cases (p x)) [
  | inl e ↦ rw e (h, All-select P p xs hs)
  | inr e ↦ rw e (All-select P p xs hs)
]

map-values :
    {F : Type 0} (P : String → Type 0) (f : Node F → Node F) (ns : List (Node F))
    → ((n : Node F) → (f n).value ≡ n.value)
    → All (λ n. P n.value) ns
    → All (λ n. P n.value) (map f ns)
map-values P f [] e h = tt
map-values P f (n ∷ ns) e (h, hs) = (subst P (sym (e n)) h, map-values P f ns e hs)

map-Distinct :
    {F : Type 0} (f : Node F → Node F) (ns : List (Node F))
    → ((n : Node F) → (f n).value ≡ n.value)
    → Distinct ns
    → Distinct (map f ns)
map-Distinct f [] e h = tt
map-Distinct f (n ∷ ns) e (h, hs) = (
  map-values (λ v. (f n).value ≢ v) f ns e (subst (λ k. All (λ m. k ≢ m.value) ns) (sym (e n)) h),
  map-Distinct f ns e hs,
)

unwind-Distinct :
    {A F : Type 0} (f : A → Node F → Node F) (us : List A) (ns : List (Node F))
    → ((u : A) (n : Node F) → (f u n).value ≡ n.value)
    → Distinct ns
    → Distinct (unwind f us ns)
unfolding unwind
unwind-Distinct f [] ns e h = h
unwind-Distinct f (u ∷ us) ns e h =
    unwind-Distinct f us (map (f u) ns) e (map-Distinct (f u) ns (e u) h)

set_scores-value : {F : Type 0} (u : Update F) (n : Node F) → (set_scores u n).value ≡ n.value
unfolding set_scores
set_scores-value u n = elim (Bool-cases (n.value =s= u.value)) [
  | inl e ↦ rw e refl
  | inr e ↦ rw e refl
]

set_ring-value : {F : Type 0} (p : String × String) (n : Node F) → (set_ring p n).value ≡ n.value
unfolding set_ring
set_ring-value (v, ring) n = elim (Bool-cases (n.value =s= v)) [
  | inl e ↦ rw e refl
  | inr e ↦ rw e refl
]

module _ {F : Type 0} (ops : FloatOps F) where
  merge_node-values :
      (P : String → Type 0) (e : Entity F) (ns : List (Node F))
      → P e.value
      → All (λ n. P n.value) ns
      → All (λ n. P n.value) (merge_node ops e ns)
  unfolding merge_node
  merge_node-values P e [] h k = (h, tt)
  merge_node-values P e (n ∷ ns) h (k, ks) = elim (Bool-cases (n.value =s= e.value)) [
    | inl w ↦ rw w (k, ks)
    | inr w ↦ rw w (k, merge_node-values P e ns h ks)
  ]

  merge_node-Distinct :
      (e : Entity F) (ns : List (Node F)) → Distinct ns → Distinct (merge_node ops e ns)
  unfolding merge_node
  merge_node-Distinct e [] h = (tt, tt)
  merge_node-Distinct e (n ∷ ns) (h, hs) = elim (Bool-cases (n.value =s= e.value)) [
    | inl w ↦ rw w (h, hs)
    | inr w ↦ rw w (
      merge_node-values (λ v. n.value ≢ v) e ns (text_ne n.value e.value w) h,
      merge_node-Distinct e ns hs,
    )
  ]

  -- A score is at most 1.
  abbrev pub IsCapped : F → Type 0
  IsCapped x = ops.le x (ops.of_ℕ 1) ≡ true

  -- The nodes are distinct, and the cached scores capped.
  abbrev pub IsSound : Store F → Type 0
  IsSound st = Distinct st.nodes × All (λ c. IsCapped c.1) st.cache

  if_IsSound : (b : Bool) (x y : Store F) → IsSound x → IsSound y → IsSound (if b then x else y)
  if_IsSound true x y h k = h
  if_IsSound false x y h k = k

  module _ (hash : String → String) (servers : Servers) where
    add_entity_raw-IsSound :
        (e : Entity F) (st : Store F) → IsSound st → IsSound (add_entity_raw ops hash servers e st)
    unfolding add_entity_raw invalidate_cache buffer_to_backlog
    add_entity_raw-IsSound e st (h, k) = elim (Bool-cases servers.redis) [
      | inl r ↦ elim (Bool-cases (servers.succeeds st.runs)) [
        | inl s ↦
            rw (r, s)
              (merge_node-Distinct e st.nodes h, All-select (λ c. IsCapped c.1) _ st.cache k)
        | inr s ↦ rw (r, s) (h, k)
      ]
      | inr r ↦ elim (Bool-cases (servers.succeeds st.runs)) [
        | inl s ↦ rw (r, s) (merge_node-Distinct e st.nodes h, k)
        | inr s ↦ rw (r, s) (h, k)
      ]
    ]

    add_session_link_raw-IsSound :
        (a b s : String) (st : Store F)
        → IsSound st
        → IsSound (add_session_link_raw ops hash servers a b s st)
    unfolding add_session_link_raw buffer_to_backlog
    add_session_link_raw-IsSound a b s st h =
        if_IsSound (servers.succeeds st.runs) _ _
          (if_IsSound (any (has_value a) st.nodes && any (has_value b) st.nodes) _ _ h h)
          (if_IsSound servers.redis _ _ h h)

    pub add_entity-IsSound :
        (e : Entity F) (st : Store F) → IsSound st → IsSound (add_entity ops hash servers e st)
    unfolding add_entity
    add_entity-IsSound e st h = if_IsSound servers.connected _ st (add_entity_raw-IsSound e st h) h

    pub add_session_link-IsSound :
        (a b s : String) (st : Store F)
        → IsSound st
        → IsSound (add_session_link ops hash servers a b s st)
    unfolding add_session_link
    add_session_link-IsSound a b s st h =
        if_IsSound servers.connected _ st (add_session_link_raw-IsSound a b s st h) h

    invalidate_all-IsSound :
        (st : Store F) → IsSound st → IsSound (invalidate_all_risk_cache ops hash servers st).1
    unfolding invalidate_all_risk_cache
    invalidate_all-IsSound st (h, k) = elim (Bool-cases servers.redis) [
      | inl r ↦ rw r (h, tt)
      | inr r ↦ rw r (h, k)
    ]

    pub update_entity_scores-IsSound :
        (updates : List (Update F)) (st : Store F)
        → IsSound st
        → IsSound (update_entity_scores ops hash servers updates st)
    unfolding update_entity_scores
    update_entity_scores-IsSound updates st (h, k) =
        if_IsSound (not servers.connected || length updates == 0) st _ (h, k)
          (if_IsSound (servers.succeeds st.runs) _ (record st { runs = st.runs + 1 })
            (invalidate_all-IsSound _
              (unwind-Distinct set_scores updates st.nodes set_scores-value h, k))
            (h, k))

    pub update_ring_ids-IsSound :
        (assignments : List (String × String)) (st : Store F)
        → IsSound st
        → IsSound (update_ring_ids ops hash servers assignments st)
    unfolding update_ring_ids
    update_ring_ids-IsSound assignments st (h, k) =
        if_IsSound (not servers.connected || length assignments == 0) st _ (h, k)
          (if_IsSound (servers.succeeds st.runs) _ (record st { runs = st.runs + 1 })
            (unwind-Distinct set_ring assignments st.nodes set_ring-value h, k) (h, k))

    replay-IsSound :
        (ev : Event F) (st after : Store F)
        → IsSound st
        → replay ops hash servers ev st ≡ some after
        → IsSound after
    unfolding replay
    replay-IsSound (entity_event e) st after h =
        λ r. subst IsSound (some_inj r) (add_entity_raw-IsSound e st h)
    replay-IsSound (link_event payload) st after h =
        elim (Option-cases (lookup "entity_a_id" payload)) [
          | inl x ↦ rw (x, replay) (λ r. cc)
          | inr (a, x) ↦ elim (Option-cases (lookup "entity_b_id" payload)) [
            | inl y ↦ rw (x, replay, y) (λ r. cc)
            | inr (b, y) ↦ elim (Option-cases (lookup "session_id" payload)) [
              | inl z ↦ rw (x, replay, y, z) (λ r. cc)
              | inr (s, z) ↦
                  rw (x, replay, y, z)
                    (λ r. subst IsSound (some_inj r) (add_session_link_raw-IsSound a b s st h))
            ]
          ]
        ]

    pub drain-IsSound :
        (fuel drained n : ℕ) (st after : Store F)
        → IsSound st
        → drain ops hash servers fuel drained st ≡ some (n, after)
        → IsSound after
    unfolding drain
    drain-IsSound zero drained n st after h e = cc
    drain-IsSound (suc fuel) drained n st after h e =
        popped (λ next k. drain-IsSound fuel (drained + 1) n next after k) st.backlog e
      where
        popped :
            ((next : Store F)
              → IsSound next
              → drain ops hash servers fuel (drained + 1) next ≡ some (n, after)
              → IsSound after)
            → (events : List (Event F))
            → let result : Option (ℕ × Store F) = elim events [
              | [] ↦ some (drained, st)
              | ev ∷ rest ↦ elim (replay ops hash servers ev (record st { backlog = rest })) [
                | none ↦ some (drained, record st { backlog = rest })
                | some next ↦ drain ops hash servers fuel (drained + 1) next
              ]
            ] in
              result ≡ some (n, after) → IsSound after
        popped more [] = λ e. subst IsSound (ap (λ (x : ℕ × Store F). x.1) (some_inj e)) h
        popped more (ev ∷ rest) =
            elim (Option-cases (replay ops hash servers ev (record st { backlog = rest }))) [
              | inl r ↦ rw r (λ e. subst IsSound (ap (λ (x : ℕ × Store F). x.1) (some_inj e)) h)
              | inr (next, r) ↦
                  rw r (more next (replay-IsSound ev (record st { backlog = rest }) next h r))
            ]

    module _ (laws : FloatLaws ops) where
      fmin-IsCapped : (x : F) → IsCapped (fmin ops (ops.of_ℕ 1) x)
      fmin-IsCapped x = elim (Bool-cases (ops.lt x (ops.of_ℕ 1))) [
        | inl h ↦ rw h (laws.lt-le x (ops.of_ℕ 1) h)
        | inr h ↦ rw h (laws.le_refl (ops.of_ℕ 1))
      ]

      compute_entity_risk-IsCapped :
          (v : String) (st : Store F) → IsCapped (compute_entity_risk ops hash servers v st)
      unfolding compute_entity_risk
      compute_entity_risk-IsCapped v st =
          elim (Bool-cases (not servers.connected || not (servers.succeeds st.runs))) [
            | inl h ↦ rw h (laws.le-of_ℕ 0 1 (omega arith))
            | inr h ↦ elim (Option-cases (find_first (has_value v) st.nodes)) [
              | inl e ↦ rw (h, e) (laws.le-of_ℕ 0 1 (omega arith))
              | inr (n, e) ↦ rw (h, e) (fmin-IsCapped _)
            ]
          ]

      lookup-All :
          (P : F → Type 0) (k : String) (cs : List (String × F)) (x : F)
          → All (λ c. P c.1) cs
          → lookup k cs ≡ some x
          → P x
      unfolding lookup
      lookup-All P k [] x h = λ e. cc
      lookup-All P k ((a, v) ∷ cs) x (h, hs) = elim (Bool-cases (a =s= k)) [
        | inl w ↦ rw w (λ e. subst P (some_inj e) h)
        | inr w ↦ rw w (lookup-All P k cs x hs)
      ]

      pub get_entity_risk-IsSound :
          (v : String) (st : Store F)
          → IsSound st
          → IsCapped (get_entity_risk ops hash servers v st).0
            × IsSound (get_entity_risk ops hash servers v st).1
      unfolding get_entity_risk
      get_entity_risk-IsSound v st h =
          answered (if servers.redis then lookup (hash v) st.cache else none) (cached servers.redis)
        where
          cached :
              (b : Bool) (x : F)
              → (if b then lookup (hash v) st.cache else none) ≡ some x
              → IsCapped x
          cached true x e = lookup-All IsCapped (hash v) st.cache x (h.1) e
          cached false x e = cc

          answered :
              (o : Option F)
              → ((x : F) → o ≡ some x → IsCapped x)
              → let score = compute_entity_risk ops hash servers v st in
                let next = if servers.connected then record st { runs = st.runs + 1 } else st in
                let answer : F × Store F = elim o [
                  | some x ↦ (x, st)
                  | none ↦ (
                    score,
                    if servers.redis && ops.lt (ops.of_ℕ 0) score
                        then record next { cache = (hash v, score) ∷ next.cache }
                        else next,
                  )
                ] in
                IsCapped answer.0 × IsSound answer.1
          answered (some x) k = (k x refl, h)
          answered none k =
              let capped = compute_entity_risk-IsCapped v st in
              let (a, b) = if_IsSound servers.connected (record st { runs = st.runs + 1 }) st h h in
              (
                capped,
                if_IsSound
                    (servers.redis
                      && ops.lt (ops.of_ℕ 0) (compute_entity_risk ops hash servers v st))
                    _ _ (a, (capped, b)) (a, b),
              )
