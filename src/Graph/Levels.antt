-- ===== src/Graph/Levels.antt =====
-- The levels of the search of `propagate_belief`, backend/app/services/graph/risk_propagation.py: which
-- entities it has met when its queue is empty.
use trust_shield.Base.{
  subst, ℕ, zero, suc, String, Bool, true, false, List, [], ◌∷◌, ◌++◌, map, ◌≡◌, refl, sym, ap, ◌∙◌,
  ◌+◌, ◌≤◌, ◌<◌, ◌=s=◌, ◌⊎◌, arith, leb, Bool-cases, inl, inr, eq_refl, eq_iff,
}
use trust_shield.Base.Float.{FloatOps}
use trust_shield.Graph.{is_in, Weighted, edges_of, Walk, visit, visit_all, expand}
use trust_shield.Graph.Search.{is_in-left, is_in-right}
use trust_shield.Graph.Belief.{Walks, here, on}

abbrev pub idle : String → Bool
idle x = false

abbrev pub at : ℕ → String → String × ℕ
at d x = (x, d)

map-append : {A B : Type 0} (f : A → B) (xs ys : List A) → map f (xs ++ ys) ≡ map f xs ++ map f ys
map-append f [] ys = refl
map-append f (x ∷ xs) ys = rw (map-append f xs ys) refl

append_nil : {A : Type 0} (xs : List A) → xs ++ [] ≡ xs
append_nil [] = refl
append_nil (x ∷ xs) = rw (append_nil xs) refl

append_assoc : {A : Type 0} (xs ys zs : List A) → (xs ++ ys) ++ zs ≡ xs ++ (ys ++ zs)
append_assoc [] ys zs = refl
append_assoc (x ∷ xs) ys zs = rw (append_assoc xs ys zs) refl

-- A member of a list with a part taken apart.
is_in-cons : (x y : String) (xs : List String) → is_in x xs ≡ true → is_in x (y ∷ xs) ≡ true
is_in-cons x y xs h = is_in-right x (y ∷ []) xs h

is_in-wider :
    (x y : String) (front back : List String)
    → is_in x (front ++ back) ≡ true
    → is_in x (front ++ (back ++ y ∷ [])) ≡ true
is_in-wider x y front back h =
    subst (λ l. is_in x l ≡ true) (append_assoc front back (y ∷ []))
      (is_in-left x (front ++ back) (y ∷ []) h)

is_in-last : (y : String) (front back : List String) → is_in y (front ++ (back ++ y ∷ [])) ≡ true
unfolding is_in
is_in-last y front back =
    is_in-right y front (back ++ y ∷ []) (is_in-right y back (y ∷ []) (rw (eq_refl y) refl))

pub is_in-cases :
    (x y : String) (xs : List String) → is_in x (y ∷ xs) ≡ true → (y ≡ x) ⊎ (is_in x xs ≡ true)
unfolding is_in
is_in-cases x y xs h = elim (Bool-cases (y =s= x)) [
  | inl e ↦ inl ((eq_iff y x).0 e)
  | inr e ↦ inr (rw e at h)
]

module _ {F : Type 0} (g : Weighted F) (entity : String) where
  -- All neighbours of an entity were met.
  abbrev pub Met : String → List String → Type 0
  Met x seen = (y : String) → is_in y (map (λ e. e.0) (edges_of g x)) ≡ true → is_in y seen ≡ true

  -- The queue holds a rest of level `d` and a part of the next, and every entity that was met is in
  -- the queue, or is the one at work, or has all its neighbours met; one at most `d` steps away was met
  -- and is not left for the next level.
  pub record Level (busy : String → Bool) (d : ℕ) (front back : List String) (w : Walk F)
      : Type 0 where
    queued : w.queue ≡ map (at d) front ++ map (at (d + 1)) back
    closed :
        (x : String)
        → is_in x w.visited ≡ true
        → (busy x ≡ true) ⊎ ((is_in x (front ++ back) ≡ true) ⊎ Met x w.visited)
    within :
        (n : ℕ) (x : String)
        → n ≤ d
        → Walks g entity n x
        → (is_in x w.visited ≡ true)
          × ((busy x ≡ true) ⊎ ((is_in x front ≡ true) ⊎ Met x w.visited))

  module _ (ops : FloatOps F) (pow : F → ℕ → F) (seeds : List String) (max_hops : ℕ)
      (dampening : F) where
    visit-grows :
        (hop : ℕ) (e : String × F) (w : Walk F) (x : String)
        → is_in x w.visited ≡ true
        → is_in x (visit ops pow seeds max_hops dampening hop e w).visited ≡ true
    unfolding visit
    visit-grows hop (y, f) w x h = elim (Bool-cases (is_in y w.visited)) [
      | inl k ↦ rw k h
      | inr k ↦ rw k (is_in-cons x y w.visited h)
    ]

    visit-meets :
        (hop : ℕ) (e : String × F) (w : Walk F)
        → is_in e.0 (visit ops pow seeds max_hops dampening hop e w).visited ≡ true
    unfolding visit is_in
    visit-meets hop (y, f) w = elim (Bool-cases (is_in y w.visited)) [
      | inl k ↦ rw k k
      | inr k ↦ rw k (rw (eq_refl y) refl)
    ]

    -- One neighbour is met.
    visit-Level :
        (busy : String → Bool) (d : ℕ) (front back : List String) (e : String × F) (w : Walk F)
        → Level busy d front back w
        → (more : List String) × Level busy d front more
            (visit ops pow seeds max_hops dampening d e w)
    unfolding visit
    visit-Level busy d front back (y, f) w l = elim (Bool-cases (is_in y w.visited)) [
      | inl k ↦ (back, rw k l)
      | inr k ↦ (
        back ++ y ∷ [],
        rw k (record {
          queued =
              ap (λ q. q ++ (y, d + 1) ∷ []) l.queued
              ∙ append_assoc (map (at d) front) (map (at (d + 1)) back) ((y, d + 1) ∷ [])
              ∙ ap (λ q. map (at d) front ++ q) (sym (map-append (at (d + 1)) back (y ∷ [])));
          closed = λ x h. elim (is_in-cases x y w.visited h) [
            | inl e ↦ inr (
                inl (
                  subst (λ z. is_in z (front ++ (back ++ y ∷ [])) ≡ true) e
                    (is_in-last y front back)))
            | inr i ↦ elim (l.closed x i) [
              | inl b ↦ inl b
              | inr (inl q) ↦ inr (inl (is_in-wider x y front back q))
              | inr (inr m) ↦ inr (inr (λ z j. is_in-cons z y w.visited (m z j)))
            ]
          ];
          within = λ n x i walk.
              let (seen, place) = l.within n x i walk in
              (
                is_in-cons x y w.visited seen,
                elim place [
                  | inl b ↦ inl b
                  | inr (inl q) ↦ inr (inl q)
                  | inr (inr m) ↦ inr (inr (λ z j. is_in-cons z y w.visited (m z j)))
                ],
              );
        }),
      )
    ]

    visit_all-grows :
        (hop : ℕ) (es : List (String × F)) (w : Walk F) (x : String)
        → is_in x w.visited ≡ true
        → is_in x (visit_all ops pow seeds max_hops dampening hop es w).visited ≡ true
    unfolding visit_all
    visit_all-grows hop [] w x h = h
    visit_all-grows hop (e ∷ es) w x h =
        visit_all-grows hop es (visit ops pow seeds max_hops dampening hop e w) x
          (visit-grows hop e w x h)

    -- All the neighbours in a list are met.
    visit_all-Level :
        (busy : String → Bool) (d : ℕ) (front back : List String) (es : List (String × F))
        (w : Walk F)
        → Level busy d front back w
        → let end = visit_all ops pow seeds max_hops dampening d es w in
          ((more : List String) × Level busy d front more end)
          × ((x : String) → is_in x w.visited ≡ true → is_in x end.visited ≡ true)
          × ((x : String) → is_in x (map (λ e. e.0) es) ≡ true → is_in x end.visited ≡ true)
    unfolding visit_all is_in
    visit_all-Level busy d front back [] w l = ((back, l), λ x h. h, λ x h. cc)
    visit_all-Level busy d front back (e ∷ es) w l =
        let (more, l2) = visit-Level busy d front back e w l in
        let v = visit ops pow seeds max_hops dampening d e w in
        let (last, grows, meets) = visit_all-Level busy d front more es v l2 in
        (
          last,
          λ x h. grows x (visit-grows d e w x h),
          λ x h. elim (is_in-cases x e.0 (map (λ e. e.0) es) h) [
            | inl i ↦ grows x (subst (λ z. is_in z v.visited ≡ true) i (visit-meets d e w))
            | inr i ↦ meets x i
          ],
        )

    expand-grows :
        (n : String × ℕ) (w : Walk F) (x : String)
        → is_in x w.visited ≡ true
        → is_in x (expand ops pow seeds max_hops dampening g n w).visited ≡ true
    unfolding expand
    expand-grows (node, hop) w x h = elim (Bool-cases (leb max_hops hop)) [
      | inl k ↦ rw k h
      | inr k ↦ rw k (visit_all-grows hop (edges_of g node) w x h)
    ]

    -- The first entity of a level is worked on.
    turn-front :
        (d : ℕ) (x : String) (front back : List String) (w : Walk F)
        → d < max_hops
        → Level idle d
            (x ∷ front)
            back
            (record w { queue = at d x ∷ map (at d) front ++ map (at (d + 1)) back })
        → (more : List String) × Level idle d front more (
            expand ops pow seeds max_hops dampening g
              (at d x)
              (record w { queue = map (at d) front ++ map (at (d + 1)) back }))
    unfolding expand
    turn-front d x front back w h l =
        let v : Walk F = record w { queue = map (at d) front ++ map (at (d + 1)) back } in
        let working : Level (λ z. x =s= z) d front back v = record {
          queued = refl;
          closed = λ z i. elim (l.closed z i) [
            | inl b ↦ cc
            | inr (inl q) ↦ (elim (is_in-cases z x (front ++ back) q) [
              | inl e ↦ inl (subst (λ u. (x =s= u) ≡ true) e (eq_refl x))
              | inr j ↦ inr (inl j)
            ])
            | inr (inr m) ↦ inr (inr m)
          ];
          within = λ n z i walk.
              let (seen, place) = l.within n z i walk in
              (
                seen,
                elim place [
                  | inl b ↦ cc
                  | inr (inl q) ↦ (elim (is_in-cases z x front q) [
                    | inl e ↦ inl (subst (λ u. (x =s= u) ≡ true) e (eq_refl x))
                    | inr j ↦ inr (inl j)
                  ])
                  | inr (inr m) ↦ inr (inr m)
                ],
              );
        } in
        let ((more, done), grows, meets) =
          visit_all-Level (λ z. x =s= z) d front back (edges_of g x) v working in
        let go_on : leb max_hops d ≡ false = ground arith in
        let met : (z : String)
            → (x =s= z) ≡ true
            → Met z (visit_all ops pow seeds max_hops dampening d (edges_of g x) v).visited =
          λ z e.
            subst
              (λ u. Met u (visit_all ops pow seeds max_hops dampening d (edges_of g x) v).visited)
              ((eq_iff x z).0 e) meets in
        (
          more,
          rw go_on (record {
            queued = done.queued;
            closed = λ z i. elim (done.closed z i) [ inl b ↦ inr (inr (met z b)) | inr r ↦ inr r ];
            within = λ n z i walk.
                let (seen, place) = done.within n z i walk in
                (seen, elim place [ inl b ↦ inr (inr (met z b)) | inr r ↦ inr r ]);
          }),
        )

    within_next :
        (d : ℕ) (back : List String) (w : Walk F)
        → Level idle d [] back w
        → (n : ℕ) (z : String) → Walks g entity n z
        → n ≤ d + 1
        → is_in z w.visited ≡ true
    unfolding is_in
    within_next d back w l _ _ here h = (l.within 0 entity (omega arith) here).0
    within_next d back w l _ _ (on {n} {b} {c} walk edge) h =
        elim (l.within n b (omega (arith, h)) walk).1 [
          | inl f ↦ cc
          | inr (inl f) ↦ cc
          | inr (inr m) ↦ m c edge
        ]

    all_met :
        (d : ℕ) (w : Walk F)
        → Level idle d [] [] w
        → (n : ℕ) (z : String) → Walks g entity n z
        → is_in z w.visited ≡ true
    unfolding is_in
    all_met d w l _ _ here = (l.within 0 entity (omega arith) here).0
    all_met d w l _ _ (on {n} {b} {c} walk edge) = elim (l.closed b (all_met d w l n b walk)) [
      | inl f ↦ cc
      | inr (inl f) ↦ cc
      | inr (inr m) ↦ m c edge
    ]

    -- When a level is empty the next one begins.
    begun_next :
        (d : ℕ) (back : List String) (w : Walk F)
        → Level idle d [] back w
        → Level idle (d + 1) back [] w
    begun_next d back w l =
        let reached : (n : ℕ) (z : String)
            → n ≤ d + 1
            → Walks g entity n z
            → is_in z w.visited ≡ true =
          λ n z i walk. within_next d back w l n z walk i in
        let place : (z : String)
            → is_in z w.visited ≡ true
            → (idle z ≡ true) ⊎ ((is_in z back ≡ true) ⊎ Met z w.visited) =
          λ z i. l.closed z i in
        record {
          queued = l.queued ∙ sym (append_nil (map (at (d + 1)) back));
          closed = λ z i. elim (place z i) [
            | inl b ↦ inl b
            | inr (inl q) ↦ inr (inl (is_in-left z back [] q))
            | inr (inr m) ↦ inr (inr m)
          ];
          within = λ n z i walk. (reached n z i walk, place z (reached n z i walk));
        }

    -- Every entity at most `max_hops` steps away was met.
    abbrev pub Done : Walk F → Type 0
    Done w = (n : ℕ) (x : String) → n ≤ max_hops → Walks g entity n x → is_in x w.visited ≡ true

    abbrev pub Searching : Walk F → Type 0
    Searching w =
        Done w
        ⊎ ((d : ℕ) × (front : List String) × (back : List String) × Level idle d front back w)

    turn :
        (d : ℕ) (x : String) (front back : List String) (n : String × ℕ) (v : List String)
        → (rest : List (String × ℕ)) (t : F)
        → Level idle d (x ∷ front) back (record { visited = v; queue = n ∷ rest; total_risk = t })
        → Searching (
            expand ops pow seeds max_hops dampening g n
              (record { visited = v; queue = rest; total_risk = t }))
    turn d x front back n v rest t l = elim (Bool-cases (leb max_hops d)) [
      | inl h ↦ inl (λ m z i walk.
          expand-grows n (record { visited = v; queue = rest; total_risk = t }) z
            (l.within m z (ground (arith, h, i)) walk).0)
      | inr h ↦
          let tail = map (at d) front ++ map (at (d + 1)) back in
          let head_eq : at d x ≡ n = ap (λ q. elim q [ [] ↦ n | a ∷ q2 ↦ a ]) (sym l.queued) in
          let tail_eq : tail ≡ rest = ap (λ q. elim q [ [] ↦ rest | a ∷ q2 ↦ q2 ]) (sym l.queued) in
          let (more, end) =
            turn-front d x front back (record { visited = v; queue = tail; total_risk = t })
              (ground (arith, h))
              (subst
                (λ q.
                  Level idle d (x ∷ front) back (record { visited = v; queue = q; total_risk = t }))
                l.queued l) in
          let moved : Level idle d front more (
              expand ops pow seeds max_hops dampening g n
                (record { visited = v; queue = rest; total_risk = t })) =
            subst
              (λ m. Level idle d front more (
                expand ops pow seeds max_hops dampening g m
                  (record { visited = v; queue = rest; total_risk = t })))
              head_eq
              (subst
                (λ q. Level idle d front more (
                  expand ops pow seeds max_hops dampening g (at d x)
                    (record { visited = v; queue = q; total_risk = t })))
                tail_eq end) in
          inr (d, front, more, moved)
    ]

    pub turn-Searching :
        (n : String × ℕ) (v : List String) (rest : List (String × ℕ)) (t : F)
        → Searching (record { visited = v; queue = n ∷ rest; total_risk = t })
        → Searching (
            expand ops pow seeds max_hops dampening g n
              (record { visited = v; queue = rest; total_risk = t }))
    turn-Searching n v rest t (inl done) = inl (λ m z i walk.
        expand-grows n (record { visited = v; queue = rest; total_risk = t }) z (done m z i walk))
    turn-Searching n v rest t (inr (d, x ∷ front, back, l)) = turn d x front back n v rest t l
    turn-Searching n v rest t (inr (d, [], x ∷ back, l)) =
        turn (d + 1) x back [] n v rest t (begun_next d (x ∷ back) _ l)
    turn-Searching n v rest t (inr (d, [], [], l)) = (let clash = l.queued in cc)

    at_start : (n : ℕ) (z : String) → Walks g entity n z → n ≤ 0 → entity ≡ z
    at_start _ _ here h = refl
    at_start _ _ (on {n} {b} {c} walk edge) h =
        (let clash : suc zero ≡ zero = omega (arith, h) in cc)

    pub start-Searching :
        (t : F)
        → Searching (record { visited = entity ∷ []; queue = (entity, 0) ∷ []; total_risk = t })
    start-Searching t = inr (
      0,
      entity ∷ [],
      [],
      record {
        queued = refl;
        closed = λ x h. inr (inl h);
        within = λ n x i walk.
            let here_it_is : is_in x (entity ∷ []) ≡ true =
              rw (← at_start n x walk i) (is_in-last entity [] []) in
            (here_it_is, inr (inl here_it_is));
      },
    )

    pub end-Done : (w : Walk F) → w.queue ≡ [] → Searching w → Done w
    end-Done w e (inl done) = done
    end-Done w e (inr (d, x ∷ front, back, l)) = (let clash = sym e ∙ l.queued in cc)
    end-Done w e (inr (d, [], x ∷ back, l)) = (let clash = sym e ∙ l.queued in cc)
    end-Done w e (inr (d, [], [], l)) = λ n x i walk. all_met d w l n x walk
