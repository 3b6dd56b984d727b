-- ===== src/Reputation/Federation.antt =====
-- The lookup in other cells: `_aggregate_scores` and `federated_reputation_lookup` of
-- backend/app/services/intel/cell_federation.py, and `compute_reputation` of
-- backend/app/services/intel/reputation_service.py, which call each other. An answer of a cell is its
-- score and instant, already read from its JSON.
use trust_shield.Base.{
  ℕ, zero, suc, String, Option, none, some, Bool, true, false, List, [], ◌∷◌, ◌++◌, map, ◌+◌, ◌-◌,
  ◌≡◌, ◌≤◌, ◌<◌, refl, ap, ◌∙◌, arith, if◌then◌else◌, leb, min, ◌>>=◌, length, ◌==◌, Bool-cases,
  Option-cases, inl, inr,
}
use trust_shield.Base.Float.{FloatOps}
use trust_shield.Reputation.Local.{clamp-bounds}
use trust_shield.Reputation.{ReputationLibrary, Reputation, recency_weight, clamp}

pub record PeerScore (F : Type 0) : Type 0 where
  pub score : Option F
  pub last_seen : Option ℕ

-- One of the scores that are aggregated.
pub record Scored (F : Type 0) : Type 0 where
  pub score : F
  pub last_seen : Option ℕ
  pub source : String

pub record Aggregated : Type 0 where
  pub score : ℕ
  pub sources : List String
  pub peer_count : ℕ

-- The answers of the peers that have a score.
unfoldable pub scored_peers : {F : Type 0} → List (String × Option (PeerScore F)) → List (Scored F)
scored_peers [] = []
scored_peers ((url, none) ∷ ps) = scored_peers ps
scored_peers ((url, some p) ∷ ps) = elim p.score [
  | none ↦ scored_peers ps
  | some x ↦ record { score = x; last_seen = p.last_seen; source = url } ∷ scored_peers ps
]

-- Where a call answers, the answer is so.
unfoldable pub Answers : {A : Type 0} → (A → Type 0) → Option A → Type 0
Answers P none = Unit
Answers P (some a) = P a

Answers-some : {A : Type 0} (P : A → Type 0) (a : A) → P a → Answers P (some a)
unfolding Answers
Answers-some P a h = h

Answers-if :
    {A : Type 0} (P : A → Type 0) (b : Bool) (x y : Option A)
    → Answers P x
    → Answers P y
    → Answers P (if b then x else y)
unfolding Answers
Answers-if P true x y h k = h
Answers-if P false x y h k = k

Answers-bind :
    {A B : Type 0} (P : A → Type 0) (Q : B → Type 0) (o : Option A) (f : A → B)
    → Answers P o
    → ((a : A) → P a → Q (f a))
    → Answers Q (o >>= λ a. some (f a))
unfolding Answers
Answers-bind P Q none f h k = tt
Answers-bind P Q (some a) f h k = k a h

all-Answers : {A : Type 0} (o : Option A) → Answers (λ _. Unit {0}) o
unfolding Answers
all-Answers none = tt
all-Answers (some a) = tt

module _ {F : Type 0} (ops : FloatOps F) (lib : ReputationLibrary F) where
  -- The loop over the scores: the sum of the weighted scores, and the sum of the weights.
  unfoldable pub weigh : ℕ → List (Scored F) → F × F → F × F
  weigh now [] s = s
  weigh now (x ∷ xs) (weighted_sum, weight_total) =
      let w = recency_weight ops lib now x.last_seen in
      weigh now xs (ops.add weighted_sum (ops.mul x.score w), ops.add weight_total w)

  -- The average that is cut to 0 up to 100; `none` where `int` raises.
  unfoldable pub average : ℕ → ℕ → List (Scored F) → Option ℕ
  average now local_score all =
      let sums = weigh now all (ops.of_ℕ 0, ops.of_ℕ 0) in
      if ops.lt (ops.of_ℕ 0) sums.1
      then ops.trunc (lib.round (ops.div sums.0 sums.1)) >>= (λ z. some (clamp z))
      else some (min 100 local_score)

  -- `_aggregate_scores`
  unfoldable pub aggregate_scores :
      ℕ → ℕ → Option ℕ → List (String × Option (PeerScore F)) → Option Aggregated
  aggregate_scores now local_score local_last_seen peers =
      let all : List (Scored F) =
        record { score = ops.of_ℕ local_score; last_seen = local_last_seen; source = "local" }
        ∷ scored_peers peers in
      if leb (length all) 1
      then some (record { score = min 100 local_score; sources = "local" ∷ []; peer_count = 0 })
      else average now local_score all >>= (λ n. some (record {
        score = n;
        sources = map (λ (x : Scored F). x.source) all;
        peer_count = length all - 1;
      }))

  -- The peers are the URLs of the other cells; `ask` is the answer of one, `none` where the request
  -- fails.
  module _ (now : ℕ) (peer_urls : List String) (ask : String → Option (PeerScore F)) where
    -- `federated_reputation_lookup` behind its local result
    unfoldable pub with_peers : Reputation F → Option (Reputation F)
    with_peers local =
        if length peer_urls == 0
        then some
            (record local { federation = some (record { peer_count = 0; sources = "local" ∷ [] }) })
        else aggregate_scores now local.score local.last_reported_at
            (map (λ u. (u, ask u)) peer_urls)
          >>= (λ a. some (record local {
            score = a.score;
            federation = some (record { peer_count = a.peer_count; sources = a.sources });
          }))

    -- The lookup of what `compute_reputation` gives, with the URLs asked so far.
    unfoldable pub federated_reputation_lookup :
        Option (Reputation F) × List String → Option (Reputation F) × List String
    federated_reputation_lookup (none, asked) = (none, asked)
    federated_reputation_lookup (some local, asked) = (with_peers local, asked ++ peer_urls)

    -- `compute_reputation`, by the number of times that its call and that of the lookup still fit on
    -- the stack; `fits` is whether the local computation, with the answer `local`, then fits as well. A
    -- call that does not fit raises, and the caller's handler catches that.
    unfoldable pub compute_reputation :
        (routing : Bool) (fits : ℕ → Bool) (local : Option (Reputation F))
        → ℕ
        → Option (Reputation F) × List String
    compute_reputation routing fits local zero = (none, [])
    compute_reputation routing fits local (suc d) =
        let (found, asked) =
          federated_reputation_lookup (compute_reputation routing fits local d) in
        let alone = if fits d then local else none in
        if routing then (elim found [ none ↦ alone | some r ↦ some r ], asked) else (alone, [])

    -- The URLs, a number of times.
    unfoldable pub times : ℕ → List String
    times zero = []
    times (suc n) = times n ++ peer_urls

    unreached :
        (fits : ℕ → Bool) (local : Option (Reputation F)) (k d : ℕ)
        → ((j : ℕ) → j < k → fits j ≡ false)
        → d ≤ k
        → compute_reputation true fits local d ≡ (none, [])
    unfolding compute_reputation federated_reputation_lookup
    unreached fits local k zero h l = refl
    unreached fits local k (suc d) h l =
        ap
          (λ p.
            let q = federated_reputation_lookup p in
            let answer : Option (Reputation F) × List String =
              (elim q.0 [ none ↦ if fits d then local else none | some r ↦ some r ], q.1) in
            answer)
          (unreached fits local k d h (omega (arith, l)))
        ∙ ap
            (λ b.
              let answer : Option (Reputation F) × List String = (if b then local else none, []) in
              answer)
            (h d (omega (arith, l)))

    -- The answer of `compute_reputation`, from that of the lookup.
    abbrev answer_of :
        Bool
        → Option (Reputation F)
        → Option (Reputation F) × List String
        → Option (Reputation F) × List String
    answer_of b local p =
        let q = federated_reputation_lookup p in
        (elim q.0 [ none ↦ if b then local else none | some r ↦ some r ], q.1)

    answers_some :
        (r found : Reputation F) (asked : List String)
        → (x : Reputation F) × (answer_of true (some r) (some found, asked)
            ≡ (some x, asked ++ peer_urls))
    unfolding federated_reputation_lookup
    answers_some r found asked = elim (Option-cases (with_peers found)) [
      | inl e ↦ (r, rw e refl)
      | inr (x, e) ↦ (x, rw e refl)
    ]

    asked_again :
        (fits : ℕ → Bool) (r : Reputation F) (k n d : ℕ)
        → ((j : ℕ) → j < k → fits j ≡ false)
        → ((j : ℕ) → k ≤ j → fits j ≡ true)
        → d ≡ n + k
        → (found : Reputation F) × (compute_reputation true fits (some r) (suc d)
            ≡ (some found, times n))
    unfolding compute_reputation times federated_reputation_lookup
    asked_again fits r k zero d low high e = (
      r,
      ap (answer_of (fits d) (some r)) (unreached fits (some r) k d low (omega (arith, e)))
          ∙ ap (λ b. answer_of b (some r) (none, [])) (high d (omega (arith, e))),
    )
    asked_again fits r k (suc n) zero low high e = absurd (omega (arith, e))
    asked_again fits r k (suc n) (suc d) low high e =
        let (found, h) = asked_again fits r k n d low high (omega (arith, e)) in
        let (x, g) = answers_some r found (times n) in
        (
          x,
          ap (answer_of (fits (suc d)) (some r)) h
              ∙ ap (λ b. answer_of b (some r) (some found, times n))
                  (high (suc d) (omega (arith, e)))
              ∙ g,
        )

    -- Where the routing by cells is on and the local computation, which answers, fits once `k` pairs of
    -- calls do and not before, each further pair of calls asks every peer once more: with `n` more on
    -- the stack `compute_reputation` answers behind `n` rounds of requests.
    pub peers_asked_again :
        (fits : ℕ → Bool) (r : Reputation F) (k n : ℕ)
        → ((j : ℕ) → j < k → fits j ≡ false)
        → ((j : ℕ) → k ≤ j → fits j ≡ true)
        → (found : Reputation F) × (compute_reputation true fits (some r) (suc (n + k))
            ≡ (some found, times n))
    peers_asked_again fits r k n low high = asked_again fits r k n (n + k) low high refl

    average-Answers :
        (score : ℕ) (all : List (Scored F)) → Answers (λ n. n ≤ 100) (average now score all)
    unfolding average
    average-Answers score all =
        let low : min 100 score ≤ 100 = omega arith in
        let sums = weigh now all (ops.of_ℕ 0, ops.of_ℕ 0) in
        let quotient = ops.trunc (lib.round (ops.div sums.0 sums.1)) in
        Answers-if (λ n. n ≤ 100) (ops.lt (ops.of_ℕ 0) sums.1) (quotient >>= λ z. some (clamp z))
          (some (min 100 score))
          (Answers-bind (λ _. Unit {0}) (λ n. n ≤ 100) quotient clamp (all-Answers quotient)
            (λ z _. clamp-bounds z))
          (Answers-some (λ n. n ≤ 100) (min 100 score) low)

    aggregate_scores-Answers :
        (score : ℕ) (last_seen : Option ℕ) (peers : List (String × Option (PeerScore F)))
        → Answers (λ a. a.score ≤ 100) (aggregate_scores now score last_seen peers)
    unfolding aggregate_scores
    aggregate_scores-Answers score last_seen peers =
        let low : min 100 score ≤ 100 = omega arith in
        elim (Bool-cases (leb (suc (length (scored_peers peers))) 1)) [
          | inl e ↦ rw e (Answers-some (λ (a : Aggregated). a.score ≤ 100) _ low)
          | inr e ↦ rw e (
              Answers-bind (λ n. n ≤ 100) (λ (a : Aggregated). a.score ≤ 100) (average now score _)
                _ (average-Answers score _) (λ n h. h))
        ]

    -- A reputation with the scores of the peers has a score of at most 100, where the local one has, and
    -- the tier and the number of reports of the local one, whatever score the peers' answers lead to.
    pub with_peers-Answers :
        (r : Reputation F)
        → r.score ≤ 100
        → Answers
            (λ s.
              (s.score ≤ 100)
              × (s.reputation_tier ≡ r.reputation_tier)
              × (s.direct_reports ≡ r.direct_reports))
            (with_peers r)
    unfolding with_peers
    with_peers-Answers r h =
        let Kept = λ (s : Reputation F).
          (s.score ≤ 100)
          × (s.reputation_tier ≡ r.reputation_tier)
          × (s.direct_reports ≡ r.direct_reports) in
        elim (Bool-cases (length peer_urls == 0)) [
          | inl e ↦ rw e (Answers-some Kept _ (h, refl, refl))
          | inr e ↦ rw e (
              Answers-bind (λ (a : Aggregated). a.score ≤ 100) Kept
                (aggregate_scores now r.score r.last_reported_at _) _
                (aggregate_scores-Answers r.score r.last_reported_at _) (λ a k. (k, refl, refl)))
        ]
