-- ===== src/Webhooks/Timing.antt =====
-- The attempts of `dispatch_event` of backend/app/services/integration/webhook_dispatcher.py: when
-- they are made, and with which signature.
use trust_shield.Base.{
  ℕ, zero, suc, String, some, Bool, true, false, ◌&&◌, List, [], ◌∷◌, ◌≡◌, refl, sym, ap, subst,
  eq_iff, ◌∙◌, ◌+◌, ◌-◌, ◌*◌, ◌≤◌, arith, if◌then◌else◌, leb, Bool-cases, inl, inr, select, length,
  All, All-append, All-map,
}
use trust_shield.Webhooks.{
  WebhookLibrary, Subscription, replay_tolerance_seconds, build_signature_header, verify_signature,
  max_retries, Network, Request, is_delivered, backoff, pause, try_posts, Dispatch, wants, deliver,
  serve, serve_all, is_selected, dispatch_event,
}
use trust_shield.Webhooks.Signatures.{WebhookLaws, verify_signature-built}

-- The most seconds that attempts and pauses take where an attempt takes at most `slowest`.
abbrev pub longest : (slowest left attempt : ℕ) → ℕ
longest slowest zero attempt = 0
longest slowest (suc left) attempt = slowest + pause attempt + longest slowest left (attempt + 1)

-- Every attempt over this network takes at most `slowest` seconds. The client's own timeout of ten
-- seconds is for each read and write of an attempt, so that it is not such a bound.
abbrev pub IsPrompt : ℕ → Network → Type 0
IsPrompt slowest net =
    (url body header : String) (now : ℕ) → (net.post url body header now).1 ≤ slowest

-- The eight attempts and the pauses between them, of 127 seconds in all.
abbrev pub longest_delivery : ℕ → ℕ
longest_delivery slowest = 8 * slowest + 127

-- When a request is made, whose it is, and its signature.
abbrev pub MadeFor : ℕ → Subscription → String → ℕ → ℕ → Request → Type 0
MadeFor slowest sub header first last r =
    (r.to ≡ sub) × (r.signature ≡ header) × (first ≤ r.at) × (r.at + slowest ≤ last)

try_posts-times :
    (slowest : ℕ) (net : Network) (payload : String) (sub : Subscription) (header : String)
    (left attempt now : ℕ)
    → IsPrompt slowest net
    → let tried = try_posts net payload sub header left attempt now in
      All (MadeFor slowest sub header now (now + longest slowest left attempt)) tried.requests
      × (now ≤ tried.clock)
      × (tried.clock ≤ now + longest slowest left attempt)
unfolding try_posts
try_posts-times slowest net payload sub header zero attempt now h = (tt, omega arith, omega arith)
try_posts-times slowest net payload sub header (suc left) attempt now h =
    let (reply, took) = net.post sub.url payload header now in
    let short : took ≤ slowest = h sub.url payload header now in
    let next = now + took + pause attempt in
    let (made, early, late) =
      try_posts-times slowest net payload sub header left (attempt + 1) next h in
    let rest =
      All-map (MadeFor slowest sub header next (next + longest slowest left (attempt + 1)))
        (MadeFor slowest sub header now (now + longest slowest (suc left) attempt)) _
        (λ r (a, b, c, d). (a, b, omega (arith, c), omega (arith, d, short))) made in
    elim (Bool-cases (is_delivered reply)) [
      | inl e ↦
          rw e ((((refl, refl, omega arith, omega arith), tt), omega arith, omega (arith, short)))
      | inr e ↦ rw e (
          (
            ((refl, refl, omega arith, omega arith), rest),
            omega (arith, early),
            omega (arith, late, short),
          ))
    ]

longest-deliver : (slowest : ℕ) → longest slowest max_retries 1 ≡ longest_delivery slowest
unfolding pause backoff
longest-deliver slowest = omega arith

-- A request of a dispatch: it goes to a subscription that is selected and wants the event, with the
-- signature by its secret, between two instants.
abbrev pub Sent :
    ℕ → WebhookLibrary → (tenant event payload : String) → ℕ → (first last : ℕ) → Request → Type 0
Sent slowest lib tenant event payload timestamp first last r =
    (is_selected tenant r.to ≡ true)
    × (wants event r.to ≡ true)
    × (r.signature ≡ build_signature_header lib r.to.secret payload timestamp)
    × (first ≤ r.at)
    × (r.at + slowest ≤ last)

module _ (slowest : ℕ) (lib : WebhookLibrary) (net : Network) (tenant event payload : String)
    (timestamp : ℕ) where
  -- The requests and the clock of a dispatch up to here.
  abbrev Timely : (first last : ℕ) → Dispatch → Type 0
  Timely first last d =
      All (Sent slowest lib tenant event payload timestamp first last) d.requests
      × (first ≤ d.clock)
      × (d.clock ≤ last)

  widened :
      (first last later : ℕ) (rs : List Request)
      → last ≤ later
      → All (Sent slowest lib tenant event payload timestamp first last) rs
      → All (Sent slowest lib tenant event payload timestamp first later) rs
  widened first last later rs h =
      All-map (Sent slowest lib tenant event payload timestamp first last)
        (Sent slowest lib tenant event payload timestamp first later) rs
        (λ r (a, b, c, d, e). (a, b, c, d, omega (arith, e, h)))

  made-Sent :
      (sub : Subscription) (header : String) (first last : ℕ) (r : Request)
      → r.to ≡ sub
      → r.signature ≡ header
      → is_selected tenant sub ≡ true
      → wants event sub ≡ true
      → header ≡ build_signature_header lib sub.secret payload timestamp
      → first ≤ r.at
      → r.at + slowest ≤ last
      → Sent slowest lib tenant event payload timestamp first last r
  made-Sent sub header first last r same signed m w h a b = (
    ap (is_selected tenant) same ∙ m,
    ap (wants event) same ∙ w,
    signed
        ∙ h
        ∙ sym
            (ap (λ (s : Subscription). build_signature_header lib s.secret payload timestamp) same),
    a,
    b,
  )

  serve-Timely :
      (sub : Subscription) (first last : ℕ) (d : Dispatch)
      → IsPrompt slowest net
      → is_selected tenant sub ≡ true
      → Timely first last d
      → Timely first
          (last + (if wants event sub then longest_delivery slowest else 0))
          (serve lib net event payload timestamp sub d)
  unfolding serve deliver
  serve-Timely sub first last d h m (sent, early, late) = elim (Bool-cases (wants event sub)) [
    | inr w ↦
        rw w
          (widened first last (last + 0) d.requests (omega arith) sent, early, omega (arith, late))
    | inl w ↦
        (let header = build_signature_header lib sub.secret payload timestamp in
          let (made, after, before) =
            try_posts-times slowest net payload sub header max_retries 1 d.clock h in
          let long = longest-deliver slowest in
          rw w (
            All-append _ d.requests _
                (widened first last (last + longest_delivery slowest) d.requests (omega arith) sent)
                (All-map
                  (MadeFor slowest sub header d.clock (d.clock + longest slowest max_retries 1))
                  (Sent slowest lib tenant event payload timestamp first
                    (last + longest_delivery slowest))
                  _
                  (λ r (same, signed, a, b).
                    made-Sent sub header first (last + longest_delivery slowest) r same signed m w
                      refl (omega (arith, a, early)) (omega (arith, b, late, long)))
                  made),
            omega (arith, early, after),
            omega (arith, late, before, long),
          ))
  ]

  serve_all-Timely :
      (subs : List Subscription) (first last : ℕ) (d : Dispatch)
      → IsPrompt slowest net
      → All (λ s. is_selected tenant s ≡ true) subs
      → Timely first last d
      → Timely first
          (last + longest_delivery slowest * length (select (wants event) subs))
          (serve_all lib net event payload timestamp subs d)
  unfolding serve_all
  serve_all-Timely [] first last d h m t =
      (let (sent, early, late) = t in
        (
          widened first last (last + longest_delivery slowest * 0) d.requests (omega arith) sent,
          early,
          omega (arith, late),
        ))
  serve_all-Timely (sub ∷ subs) first last d h (m, ms) t =
      subst
        (λ n. Timely first n (
          serve_all lib net event payload timestamp subs
            (serve lib net event payload timestamp sub d)))
        (one_more sub subs last)
        (serve_all-Timely subs first _ (serve lib net event payload timestamp sub d) h ms
          (serve-Timely sub first last d h m t))
    where
      one_more :
          (sub : Subscription) (subs : List Subscription) (n : ℕ)
          → n
              + (if wants event sub then longest_delivery slowest else 0)
              + longest_delivery slowest * length (select (wants event) subs)
            ≡ n + longest_delivery slowest * length (select (wants event) (sub ∷ subs))
      one_more sub subs n = elim (Bool-cases (wants event sub)) [
        | inl w ↦ rw w (omega arith)
        | inr w ↦ rw w (omega arith)
      ]

select-All :
    (p : Subscription → Bool) (subs : List Subscription) → All (λ s. p s ≡ true) (select p subs)
select-All p [] = tt
select-All p (s ∷ subs) = elim (Bool-cases (p s)) [
  | inl h ↦ rw h (h, select-All p subs)
  | inr h ↦ rw h (select-All p subs)
]

-- The active subscriptions of a tenant to an event.
abbrev pub subscribers : String → String → List Subscription → List Subscription
subscribers tenant event table = select (wants event) (select (is_selected tenant) table)

pub dispatch_event-Sent :
    (slowest : ℕ) (lib : WebhookLibrary) (net : Network) (tenant event payload : String) (now : ℕ)
    (table : List Subscription)
    → IsPrompt slowest net
    → All
        (Sent slowest lib tenant event payload now now
          (now + longest_delivery slowest * length (subscribers tenant event table)))
        (dispatch_event lib net tenant event payload now table).requests
unfolding dispatch_event
dispatch_event-Sent slowest lib net tenant event payload now table h =
    (serve_all-Timely slowest lib net tenant event payload now (select (is_selected tenant) table)
      now now (record { rows = table; clock = now; requests = [] }) h
      (select-All (is_selected tenant) table) (tt, omega arith, omega arith)).0

and_left : (a b : Bool) → (a && b) ≡ true → a ≡ true
and_left true b h = refl
and_left false b h = cc

and_right : (a b : Bool) → (a && b) ≡ true → b ≡ true
and_right true b h = h
and_right false b h = cc

-- What a receiver, whose clock agrees, sees of a request.
abbrev pub Received :
    ℕ → WebhookLibrary → (tenant event payload : String) → ℕ → ℕ → Request → Type 0
Received slowest lib tenant event payload now subscriber_count r =
    (r.to.tenant_id ≡ tenant)
    × (r.to.is_active ≡ true)
    × (wants event r.to ≡ true)
    × (r.at + slowest ≤ now + longest_delivery slowest * subscriber_count)
    × (verify_signature lib r.at r.to.secret payload r.signature
        ≡ some (leb (r.at - now) replay_tolerance_seconds))

-- Where an attempt takes at most `slowest` seconds, each request of a dispatch goes to an active
-- subscription of the tenant to the event, within eight times `slowest` and 127 seconds for each such
-- subscription, and the signature it carries is accepted by `verify_signature` with the subscription's
-- secret if and only if the dispatch began at most five minutes before.
pub dispatch_event-Received :
    (slowest : ℕ) (lib : WebhookLibrary)
    → WebhookLaws lib
    → (net : Network) (tenant event payload : String) (now : ℕ) (table : List Subscription)
    → IsPrompt slowest net
    → All
        (Received slowest lib tenant event payload now (length (subscribers tenant event table)))
        (dispatch_event lib net tenant event payload now table).requests
dispatch_event-Received slowest lib laws net tenant event payload now table h =
    All-map (Sent slowest lib tenant event payload now now last) _ _
      (λ r (a, b, c, d, e). (
        (eq_iff r.to.tenant_id tenant).0 (and_left _ _ a),
        and_right _ _ a,
        b,
        e,
        ap (verify_signature lib r.at r.to.secret payload) c
            ∙ verify_signature-built lib laws r.at r.to.secret payload now
            ∙ ap (λ n. some (leb n replay_tolerance_seconds)) (omega (arith, d)),
      ))
      (dispatch_event-Sent slowest lib net tenant event payload now table h)
  where
    last : ℕ
    last = now + longest_delivery slowest * length (subscribers tenant event table)

at_most_one : (each n : ℕ) → n ≤ 1 → each * n ≤ each
at_most_one each zero h = omega arith
at_most_one each (suc zero) h = omega arith
at_most_one each (suc (suc n)) h = absurd (ground arith)

-- The requests of a dispatch to one subscription at most are all accepted, where an attempt takes at
-- most 24 seconds.
pub one_subscriber-accepted :
    (slowest : ℕ) (lib : WebhookLibrary)
    → WebhookLaws lib
    → (net : Network) (tenant event payload : String) (now : ℕ) (table : List Subscription)
    → IsPrompt slowest net
    → slowest ≤ 24
    → length (subscribers tenant event table) ≤ 1
    → All
        (λ r. verify_signature lib r.at r.to.secret payload r.signature ≡ some true)
        (dispatch_event lib net tenant event payload now table).requests
one_subscriber-accepted slowest lib laws net tenant event payload now table h small k =
    All-map
      (Received slowest lib tenant event payload now (length (subscribers tenant event table))) _ _
      (λ r (a, b, c, d, e). e ∙ ap some (soon r d))
      (dispatch_event-Received slowest lib laws net tenant event payload now table h)
  where
    soon :
        (r : Request)
        → r.at + slowest ≤ now + longest_delivery slowest * length (subscribers tenant event table)
        → leb (r.at - now) replay_tolerance_seconds ≡ true
    soon r d =
        let e : r.at - now ≤ 300 = omega (
          arith,
          d,
          small,
          at_most_one (longest_delivery slowest) (length (subscribers tenant event table)) k,
        ) in
        ground arith
