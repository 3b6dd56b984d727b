-- ===== src/Webhooks/Delivery.antt =====
-- The attempts of `dispatch_event` of backend/app/services/integration/webhook_dispatcher.py: how
-- many, and what they lead to.
use mathlib.Core.List.{append-nil}
use trust_shield.Base.{
  ℕ, zero, suc, String, Bool, true, false, not, ◌&&◌, ◌||◌, [], ◌++◌, ◌≡◌, refl, sym, ap, ◌∙◌, ◌+◌,
  ◌≤◌, arith, if◌then◌else◌, Bool-cases, inl, inr, any, map, length,
}
use trust_shield.Webhooks.{
  WebhookLibrary, Subscription, build_signature_header, max_retries, Network, Request, is_delivered,
  pause, try_posts, disable, Dispatch, wants, deliver, serve,
}

abbrev pub succeeded : Request → Bool
succeeded r = is_delivered r.reply

-- The attempts go on until one is delivered.
pub try_posts-outcome :
    (net : Network) (payload : String) (sub : Subscription) (header : String) (left attempt now : ℕ)
    → let tried = try_posts net payload sub header left attempt now in
      (tried.success ≡ any succeeded tried.requests)
      × (length tried.requests ≤ left)
      × (tried.success ≡ false → length tried.requests ≡ left)
unfolding try_posts
try_posts-outcome net payload sub header zero attempt now = (refl, omega arith, λ h. refl)
try_posts-outcome net payload sub header (suc left) attempt now =
    let (reply, took) = net.post sub.url payload header now in
    let (a, b, c) =
      try_posts-outcome net payload sub header left (attempt + 1) (now + took + pause attempt) in
    elim (Bool-cases (is_delivered reply)) [
      | inl h ↦ rw (h, h) (refl, omega arith, λ z. absurd cc)
      | inr h ↦ rw (h, h) (a, omega (arith, b), λ z. ap suc (c z))
    ]

not-true : (b : Bool) → not b ≡ true → b ≡ false
not-true false h = refl
not-true true h = cc

-- One round for a subscription that wants the event makes between one and eight requests: it goes on
-- until a response has a status below 300, and if all eight fail, and only then, the rows with the
-- subscription's key are disabled. A subscription that does not want the event changes nothing.
pub serve-outcome :
    (lib : WebhookLibrary) (net : Network) (event payload : String) (timestamp : ℕ)
    (sub : Subscription) (d : Dispatch)
    → let made =
        if wants event sub
        then (deliver lib net event payload timestamp sub d.clock).requests
        else [] in
      let after = serve lib net event payload timestamp sub d in
      (after.requests ≡ d.requests ++ made)
      × (length made ≤ 8)
      × (after.rows ≡ (
          if not (wants event sub) || any succeeded made
          then d.rows
          else map (disable sub.id) d.rows))
      × ((wants event sub && not (any succeeded made)) ≡ true → length made ≡ 8)
unfolding serve deliver
serve-outcome lib net event payload timestamp sub d =
    let header = build_signature_header lib sub.secret payload timestamp in
    let (a, b, c) = try_posts-outcome net payload sub header max_retries 1 d.clock in
    elim (Bool-cases (wants event sub)) [
      | inl w ↦ rw w (
        refl,
        b,
        ap (λ b. if b then d.rows else map (disable sub.id) d.rows) a,
        λ z. c (a ∙ not-true _ z),
      )
      | inr w ↦
          rw w
            (sym (append-nil d.requests), omega arith, refl, λ h. (let z : false ≡ true = h in cc))
    ]
