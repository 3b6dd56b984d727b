-- ===== src/Workers/Locks.antt =====
-- At most one run of a task: the lock of backend/app/workers/idempotency.py under any sequence of calls.
use trust_shield.Base.{
  subst, ℕ, String, Option, none, some, Bool, true, false, not, List, [], ◌∷◌, ◌+◌, ◌<◌, ◌=s=◌, ◌≡◌,
  refl, sym, ap, ◌∙◌, ltb, arith, select, any, All, Bool-cases, inl, inr, eq_iff, eq_refl,
}
use trust_shield.Workers.{
  Entry, lasts, is_held, set_key, try_acquire, mark_done, mark_failed, Call, acquire, finish,
  give_up, instant, perform, perform_all,
}

-- The key lasts at every instant before a bound.
abbrev HeldTo : ℕ → String → List Entry → Type 0
HeldTo u k es = (now : ℕ) → now < u → any (is_held now k) es ≡ true

any-kept :
    (now : ℕ) (k j : String) (es : List Entry)
    → (j =s= k) ≡ false
    → any (is_held now k) (select (λ (e : Entry). not (e.key =s= j)) es) ≡ any (is_held now k) es
unfolding is_held
any-kept now k j [] n = refl
any-kept now k j (e ∷ es) n = elim (Bool-cases (e.key =s= j)) [
  | inl h ↦
      let other : (e.key =s= k) ≡ false = ap (λ x. x =s= k) ((eq_iff e.key j).0 h) ∙ n in
      rw (h, other) (any-kept now k j es n)
  | inr h ↦ rw (h, any-kept now k j es n) refl
]

-- Writing another key, or the key itself for at least as long, keeps it.
set_key-HeldTo :
    (u : ℕ) (k j v : String) (t : Option ℕ) (es : List Entry)
    → ((now : ℕ) → now < u → lasts now t ≡ true)
    → HeldTo u k es
    → HeldTo u k (set_key j v t es)
unfolding set_key is_held
set_key-HeldTo u k j v t es long h now i = elim (Bool-cases (j =s= k)) [
  | inl e ↦ rw (e, long now i) refl
  | inr e ↦ rw (e, any-kept now k j es e) (h now i)
]

other_key-HeldTo :
    (u : ℕ) (k j v : String) (t : Option ℕ) (es : List Entry)
    → (j =s= k) ≡ false
    → HeldTo u k es
    → HeldTo u k (set_key j v t es)
unfolding set_key is_held
other_key-HeldTo u k j v t es e h now i = rw (e, any-kept now k j es e) (h now i)

perform-HeldTo :
    (u : ℕ) (k : String) (c : Call) (es : List Entry)
    → instant c < u
    → HeldTo u k es
    → HeldTo u k (perform c es)
unfolding perform try_acquire mark_done mark_failed lasts
perform-HeldTo u k (finish true now j) es i h = set_key-HeldTo u k j "done" none es (λ m q. refl) h
perform-HeldTo u k (finish false now j) es i h = h
perform-HeldTo u k (give_up true now j) es i h =
    set_key-HeldTo u k j "failed" none es (λ m q. refl) h
perform-HeldTo u k (give_up false now j) es i h = h
perform-HeldTo u k (acquire false now j ttl) es i h = h
perform-HeldTo u k (acquire true now j ttl) es i h = elim (Bool-cases (any (is_held now j) es)) [
  | inl a ↦ rw (a, perform, try_acquire) h
  | inr a ↦ elim (Bool-cases (j =s= k)) [
    | inr e ↦
        rw (a, perform, try_acquire) (other_key-HeldTo u k j "running" (some (now + ttl)) es e h)
    | inl e ↦
        (let clash : true ≡ false =
            sym (h now i) ∙ ap (λ x. any (is_held now x) es) (sym ((eq_iff j k).0 e)) ∙ a in
          cc)
  ]
]

perform_all-HeldTo :
    (u : ℕ) (k : String) (cs : List Call) (es : List Entry)
    → All (λ c. instant c < u) cs
    → HeldTo u k es
    → HeldTo u k (perform_all cs es)
unfolding perform_all
perform_all-HeldTo u k [] es is h = h
perform_all-HeldTo u k (c ∷ cs) es (i, is) h =
    perform_all-HeldTo u k cs (perform c es) is (perform-HeldTo u k c es i h)

own_key-HeldTo : (u : ℕ) (k v : String) (es : List Entry) → HeldTo u k (set_key k v (some u) es)
unfolding set_key is_held lasts
own_key-HeldTo u k v es now i =
    let early : ltb now u ≡ true = ground arith in rw (eq_refl k, early) refl

-- A successful acquisition with Redis at hand sets the key.
acquired-HeldTo :
    (now ttl : ℕ) (k : String) (es after : List Entry)
    → try_acquire true now k ttl es ≡ (true, after)
    → HeldTo (now + ttl) k after
unfolding try_acquire
acquired-HeldTo now ttl k es after = elim (Bool-cases (any (is_held now k) es)) [
  | inl a ↦
      rw (a, try_acquire)
        (λ h. (let clash : false ≡ true = ap (λ (r : Bool × List Entry). r.0) h in cc))
  | inr a ↦
      rw (a, try_acquire)
        (λ h.
          subst (HeldTo (now + ttl) k) (ap (λ (r : Bool × List Entry). r.1) h)
            (own_key-HeldTo (now + ttl) k "running" es))
]

-- Once a worker has acquired a task while Redis answered, no other call acquires it before the lock
-- expires, whatever calls come between, while Redis answers that call: the marks of a run that ended or
-- failed do not release the lock.
pub acquired_once :
    (now ttl : ℕ) (k : String) (es after : List Entry) (cs : List Call) (later ttl2 : ℕ)
    → try_acquire true now k ttl es ≡ (true, after)
    → All (λ c. instant c < now + ttl) cs
    → later < now + ttl
    → (try_acquire true later k ttl2 (perform_all cs after)).0 ≡ false
unfolding try_acquire
acquired_once now ttl k es after cs later ttl2 h is i =
    let held = acquired-HeldTo now ttl k es after h in
    rw (perform_all-HeldTo (now + ttl) k cs after is held later i, try_acquire) refl
