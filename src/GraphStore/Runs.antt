-- ===== src/GraphStore/Runs.antt =====
-- What every run of the store of backend/app/services/graph/entity_graph.py keeps.
use trust_shield.Base.{
  ℕ, String, some, Bool, true, false, ◌&&◌, List, [], ◌≡◌, ap, subst, if◌then◌else◌, length,
  some_inj,
}
use trust_shield.Base.Float.{FloatOps, FloatLaws}
use trust_shield.GraphStore.{
  Update, update_entity_scores, update_ring_ids, Entity, Event, Store, Servers,
  invalidate_all_risk_cache, add_entity, add_session_link, drain, drain_backlog, get_entity_risk,
}
use trust_shield.GraphStore.Nodes.{
  update_entity_scores-IsSound, update_ring_ids-IsSound, Distinct, IsCapped, IsSound,
  add_entity-IsSound, add_session_link-IsSound, drain-IsSound, get_entity_risk-IsSound,
}

module _ {F : Type 0} (ops : FloatOps F) (hash : String → String) where
  -- The steps of the store, each with the servers as they are then.
  pub data Run : Store F → Type 0 where
    starts :
        (backlog : List (Event F)) (runs : ℕ)
        → Run (record { nodes = []; links = []; backlog = backlog; cache = []; runs = runs })
    adds :
        (servers : Servers) (e : Entity F) (st : Store F)
        → Run st
        → Run (add_entity ops hash servers e st)
    connects :
        (servers : Servers) (a b s : String) (st : Store F)
        → Run st
        → Run (add_session_link ops hash servers a b s st)
    drains :
        (servers : Servers) (fuel n : ℕ) (st after : Store F)
        → Run st
        → drain_backlog ops hash servers fuel st ≡ some (n, after)
        → Run after
    asks :
        (servers : Servers) (v : String) (st : Store F)
        → Run st
        → Run (get_entity_risk ops hash servers v st).1
    scores :
        (servers : Servers) (updates : List (Update F)) (st : Store F)
        → Run st
        → Run (update_entity_scores ops hash servers updates st)
    assigns :
        (servers : Servers) (assignments : List (String × String)) (st : Store F)
        → Run st
        → Run (update_ring_ids ops hash servers assignments st)
    forgets :
        (servers : Servers) (st : Store F)
        → Run st
        → Run (invalidate_all_risk_cache ops hash servers st).1

  keeps : FloatLaws ops → (st : Store F) → Run st → IsSound ops st
  unfolding drain_backlog invalidate_all_risk_cache
  keeps laws _ (starts backlog runs) = (tt, tt)
  keeps laws _ (adds servers e st r) = add_entity-IsSound ops hash servers e st (keeps laws st r)
  keeps laws _ (connects servers a b s st r) =
      add_session_link-IsSound ops hash servers a b s st (keeps laws st r)
  keeps laws after (drains servers fuel n st _ r e) =
      drained (servers.redis && servers.connected) e (keeps laws st r)
    where
      drained :
          (b : Bool)
          → (if b then drain ops hash servers fuel 0 st else some (0, st)) ≡ some (n, after)
          → IsSound ops st
          → IsSound ops after
      drained true e h = drain-IsSound ops hash servers fuel 0 n st after h e
      drained false e h = subst (IsSound ops) (ap (λ (x : ℕ × Store F). x.1) (some_inj e)) h
  keeps laws _ (asks servers v st r) =
      (get_entity_risk-IsSound ops hash servers laws v st (keeps laws st r)).1
  keeps laws _ (scores servers updates st r) =
      update_entity_scores-IsSound ops hash servers updates st (keeps laws st r)
  keeps laws _ (assigns servers assignments st r) =
      update_ring_ids-IsSound ops hash servers assignments st (keeps laws st r)
  keeps laws _ (forgets servers st r) = emptied servers.redis (keeps laws st r)
    where
      emptied :
          (b : Bool)
          → IsSound ops st
          → let result : ℕ × Store F =
              if b then (length st.cache, record st { cache = [] }) else (0, st) in
            IsSound ops result.1
      emptied true (h, k) = (h, tt)
      emptied false h = h

  -- After every run of writes, bulk updates, drains and questions, whatever servers fail on the way, no two nodes
  -- have the same value, and each question for a risk, of the cache or not, is answered by at most 1.
  pub Run-IsSound :
      FloatLaws ops
      → (st : Store F) → Run st
      → Distinct st.nodes
        × ((servers : Servers) (v : String)
            → IsCapped ops (get_entity_risk ops hash servers v st).0)
  Run-IsSound laws st r =
      let sound = keeps laws st r in
      (sound.0, λ servers v. (get_entity_risk-IsSound ops hash servers laws v st sound).0)
