-- ===== src/GraphStore/Backlog.antt =====
-- The backlog of backend/app/services/graph/entity_graph.py: what `drain_backlog` makes of the writes
-- that were buffered while Neo4j failed.
use mathlib.Core.List.{append-nil, append_assoc, map-append}
use trust_shield.Base.{
  ℕ, zero, suc, String, none, some, true, false, not, ◌&&◌, List, [], ◌∷◌, ◌++◌, map, ◌+◌, ◌≡◌,
  refl, sym, ap, ◌∙◌, ◌=s=◌, if◌then◌else◌, arith, length, select,
}
use trust_shield.Base.Float.{FloatOps}
use trust_shield.GraphStore.{
  Entity, Node, Event, entity_event, link_event, Store, Servers, lookup, merge_node,
  invalidate_cache, buffer_to_backlog, add_entity_raw, add_entity, add_session_link_raw,
  add_session_link, replay, drain, drain_backlog,
}

-- Neo4j and Redis are connected, and each statement succeeds, or each fails.
pub record IsUp (servers : Servers) : Type 0 where
  pub connected : servers.connected ≡ true
  pub redis : servers.redis ≡ true
  pub succeeds : (n : ℕ) → servers.succeeds n ≡ true

pub record IsDown (servers : Servers) : Type 0 where
  pub connected : servers.connected ≡ true
  pub redis : servers.redis ≡ true
  pub fails : (n : ℕ) → servers.succeeds n ≡ false

module _ {F : Type 0} (ops : FloatOps F) (hash : String → String) where
  unfoldable pub add_all : Servers → List (Entity F) → Store F → Store F
  add_all servers [] st = st
  add_all servers (e ∷ es) st = add_all servers es (add_entity ops hash servers e st)

  unfoldable pub merge_all : List (Entity F) → List (Node F) → List (Node F)
  merge_all [] ns = ns
  merge_all (e ∷ es) ns = merge_all es (merge_node ops e ns)

  unfoldable pub forget_all : List (Entity F) → List (String × F) → List (String × F)
  forget_all [] cs = cs
  forget_all (e ∷ es) cs = forget_all es (select (λ c. not (c.0 =s= hash e.value)) cs)

  module _ (servers : Servers) where
    add_entity_raw-up :
        IsUp servers
        → (e : Entity F) (st : Store F)
        → add_entity_raw ops hash servers e st ≡ record st {
          nodes = merge_node ops e st.nodes;
          cache = select (λ c. not (c.0 =s= hash e.value)) st.cache;
          runs = st.runs + 1;
        }
    unfolding add_entity_raw invalidate_cache
    add_entity_raw-up up e st = rw (up.succeeds st.runs, up.redis) refl

    add_entity_raw-down :
        IsDown servers
        → (e : Entity F) (st : Store F)
        → add_entity_raw ops hash servers e st
          ≡ record st { backlog = st.backlog ++ entity_event e ∷ []; runs = st.runs + 1 }
    unfolding add_entity_raw buffer_to_backlog
    add_entity_raw-down down e st = rw (down.fails st.runs, down.redis) refl

    add_entity-raw :
        servers.connected ≡ true
        → (e : Entity F) (st : Store F)
        → add_entity ops hash servers e st ≡ add_entity_raw ops hash servers e st
    unfolding add_entity
    add_entity-raw h e st = ap (λ b. if b then add_entity_raw ops hash servers e st else st) h

    add_all-up :
        IsUp servers
        → (es : List (Entity F)) (st : Store F)
        → add_all servers es st ≡ record st {
          nodes = merge_all es st.nodes;
          cache = forget_all es st.cache;
          runs = st.runs + length es;
        }
    unfolding add_all merge_all forget_all
    add_all-up up [] st =
        (let e : st.runs ≡ st.runs + 0 = omega arith in ap (λ n. record st { runs = n }) e)
    add_all-up up (e ∷ es) st =
        let runs : st.runs + 1 + length es ≡ st.runs + suc (length es) = omega arith in
        ap (add_all servers es) (add_entity-raw up.connected e st ∙ add_entity_raw-up up e st)
        ∙ add_all-up up es _
        ∙ ap
            (λ n. record st {
              nodes = merge_all (e ∷ es) st.nodes;
              cache = forget_all (e ∷ es) st.cache;
              runs = n;
            })
            runs

    add_all-down :
        IsDown servers
        → (es : List (Entity F)) (st : Store F)
        → add_all servers es st
          ≡ record st { backlog = st.backlog ++ map entity_event es; runs = st.runs + length es }
    unfolding add_all
    add_all-down down [] st =
        let e : st.runs ≡ st.runs + 0 = omega arith in
        let b = sym (append-nil st.backlog) in λ i. record st { backlog = b i; runs = e i }
    add_all-down down (e ∷ es) st =
        let runs : st.runs + 1 + length es ≡ st.runs + suc (length es) = omega arith in
        let joined = append_assoc st.backlog (entity_event e ∷ []) (map entity_event es) in
        ap (add_all servers es) (add_entity-raw down.connected e st ∙ add_entity_raw-down down e st)
        ∙ add_all-down down es _
        ∙ (λ i. record st { backlog = joined i; runs = runs i })

    drain-up :
        IsUp servers
        → (es : List (Entity F)) (drained : ℕ) (st : Store F)
        → drain ops hash servers
            (suc (length es))
            drained
            (record st { backlog = map entity_event es })
          ≡ some (
            drained + length es,
            record st {
              nodes = merge_all es st.nodes;
              cache = forget_all es st.cache;
              backlog = [];
              runs = st.runs + length es;
            },
          )
    unfolding drain replay merge_all forget_all
    drain-up up [] drained st =
        let m : drained ≡ drained + 0 = omega arith in
        let n : st.runs ≡ st.runs + 0 = omega arith in
        λ i. some (m i, record st { backlog = []; runs = n i })
    drain-up up (e ∷ es) drained st =
        let m : drained + 1 + length es ≡ drained + suc (length es) = omega arith in
        let n : st.runs + 1 + length es ≡ st.runs + suc (length es) = omega arith in
        ap (drain ops hash servers (suc (length es)) (drained + 1))
          (add_entity_raw-up up e (record st { backlog = map entity_event es }))
        ∙ drain-up up es (drained + 1) (record st {
          nodes = merge_node ops e st.nodes;
          cache = select (λ c. not (c.0 =s= hash e.value)) st.cache;
          runs = st.runs + 1;
        })
        ∙ (λ i. some (
          m i,
          record st {
            nodes = merge_all (e ∷ es) st.nodes;
            cache = forget_all (e ∷ es) st.cache;
            backlog = [];
            runs = n i;
          },
        ))

  drain_backlog-connected :
      (servers : Servers)
      → servers.redis ≡ true
      → servers.connected ≡ true
      → (fuel : ℕ) (st : Store F)
      → drain_backlog ops hash servers fuel st ≡ drain ops hash servers fuel 0 st
  unfolding drain_backlog
  drain_backlog-connected servers r c fuel st =
      ap (λ b. if b then drain ops hash servers fuel 0 st else some (0, st))
        (ap (λ b. b && servers.connected) r ∙ c)

  -- Entities that are added while each statement fails are buffered, and a drain after it, on as many
  -- turns as there are events and one more, ends with a store whose nodes, links and cache are
  -- those of adding the same entities while Neo4j was up; the backlog is empty then, and the count is
  -- the number of the entities.
  pub outage_is_made_up :
      (down up : Servers)
      → IsDown down
      → IsUp up
      → (es : List (Entity F)) (st : Store F) → st.backlog ≡ []
      → (after : Store F) × (drain_backlog ops hash up (suc (length es)) (add_all down es st)
          ≡ some (length es, after))
        × (after.nodes ≡ (add_all up es st).nodes)
        × (after.links ≡ (add_all up es st).links)
        × (after.cache ≡ (add_all up es st).cache)
        × (after.backlog ≡ [])
  outage_is_made_up down up d u es st h =
      let made = add_all-up up u es st in
      let count : 0 + length es ≡ length es = omega arith in
      (
        record st {
          nodes = merge_all es st.nodes;
          cache = forget_all es st.cache;
          backlog = [];
          runs = st.runs + length es + length es;
        },
        drain_backlog-connected up u.redis u.connected (suc (length es)) (add_all down es st)
            ∙ ap (drain ops hash up (suc (length es)) 0) (
                add_all-down down d es st
                ∙ ap
                    (λ b. record st {
                      backlog = b ++ map entity_event es;
                      runs = st.runs + length es;
                    })
                    h)
            ∙ drain-up up u es 0 (record st { runs = st.runs + length es })
            ∙ (λ i. some (
              count i,
              record st {
                nodes = merge_all es st.nodes;
                cache = forget_all es st.cache;
                backlog = [];
                runs = st.runs + length es + length es;
              },
            )),
        sym (ap (λ (s : Store F). s.nodes) made),
        sym (ap (λ (s : Store F). s.links) made),
        sym (ap (λ (s : Store F). s.cache) made),
        refl,
      )

  drain-down :
      (servers : Servers)
      → IsDown servers
      → (fuel drained : ℕ) (e : Entity F) (es : List (Entity F)) (st : Store F)
      → drain ops hash servers fuel drained (record st { backlog = map entity_event (e ∷ es) })
        ≡ none
  unfolding drain replay
  drain-down servers d zero drained e es st = refl
  drain-down servers d (suc fuel) drained e [] st =
      ap (drain ops hash servers fuel (drained + 1))
        (add_entity_raw-down servers d e (record st { backlog = [] }))
      ∙ drain-down servers d fuel (drained + 1) e [] (record st { runs = st.runs + 1 })
  drain-down servers d (suc fuel) drained e (x ∷ es) st =
      ap (drain ops hash servers fuel (drained + 1))
        (add_entity_raw-down servers d e (record st { backlog = map entity_event (x ∷ es) }))
      ∙ ap
          (λ b.
            drain ops hash servers fuel (drained + 1)
              (record st { backlog = entity_event x ∷ b; runs = st.runs + 1 }))
          (sym (map-append entity_event es (e ∷ [])))
      ∙ drain-down servers d fuel (drained + 1) x (es ++ e ∷ []) (record st { runs = st.runs + 1 })

  -- While each statement fails, a drain of a backlog that holds entities alone and is not empty never
  -- returns: each event that it pops is buffered again.
  pub drain_loops_while_down :
      (servers : Servers)
      → IsDown servers
      → (fuel : ℕ) (e : Entity F) (es : List (Entity F)) (st : Store F)
      → st.backlog ≡ entity_event e ∷ map entity_event es
      → drain_backlog ops hash servers fuel st ≡ none
  drain_loops_while_down servers d fuel e es st h =
      drain_backlog-connected servers d.redis d.connected fuel st
      ∙ ap (λ b. drain ops hash servers fuel 0 (record st { backlog = b })) h
      ∙ drain-down servers d fuel 0 e es st

  add_session_link-down :
      (servers : Servers)
      → IsDown servers
      → (a b s : String) (st : Store F)
      → add_session_link ops hash servers a b s st ≡ record st {
        backlog =
            st.backlog ++ link_event (("a_val", a) ∷ ("b_val", b) ∷ ("session_id", s) ∷ []) ∷ [];
        runs = st.runs + 1;
      }
  unfolding add_session_link add_session_link_raw buffer_to_backlog
  add_session_link-down servers d a b s st = rw (d.connected, d.fails st.runs, d.redis) refl

  -- A link that is added while its statement fails, with an empty backlog, is lost: the drain pops the
  -- event, finds none of the keys that it reads, and ends with 0 and the same nodes and links.
  pub buffered_link_is_lost :
      (down up : Servers)
      → IsDown down
      → IsUp up
      → (a b s : String) (fuel : ℕ) (st : Store F) → st.backlog ≡ []
      → drain_backlog ops hash up (suc fuel) (add_session_link ops hash down a b s st)
        ≡ some (0, record st { runs = st.runs + 1 })
  unfolding drain replay lookup
  buffered_link_is_lost down up d u a b s fuel st h =
      ap (drain_backlog ops hash up (suc fuel))
        (add_session_link-down down d a b s st ∙ ap (λ b. kept (b ++ lost ∷ [])) h)
      ∙ drain_backlog-connected up u.redis u.connected (suc fuel) (kept (lost ∷ []))
      ∙ ap (λ b. some (0, kept b)) (sym h)
    where
      lost : Event F
      lost = link_event (("a_val", a) ∷ ("b_val", b) ∷ ("session_id", s) ∷ [])

      kept : List (Event F) → Store F
      kept b = record st { backlog = b; runs = st.runs + 1 }
