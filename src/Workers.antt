-- ===== src/Workers.antt =====
-- The locks of scheduled tasks: backend/app/workers/idempotency.py, over the keys of Redis that it
-- writes. Whether Redis answers is an argument of each call.
pub mod Locks
mod Examples
use trust_shield.Base.{
  ℕ, String, Option, none, some, Bool, true, false, not, ◌&&◌, List, [], ◌∷◌, ◌+◌, ◌=s=◌, ◌<>◌, ltb,
  if◌then◌else◌, select, any,
}

-- A key with its value and the instant at which it expires, if it does.
pub record Entry : Type 0 where
  pub key : String
  pub value : String
  pub expires : Option ℕ

-- The key of a task in a bucket of time, the text that `strftime` gives for the instant.
unfoldable pub compute_task_id : String → String → String
compute_task_id task_name bucket = task_name <> ":" <> bucket

-- A key lasts at an instant.
unfoldable pub lasts : ℕ → Option ℕ → Bool
lasts now none = true
lasts now (some t) = ltb now t

unfoldable pub is_held : ℕ → String → Entry → Bool
is_held now k e = (e.key =s= k) && lasts now e.expires

-- `SET key value`, with or without `EX`: the old value and its expiry are replaced.
unfoldable pub set_key : String → String → Option ℕ → List Entry → List Entry
set_key k v t es =
    record { key = k; value = v; expires = t } ∷ select (λ (e : Entry). not (e.key =s= k)) es

-- `SET NX EX`; without Redis the task runs.
unfoldable pub try_acquire : Bool → ℕ → String → ℕ → List Entry → Bool × List Entry
try_acquire false now task_id ttl es = (true, es)
try_acquire true now task_id ttl es =
    if any (is_held now task_id) es
    then (false, es)
    else (true, set_key task_id "running" (some (now + ttl)) es)

unfoldable pub mark_done : Bool → String → List Entry → List Entry
mark_done answers task_id es = if answers then set_key task_id "done" none es else es

unfoldable pub mark_failed : Bool → String → List Entry → List Entry
mark_failed answers task_id es = if answers then set_key task_id "failed" none es else es

-- A call of any worker, with the instant at which it is made.
pub data Call : Type 0 where
  acquire : Bool → ℕ → String → ℕ → Call
  finish : Bool → ℕ → String → Call
  give_up : Bool → ℕ → String → Call

abbrev pub instant : Call → ℕ
instant (acquire b now k ttl) = now
instant (finish b now k) = now
instant (give_up b now k) = now

unfoldable pub perform : Call → List Entry → List Entry
perform (acquire b now k ttl) es = (try_acquire b now k ttl es).1
perform (finish b now k) es = mark_done b k es
perform (give_up b now k) es = mark_failed b k es

unfoldable pub perform_all : List Call → List Entry → List Entry
perform_all [] es = es
perform_all (c ∷ cs) es = perform_all cs (perform c es)
