-- ===== src/Workers/Examples.antt =====
-- The theorem on locks, at a task that is done before its lock expires.
use trust_shield.Base.{true, false, List, [], ◌∷◌, ◌≡◌, refl, arith}
use trust_shield.Workers.{Entry, finish, try_acquire, perform_all}
use trust_shield.Workers.Locks.{acquired_once}

abbrev locked : List Entry
locked = (try_acquire true 0 "rings" 7200 []).1

acquired_once_example :
    (try_acquire true 60 "rings" 7200 (perform_all (finish true 30 "rings" ∷ []) locked)).0 ≡ false
unfolding try_acquire
acquired_once_example =
    acquired_once 0 7200 "rings" [] locked (finish true 30 "rings" ∷ []) 60 7200 refl
      (omega arith, tt) (omega arith)
