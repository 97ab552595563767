-- ===== src/Epoch/Examples.antt =====
-- Runs of class epoch_manager (internal/epoch_manager.h).
use container_system.Base.{◌+◌, ◌%◌, ◌≡◌, true, List, [], ◌∷◌, arith}
use container_system.Epoch.{
  Retired, new_manager, enter_critical, in_critical_section, defer_delete, try_gc,
}
use container_system.Epoch.Reclaim.{
  enter, exit, Contains, before_third, defer_delete-reclaimed, reclaimed-in_critical_section,
}
use container_system.Epoch.Accounts
use container_system.Epoch.Accounts.{
  Call, run_calls, pending, retirements, count, run_calls-pending,
}

abbrev entry : Retired
entry = record { ptr = 4096; deleter = 1 }

defer_delete-reclaimed_example :
    Contains
      ((before_third (enter 1 ∷ []) (exit 1 ∷ []) [] (defer_delete 4096 1 new_manager)).retired
        (new_manager.global_epoch % 3))
      entry
    × Contains
        (try_gc (before_third (enter 1 ∷ []) (exit 1 ∷ []) [] (defer_delete 4096 1 new_manager))).1
        entry
unfolding new_manager
defer_delete-reclaimed_example =
    defer_delete-reclaimed 4096 1 (enter 1 ∷ []) (exit 1 ∷ []) [] new_manager (omega arith)
      (omega arith)

reclaimed-in_critical_section_example :
    (in_critical_section 7 (
        before_third []
          (enter 2 ∷ [])
          (exit 2 ∷ [])
          (defer_delete 4096 1 (enter_critical 7 new_manager)))
      ≡ true)
    × Contains
        (try_gc (
          before_third []
            (enter 2 ∷ [])
            (exit 2 ∷ [])
            (defer_delete 4096 1 (enter_critical 7 new_manager)))).1
        entry
unfolding new_manager
reclaimed-in_critical_section_example =
    reclaimed-in_critical_section 7 4096 1 [] (enter 2 ∷ []) (exit 2 ∷ []) new_manager (omega arith)
      (omega arith) tt tt (omega arith, tt)

abbrev calls : List Call
calls = Accounts.defer 4096 1 ∷ Accounts.gc ∷ Accounts.defer 0 1 ∷ Accounts.force ∷ []

run_calls-pending_example :
    pending (λ _. true) (run_calls calls new_manager).0
      + count (λ _. true) (run_calls calls new_manager).1
    ≡ pending (λ _. true) new_manager + retirements (λ _. true) calls
run_calls-pending_example = run_calls-pending (λ _. true) calls new_manager
