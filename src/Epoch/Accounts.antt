-- ===== src/Epoch/Accounts.antt =====
-- What class epoch_manager (internal/epoch_manager.h) holds and has handed to deleters after any calls.
use container_system.Base.{ℕ, ◌+◌, ◌≡◌, Bool, List, [], ◌∷◌, ◌++◌, ◌==◌, if◌then◌else◌, arith}
use container_system.Epoch.{
  Retired, EpochManager, enter_critical, exit_critical, defer_delete, try_gc, force_gc, collect_all,
}

-- The calls of the class.
pub data Call : Type 0 where
  enter exit : ℕ → Call
  defer : ℕ → ℕ → Call
  gc force : Call

-- The manager after the calls, and the entries handed to deleters, in order.
abbrev pub run_calls : List Call → EpochManager → EpochManager × List Retired
run_calls [] m = (m, [])
run_calls (enter t ∷ cs) m = run_calls cs (enter_critical t m)
run_calls (exit t ∷ cs) m = run_calls cs (exit_critical t m)
run_calls (defer p d ∷ cs) m = run_calls cs (defer_delete p d m)
run_calls (gc ∷ cs) m =
    let now = try_gc m in let later = run_calls cs now.0 in (later.0, now.1 ++ later.1)
run_calls (force ∷ cs) m =
    let now = force_gc m in let later = run_calls cs now.0 in (later.0, now.1 ++ later.1)

module _ (sel : Retired → Bool) where
  -- The entries of a list that a test selects.
  abbrev pub count : List Retired → ℕ
  count [] = 0
  count (x ∷ xs) = (if sel x then 1 else 0) + count xs

  abbrev pub pending : EpochManager → ℕ
  pending m = count (m.retired 0) + count (m.retired 1) + count (m.retired 2)

  -- The selected entries that the calls retire.
  abbrev pub retirements : List Call → ℕ
  retirements [] = 0
  retirements (defer p d ∷ cs) =
      (if p == 0 then 0 else if sel (record { ptr = p; deleter = d }) then 1 else 0)
      + retirements cs
  retirements (enter t ∷ cs) = retirements cs
  retirements (exit t ∷ cs) = retirements cs
  retirements (gc ∷ cs) = retirements cs
  retirements (force ∷ cs) = retirements cs

  count-append : (xs ys : List Retired) → count (xs ++ ys) ≡ count xs + count ys
  count-append [] ys = omega arith
  count-append (x ∷ xs) ys = omega (arith, count-append xs ys)

  pending-defer_delete :
      (p d : ℕ) (m : EpochManager)
      → pending (defer_delete p d m)
        ≡ pending m + (if p == 0 then 0 else if sel (record { ptr = p; deleter = d }) then 1 else 0)
  unfolding defer_delete
  pending-defer_delete p d m =
      let entry : Retired = record { ptr = p; deleter = d } in
      ground (
        arith,
        count-append (m.retired 0) (entry ∷ []),
        count-append (m.retired 1) (entry ∷ []),
        count-append (m.retired 2) (entry ∷ []),
      )

  pending-try_gc : (m : EpochManager) → pending (try_gc m).0 + count (try_gc m).1 ≡ pending m
  unfolding try_gc
  pending-try_gc m = ground arith

  pending-force_gc : (m : EpochManager) → pending (force_gc m).0 + count (force_gc m).1 ≡ pending m
  unfolding force_gc collect_all
  pending-force_gc m = ground (
    arith,
    count-append (m.retired 0 ++ m.retired 1) (m.retired 2),
    count-append (m.retired 0) (m.retired 1),
  )

  -- Nothing is lost and nothing is handed over twice: of the entries that any test selects, those
  -- pending at first and those retired are as many as those pending at the end and those handed to
  -- their deleters.
  pub run_calls-pending :
      (cs : List Call) (m : EpochManager)
      → pending (run_calls cs m).0 + count (run_calls cs m).1 ≡ pending m + retirements cs
  unfolding enter_critical exit_critical
  run_calls-pending [] m = omega arith
  run_calls-pending (enter t ∷ cs) m = run_calls-pending cs (enter_critical t m)
  run_calls-pending (exit t ∷ cs) m = run_calls-pending cs (exit_critical t m)
  run_calls-pending (defer p d ∷ cs) m =
      omega (arith, run_calls-pending cs (defer_delete p d m), pending-defer_delete p d m)
  run_calls-pending (gc ∷ cs) m = omega (
    arith,
    run_calls-pending cs (try_gc m).0,
    pending-try_gc m,
    count-append (try_gc m).1 (run_calls cs (try_gc m).0).1,
  )
  run_calls-pending (force ∷ cs) m = omega (
    arith,
    run_calls-pending cs (force_gc m).0,
    pending-force_gc m,
    count-append (force_gc m).1 (run_calls cs (force_gc m).0).1,
  )
