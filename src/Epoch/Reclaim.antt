-- ===== src/Epoch/Reclaim.antt =====
-- When class epoch_manager (internal/epoch_manager.h) hands a retired object to its deleter.
use container_system.Base.{
  ℕ, ◌+◌, ◌-◌, ◌%◌, ◌^◌, ◌≤◌, ◌<◌, ◌≡◌, ◌≢◌, refl, ap, ◌∙◌, true, List, [], ◌∷◌, ◌++◌, append_assoc,
  append-nil, ◌==◌, if◌then◌else◌, arith,
}
use container_system.Epoch.{
  inactive, Retired, EpochManager, enter_critical, exit_critical, in_critical_section, defer_delete,
  try_gc,
}

-- The calls that leave the epoch alone.
pub data Quiet : Type 0 where
  enter exit : ℕ → Quiet
  defer : ℕ → ℕ → Quiet

abbrev pub run_quiet : List Quiet → EpochManager → EpochManager
run_quiet [] m = m
run_quiet (enter t ∷ qs) m = run_quiet qs (enter_critical t m)
run_quiet (exit t ∷ qs) m = run_quiet qs (exit_critical t m)
run_quiet (defer p d ∷ qs) m = run_quiet qs (defer_delete p d m)

-- The entry stands in the list.
abbrev pub Contains : List Retired → Retired → Type 0
Contains xs x = (before : List Retired) × (after : List Retired) × (xs ≡ before ++ (x ∷ after))

Contains-append : (xs ys : List Retired) (x : Retired) → Contains xs x → Contains (xs ++ ys) x
Contains-append xs ys x (before, after, e) =
    (before, after ++ ys, ap (λ zs. zs ++ ys) e ∙ append_assoc before (x ∷ after) ys)

defer_delete-retired :
    (p d b : ℕ) (m : EpochManager)
    → (more : List Retired) × ((defer_delete p d m).retired b ≡ m.retired b ++ more)
unfolding defer_delete
defer_delete-retired p d b m = (
  (if p == 0
      then []
      else if m.global_epoch % 3 == b
      then record { ptr = p; deleter = d } ∷ []
      else []),
  ground (arith, append-nil (m.retired b)),
)

run_quiet-global_epoch :
    (qs : List Quiet) (m : EpochManager) → (run_quiet qs m).global_epoch ≡ m.global_epoch
unfolding enter_critical exit_critical defer_delete
run_quiet-global_epoch [] m = refl
run_quiet-global_epoch (enter t ∷ qs) m = run_quiet-global_epoch qs (enter_critical t m)
run_quiet-global_epoch (exit t ∷ qs) m = run_quiet-global_epoch qs (exit_critical t m)
run_quiet-global_epoch (defer p d ∷ qs) m =
    run_quiet-global_epoch qs (defer_delete p d m) ∙ ground arith

run_quiet-Contains :
    (qs : List Quiet) (m : EpochManager) (b : ℕ) (x : Retired)
    → Contains (m.retired b) x
    → Contains ((run_quiet qs m).retired b) x
unfolding enter_critical exit_critical
run_quiet-Contains [] m b x h = h
run_quiet-Contains (enter t ∷ qs) m b x h = run_quiet-Contains qs (enter_critical t m) b x h
run_quiet-Contains (exit t ∷ qs) m b x h = run_quiet-Contains qs (exit_critical t m) b x h
run_quiet-Contains (defer p d ∷ qs) m b x h =
    let (more, e) = defer_delete-retired p d b m in
    run_quiet-Contains qs (defer_delete p d m) b x (rw e (Contains-append (m.retired b) more x h))

try_gc-global_epoch :
    (m : EpochManager)
    → m.global_epoch + 1 < 2 ^ 64
    → (try_gc m).0.global_epoch ≡ m.global_epoch + 1
unfolding try_gc
try_gc-global_epoch m h = ground arith

-- A collection empties the bucket behind the next epoch, and no other one.
try_gc-retired :
    (m : EpochManager) (b : ℕ) → b ≢ (m.global_epoch + 1) % 3 → (try_gc m).0.retired b ≡ m.retired b
unfolding try_gc
try_gc-retired m b h = ground arith

try_gc-deleted :
    (m : EpochManager) → 2 ≤ m.global_epoch → (try_gc m).1 ≡ m.retired ((m.global_epoch + 1) % 3)
unfolding try_gc
try_gc-deleted m h =
    let e : (m.global_epoch - 2) % 3 ≡ (m.global_epoch + 1) % 3 = omega arith in
    rw (← e) (ground arith)

-- The manager before the third collection of three, with quiet calls between them.
abbrev pub before_third : List Quiet → List Quiet → List Quiet → EpochManager → EpochManager
before_third q1 q2 q3 m = run_quiet q3 (try_gc (run_quiet q2 (try_gc (run_quiet q1 m)).0)).0

module _ (q1 q2 q3 : List Quiet) (m : EpochManager) (x : Retired) where
  -- What is in the bucket of the current epoch outlives two collections and goes with the third.
  third-Contains :
      m.global_epoch + 3 < 2 ^ 64
      → Contains (m.retired (m.global_epoch % 3)) x
      → Contains ((before_third q1 q2 q3 m).retired (m.global_epoch % 3)) x
        × Contains (try_gc (before_third q1 q2 q3 m)).1 x
  third-Contains small h =
      let b : ℕ = m.global_epoch % 3 in
      let m1 = run_quiet q1 m in
      let e1 : m1.global_epoch ≡ m.global_epoch = run_quiet-global_epoch q1 m in
      let g1 = (try_gc m1).0 in
      let f1 : g1.global_epoch ≡ m1.global_epoch + 1 = try_gc-global_epoch m1 (omega arith) in
      let m2 = run_quiet q2 g1 in
      let e2 : m2.global_epoch ≡ g1.global_epoch = run_quiet-global_epoch q2 g1 in
      let g2 = (try_gc m2).0 in
      let f2 : g2.global_epoch ≡ m2.global_epoch + 1 = try_gc-global_epoch m2 (omega arith) in
      let m3 = run_quiet q3 g2 in
      let e3 : m3.global_epoch ≡ g2.global_epoch = run_quiet-global_epoch q3 g2 in
      let c1 : Contains (m1.retired b) x = run_quiet-Contains q1 m b x h in
      let d1 : Contains (g1.retired b) x = rw (try_gc-retired m1 b (omega arith)) c1 in
      let c2 : Contains (m2.retired b) x = run_quiet-Contains q2 g1 b x d1 in
      let d2 : Contains (g2.retired b) x = rw (try_gc-retired m2 b (omega arith)) c2 in
      let c3 : Contains (m3.retired b) x = run_quiet-Contains q3 g2 b x d2 in
      let last : (m3.global_epoch + 1) % 3 ≡ b = omega arith in
      (c3, rw (try_gc-deleted m3 (omega arith), last) c3)

defer_delete-Contains :
    (p d : ℕ) (m : EpochManager)
    → p ≢ 0
    → Contains ((defer_delete p d m).retired (m.global_epoch % 3)) (record { ptr = p; deleter = d })
unfolding defer_delete
defer_delete-Contains p d m h = (m.retired (m.global_epoch % 3), [], ground arith)

-- An object that is retired, its pointer not null, is still pending when two collections have run,
-- and the third one hands it to its deleter, whatever is entered, exited and retired between them.
pub defer_delete-reclaimed :
    (p d : ℕ) (q1 q2 q3 : List Quiet) (m : EpochManager)
    → p ≢ 0
    → m.global_epoch + 3 < 2 ^ 64
    → Contains
        ((before_third q1 q2 q3 (defer_delete p d m)).retired (m.global_epoch % 3))
        (record { ptr = p; deleter = d })
      × Contains
          (try_gc (before_third q1 q2 q3 (defer_delete p d m))).1
          (record { ptr = p; deleter = d })
unfolding defer_delete
defer_delete-reclaimed p d q1 q2 q3 m h small =
    let e : (defer_delete p d m).global_epoch ≡ m.global_epoch =
      run_quiet-global_epoch (defer p d ∷ []) m in
    let r =
      third-Contains q1 q2 q3 (defer_delete p d m) (record { ptr = p; deleter = d })
        (omega (arith, e)) in
    rw e at r (defer_delete-Contains p d m h)

-- The calls in which a thread does not leave its critical section.
abbrev pub Stays : ℕ → List Quiet → Type 0
Stays t [] = Unit
Stays t (enter u ∷ qs) = Stays t qs
Stays t (exit u ∷ qs) = (t ≢ u) × Stays t qs
Stays t (defer p d ∷ qs) = Stays t qs

-- The thread is in a critical section, and what it enters next is no sentinel either.
Stays-critical :
    (t : ℕ) (qs : List Quiet) (m : EpochManager)
    → Stays t qs
    → m.global_epoch < inactive
    → in_critical_section t m ≡ true
    → in_critical_section t (run_quiet qs m) ≡ true
unfolding in_critical_section enter_critical exit_critical defer_delete
Stays-critical t [] m s g h = h
Stays-critical t (enter u ∷ qs) m s g h =
    Stays-critical t qs (enter_critical u m) s g (ground arith)
Stays-critical t (exit u ∷ qs) m (n, s) g h =
    Stays-critical t qs (exit_critical u m) s g (ground arith)
Stays-critical t (defer p d ∷ qs) m s g h =
    Stays-critical t qs (defer_delete p d m) s (ground arith) (ground arith)

try_gc-critical :
    (t : ℕ) (m : EpochManager)
    → in_critical_section t m ≡ true
    → in_critical_section t (try_gc m).0 ≡ true
unfolding in_critical_section try_gc
try_gc-critical t m h = ground arith

enter_critical-critical :
    (t : ℕ) (m : EpochManager)
    → m.global_epoch < inactive
    → in_critical_section t (enter_critical t m) ≡ true
unfolding in_critical_section enter_critical
enter_critical-critical t m h = ground arith

-- A thread that entered its critical section before an object was retired, and that has not left it,
-- does not keep the third collection from handing the object to its deleter.
pub reclaimed-in_critical_section :
    (t p d : ℕ) (q1 q2 q3 : List Quiet) (m : EpochManager)
    → p ≢ 0
    → m.global_epoch + 3 < 2 ^ 64
    → Stays t q1
    → Stays t q2
    → Stays t q3
    → (in_critical_section t (before_third q1 q2 q3 (defer_delete p d (enter_critical t m))) ≡ true)
      × Contains
          (try_gc (before_third q1 q2 q3 (defer_delete p d (enter_critical t m)))).1
          (record { ptr = p; deleter = d })
reclaimed-in_critical_section t p d q1 q2 q3 m h small s1 s2 s3 =
    let m0 = enter_critical t m in
    let e0 : m0.global_epoch ≡ m.global_epoch = run_quiet-global_epoch (enter t ∷ []) m in
    let q0 : List Quiet = defer p d ∷ q1 in
    let m1 = run_quiet q0 m0 in
    let e1 : m1.global_epoch ≡ m0.global_epoch = run_quiet-global_epoch q0 m0 in
    let c1 = Stays-critical t q0 m0 s1 (omega arith) (enter_critical-critical t m (omega arith)) in
    let g1 = (try_gc m1).0 in
    let f1 : g1.global_epoch ≡ m1.global_epoch + 1 = try_gc-global_epoch m1 (omega arith) in
    let m2 = run_quiet q2 g1 in
    let e2 : m2.global_epoch ≡ g1.global_epoch = run_quiet-global_epoch q2 g1 in
    let c2 = Stays-critical t q2 g1 s2 (omega arith) (try_gc-critical t m1 c1) in
    let g2 = (try_gc m2).0 in
    let f2 : g2.global_epoch ≡ m2.global_epoch + 1 = try_gc-global_epoch m2 (omega arith) in
    let c3 = Stays-critical t q3 g2 s3 (omega arith) (try_gc-critical t m2 c2) in
    (c3, (defer_delete-reclaimed p d q1 q2 q3 m0 h (omega arith)).1)
