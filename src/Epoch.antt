-- ===== src/Epoch.antt =====
-- class epoch_manager (internal/epoch_manager.h). Each call is one step; a pointer is its address, 0 is
-- `nullptr`, and a deleter is a number that names it. A call that collects returns the pointers that it has
-- handed to their deleters, in order.
pub mod Reclaim
pub mod Accounts
mod Examples
use container_system.Base.{
  ℕ, zero, suc, ◌+◌, ◌-◌, ◌%◌, ◌^◌, Bool, true, false, not, List, [], ◌∷◌, ◌++◌, length, ltb, ◌==◌,
  if◌then◌else◌,
}

-- INACTIVE, the epoch of a thread outside a critical section
abbrev pub inactive : ℕ
inactive = 18446744073709551615

abbrev pub num_epochs : ℕ
num_epochs = 3

-- An entry of a retire list.
pub record Retired : Type 0 where
  pub ptr : ℕ
  pub deleter : ℕ

-- The fields, and `thread_epoch` of every thread.
pub record EpochManager : Type 0 where
  pub global_epoch : ℕ
  pub gc_count : ℕ
  pub reclaimed_count : ℕ
  pub retired : ℕ → List Retired
  pub thread_epoch : ℕ → ℕ

abbrev pub set_at {ℓ} : {A : Type ℓ} → (ℕ → A) → ℕ → A → ℕ → A
set_at f i a j = if i == j then a else f j

unfoldable pub new_manager : EpochManager
new_manager = record {
  global_epoch = 0;
  gc_count = 0;
  reclaimed_count = 0;
  retired = λ _. [];
  thread_epoch = λ _. inactive;
}

unfoldable pub enter_critical : ℕ → EpochManager → EpochManager
enter_critical thread m = record m { thread_epoch = set_at m.thread_epoch thread m.global_epoch }

unfoldable pub exit_critical : ℕ → EpochManager → EpochManager
exit_critical thread m = record m { thread_epoch = set_at m.thread_epoch thread inactive }

unfoldable pub in_critical_section : ℕ → EpochManager → Bool
in_critical_section thread m = not (m.thread_epoch thread == inactive)

unfoldable pub defer_delete : ℕ → ℕ → EpochManager → EpochManager
defer_delete ptr deleter m =
    let bucket = m.global_epoch % num_epochs in
    let entry : Retired = record { ptr = ptr; deleter = deleter } in
    if ptr == 0
    then m
    else record m { retired = set_at m.retired bucket (m.retired bucket ++ (entry ∷ [])) }

-- The epoch has been advanced from `current`; what follows is behind the guard.
abbrev pub collect : ℕ → EpochManager → EpochManager × List Retired
collect current m =
    let bucket = (current - 2) % num_epochs in
    let to_delete = m.retired bucket in
    (
      record m {
        retired = set_at m.retired bucket [];
        gc_count = (m.gc_count + 1) % 2 ^ 64;
        reclaimed_count = (m.reclaimed_count + length to_delete) % 2 ^ 64;
      },
      to_delete,
    )

unfoldable pub try_gc : EpochManager → EpochManager × List Retired
try_gc m =
    let advanced : EpochManager = record m { global_epoch = (m.global_epoch + 1) % 2 ^ 64 } in
    if ltb m.global_epoch 2 then (advanced, []) else collect m.global_epoch advanced

-- The loop over the buckets from `i` on, `n` of them: what it has collected is appended to `deleted`.
unfoldable pub collect_all : ℕ → ℕ → EpochManager → List Retired → EpochManager × List Retired
collect_all zero i m deleted = (m, deleted)
collect_all (suc n) i m deleted =
    collect_all n (suc i) (record m { retired = set_at m.retired i [] }) (deleted ++ m.retired i)

abbrev count_collected : EpochManager × List Retired → EpochManager × List Retired
count_collected (m, deleted) = (
  if ltb 0 (length deleted)
      then record m {
        gc_count = (m.gc_count + 1) % 2 ^ 64;
        reclaimed_count = (m.reclaimed_count + length deleted) % 2 ^ 64;
      }
      else m,
  deleted,
)

unfoldable pub force_gc : EpochManager → EpochManager × List Retired
unfolding collect_all
force_gc m = count_collected (collect_all num_epochs 0 m [])

unfoldable pub pending_count : EpochManager → ℕ
pending_count m = length (m.retired 0) + length (m.retired 1) + length (m.retired 2)
