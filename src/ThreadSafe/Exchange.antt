-- ===== src/ThreadSafe/Exchange.antt =====
-- The compare and exchange of class thread_safe_container (internal/thread_safe_container.cpp).
use container_system.Base.{
  ◌≡◌, refl, Bool-cases, inl, inr, some, Option-cases, Bytes, ◌===◌, if◌then◌else◌, ◌&&◌,
}
use container_system.Assoc.{find, find-assign_key}
use container_system.ThreadSafe.{ValueInterface, ThreadSafeContainer, compare_exchange}

-- What a key has after a compare and exchange: the desired value if the call succeeded and was about that
-- key, and otherwise what it had.
pub find-compare_exchange :
    {V : Type 0} (value : ValueInterface V) (key : Bytes) (expected desired : V)
    (c : ThreadSafeContainer V) (j : Bytes)
    → find j (compare_exchange value key expected desired c).0.values ≡ (
        if (compare_exchange value key expected desired c).1 && key === j
        then some desired
        else find j c.values)
unfolding compare_exchange
find-compare_exchange value key expected desired c j = elim (Option-cases (find key c.values)) [
  | inl e ↦ rw e refl
  | inr (v, e) ↦ elim (Bool-cases (value.equal v expected)) [
    | inl b ↦ rw (e, b) (find-assign_key key desired c.values j)
    | inr b ↦ rw (e, b) refl
  ]
]
