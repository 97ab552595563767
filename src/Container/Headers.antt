-- ===== src/Container/Headers.antt =====
-- The header setters and the two ways to clear a container (core/container.cpp).
use container_system.Base.{◌≡◌, refl, false, Bytes}
use container_system.Value.{ValueContainer, value_container}
use container_system.Container.{
  header_of, set_source, set_target, swap_header, clear_value, initialize, get, contains,
}
use container_system.Container.Storage.{has_unit}

-- Swapping twice changes nothing; a swap exchanges what `set_source` and `set_target` set and keeps
-- the values.
pub swap_header-set_source :
    (id sub_id id' sub_id' key : Bytes) (c : ValueContainer)
    → (swap_header (swap_header c) ≡ c)
      × (swap_header (set_source id sub_id (set_target id' sub_id' c))
          ≡ set_source id' sub_id' (set_target id sub_id (swap_header c)))
      × (get key (swap_header c) ≡ get key c)
unfolding swap_header set_source set_target get
swap_header-set_source id sub_id id' sub_id' key (value_container h s us) = (refl, refl, refl)

-- Neither `clear_value` nor `initialize` leaves a key. The first keeps the header, and the second
-- gives every container the same.
pub contains-clear_value :
    (key : Bytes) (c c' : ValueContainer)
    → (contains key (clear_value c) ≡ false)
      × (contains key (initialize c) ≡ false)
      × (header_of (clear_value c) ≡ header_of c)
      × (header_of (initialize c) ≡ header_of (initialize c'))
unfolding clear_value initialize contains has_unit
contains-clear_value key (value_container h s us) (value_container h' s' us') =
    (refl, refl, refl, refl)
