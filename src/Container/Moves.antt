-- ===== src/Container/Moves.antt =====
-- Moving a container (core/container.cpp).
use container_system.Base.{◌≡◌, refl, true, false, Bytes}
use container_system.Value.{Header, Units, ValueContainer, value_container}
use container_system.Container.Storage.{has_unit}
use container_system.Container.{header_of, contains, move_construct, move_assign}

module _ (header_left : Header) (text_left : Bytes) (units_left : Units) where
  -- A container made by move construction has the header of the other one and none of its keys,
  -- which stay in the other one; one that is assigned to by a move has the header and the keys.
  pub move_construct-contains :
      (c other : ValueContainer) (key : Bytes)
      → contains key other ≡ true
      → (contains key (move_construct header_left text_left other).0 ≡ false)
        × (contains key (move_construct header_left text_left other).1 ≡ true)
        × (header_of (move_construct header_left text_left other).0 ≡ header_of other)
        × (contains key (move_assign header_left text_left units_left c other).0 ≡ true)
        × (header_of (move_assign header_left text_left units_left c other).0 ≡ header_of other)
  unfolding contains move_construct move_assign has_unit
  move_construct-contains (value_container h s us) (value_container h' s' us') key p =
      (refl, p, refl, p, refl)
