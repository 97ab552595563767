-- ===== src/InternalValue/Examples.antt =====
-- A run of the binary form of a value (internal/value.cpp) on an array with a null element.
use container_system.Base.{◌≤◌, ◌≡◌, refl, true, some, Bytes, [], ◌∷◌, ◌++◌, codes, arith}
use container_system.Base.Int.{negsuc}
use container_system.InternalValue.{
  bool, llong, container, array, no_elements, null_element, element, InternalValue, internal_value,
  ContainerCodec, serialize, present, deserialize,
}
use container_system.InternalValue.Normal.{Storable, normal, levels}
use container_system.InternalValue.RoundTrip.{deserialize-serialize}

-- Containers that are their bytes.
abbrev raw : ContainerCodec Bytes
raw = record { write = λ c. c; read = λ s. some s }

abbrev nested : InternalValue Bytes
nested = internal_value (codes "in") (array (element (internal_value [] (bool true)) no_elements))

abbrev sample : InternalValue Bytes
sample = internal_value (codes "xs") (
    array (
      element (internal_value (codes "n") (llong (negsuc 4))) (
        null_element (
          element nested
            (element (internal_value (codes "c") (container (some (7 ∷ 8 ∷ [])))) no_elements)))))

nested-Storable : Storable raw nested
unfolding Storable
nested-Storable = (omega arith, (omega arith, ((omega arith, tt), tt)))

sample-Storable : Storable raw sample
unfolding Storable
sample-Storable = (
  omega arith,
  (
    omega arith,
    (
      (omega arith, omega arith),
      (nested-Storable, ((omega arith, (omega arith, omega arith, refl)), tt)),
    ),
  ),
)

sample-levels : levels sample ≤ 2
unfolding levels
sample-levels = omega arith

deserialize-serialize_example :
    deserialize raw 3 (serialize raw sample ++ (9 ∷ [])) ≡ present (normal sample)
deserialize-serialize_example =
    deserialize-serialize raw 2 sample (9 ∷ []) sample-Storable sample-levels
