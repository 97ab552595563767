-- ===== src/Container/Join.antt =====
-- Values behind values, as the vector of core/container.cpp grows by `push_back`.
use container_system.Base.{◌≡◌, refl, ap}
use container_system.Value.{OptimizedValue, Units, no_units, unit}
use container_system.Container.Storage.{append_unit}

unfoldable pub join : Units → Units → Units
join no_units vs = vs
join (unit v us) vs = unit v (join us vs)

pub join-no_units : (us : Units) → join us no_units ≡ us
unfolding join
join-no_units no_units = refl
join-no_units (unit v us) = ap (unit v) (join-no_units us)

pub join-append_unit :
    (us : Units) (v : OptimizedValue) (vs : Units)
    → join (append_unit us v) vs ≡ join us (unit v vs)
unfolding join append_unit
join-append_unit no_units v vs = refl
join-append_unit (unit x us) v vs = ap (unit x) (join-append_unit us v vs)
