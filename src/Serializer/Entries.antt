-- ===== src/Serializer/Entries.antt =====
-- The header and the values: value_container::from_msgpack_impl (core/container.cpp) on the bytes
-- of core/serializers/msgpack_serializer.cpp.
use container_system.Base.{
  ℕ, ◌<◌, ◌^◌, ◌≡◌, refl, sym, ◌∙◌, Bool, true, false, List, [], ◌∷◌, ◌++◌, Bytes, length, codes,
  ◌===◌, if◌then◌else◌, arith,
}
use mathlib.Core.Path.{subst}
use container_system.Value.{Header, Status, optimized_value, Units, no_units, unit, value_container}
use container_system.Container.{data_container}
use container_system.Container.Join.{join, join-no_units, join-append_unit}
use container_system.Container.Storage.{append_unit}
use container_system.Msgpack.Payloads.{read_string, read_map_header}
use container_system.Msgpack.Encodings.{string_bytes, map_header_bytes}
use container_system.Msgpack.RoundTrip.Payloads.{read_string-bytes, read_map_header-bytes}
use container_system.Serializer.Write.{count_units}
use container_system.Serializer.Read.{
  Outcome, read_value, set_header_field, header_entries, value_entries, outer_entry,
}
use container_system.Serializer.Runs.{
  Runs, Runs-done, Runs-or_fail, Runs-value, pairs_bytes, set_fields, ShortPairs,
  header_entries-pairs,
}
use container_system.Serializer.Wire.{data_bytes, IsFlat, units_bytes, header_pairs}
use container_system.Serializer.Scalars.{
  read_units, read_type, read_data, announced, peek-data_bytes, read_value-data_bytes,
}

-- Units appended one by one.
push_all : Units → Units → Units
push_all acc no_units = acc
push_all acc (unit (optimized_value name type d) us) =
    push_all (append_unit acc (optimized_value name (read_type d) (read_data d))) us

push_all-read_units : (acc us : Units) → push_all acc us ≡ join acc (read_units us)
unfolding push_all
push_all-read_units acc no_units = sym (join-no_units acc)
push_all-read_units acc (unit (optimized_value name type d) us) =
    push_all-read_units (append_unit acc (optimized_value name (read_type d) (read_data d))) us
    ∙ join-append_unit acc (optimized_value name (read_type d) (read_data d)) (read_units us)

module _ (widen : ℕ → ℕ) (nested : Bytes → Outcome) where
  value_entries-units_bytes :
      (us acc : Units) (h : Header) (s : Status)
      → IsFlat us
      → Runs
          (value_entries widen nested (count_units us) (value_container h s acc))
          (value_container h s (push_all acc us))
          (units_bytes us)
  unfolding value_entries push_all
  value_entries-units_bytes no_units acc h s f = Runs-done (value_container h s acc)
  value_entries-units_bytes (unit (optimized_value name type d) us) acc h s (hn, (t, (hd, f))) =
      let c = value_container h s acc in
      let acc' = append_unit acc (optimized_value name (read_type d) (read_data d)) in
      Runs-or_fail read_string name c _ _ (string_bytes name) _ (read_string-bytes name hn) (
        Runs-value name c _ (read_value widen nested) (value_entries widen nested (count_units us))
          (announced d) (read_type d) (read_data d) (data_bytes d) (units_bytes us)
          (value_container h s acc') (λ _. refl) (peek-data_bytes d hd)
          (read_value-data_bytes widen nested d hd) (value_entries-units_bytes us acc' h s f))

-- The six strings are below 4 GiB.
abbrev pub IsShort : Header → Type 0
IsShort h =
    (length h.source_id < 2 ^ 32)
    × (length h.source_sub_id < 2 ^ 32)
    × (length h.target_id < 2 ^ 32)
    × (length h.target_sub_id < 2 ^ 32)
    × (length h.message_type < 2 ^ 32)
    × (length h.version < 2 ^ 32)

abbrev pub empty_header : Header
empty_header = record {
  source_id = [];
  source_sub_id = [];
  target_id = [];
  target_sub_id = [];
  message_type = codes "data_container";
  version = codes "1.0";
}

-- The header that is read: the ids of a plain container are not written.
abbrev pub read_header : Header → Header
read_header h =
    if h.message_type === codes "data_container"
    then record empty_header { message_type = h.message_type; version = h.version }
    else h

abbrev pairs_if : Bool → Header → List (Bytes × Bytes)
pairs_if b h =
    if b
    then (codes "message_type", h.message_type) ∷ (codes "version", h.version) ∷ []
    else (codes "target_id", h.target_id)
      ∷ (codes "target_sub_id", h.target_sub_id)
      ∷ (codes "source_id", h.source_id)
      ∷ (codes "source_sub_id", h.source_sub_id)
      ∷ (codes "message_type", h.message_type)
      ∷ (codes "version", h.version)
      ∷ []

pairs_if-lem :
    (b : Bool) (h : Header) (s : Status) (us : Units)
    → IsShort h
    → ShortPairs (pairs_if b h)
      × (length (pairs_if b h) < 2 ^ 32)
      × (set_fields (pairs_if b h) (value_container empty_header s us)
          ≡ value_container
              (if b
                then record empty_header { message_type = h.message_type; version = h.version }
                else h)
              s
              us)
unfolding set_header_field ◌===◌
pairs_if-lem true h s us (s1, s2, t1, t2, m, v) =
    ((omega arith, (m, (omega arith, (v, tt)))), omega arith, refl)
pairs_if-lem false h s us (s1, s2, t1, t2, m, v) = (
  (
    omega arith,
    (
      t1,
      (
        omega arith,
        (t2, (omega arith, (s1, (omega arith, (s2, (omega arith, (m, (omega arith, (v, tt))))))))),
      ),
    ),
  ),
  omega arith,
  refl,
)

module _ (widen : ℕ → ℕ) (nested : Bytes → Outcome) (h : Header) (us : Units) (s : Status) where
  pub outer_entry-header :
      IsShort h
      → Runs
          (outer_entry widen nested (codes "header") (value_container empty_header s no_units))
          (value_container (read_header h) s no_units)
          (map_header_bytes (length (header_pairs h)) ++ pairs_bytes (header_pairs h))
  unfolding outer_entry ◌===◌
  outer_entry-header strings =
      let c = value_container empty_header s no_units in
      let (pairs, few, fields) =
        pairs_if-lem (h.message_type === data_container) h s no_units strings in
      subst
        (λ c'.
          Runs (outer_entry widen nested (codes "header") c) c'
            (map_header_bytes (length (header_pairs h)) ++ pairs_bytes (header_pairs h)))
        fields
        (Runs-or_fail read_map_header (length (header_pairs h)) c _ (λ n d. header_entries n c d) _
          _ (read_map_header-bytes (length (header_pairs h)) few)
          (header_entries-pairs (header_pairs h) c pairs))

  pub outer_entry-values :
      (c : Header)
      → IsFlat us
      → count_units us < 2 ^ 32
      → Runs
          (outer_entry widen nested (codes "values") (value_container c s no_units))
          (value_container c s (read_units us))
          (map_header_bytes (count_units us) ++ units_bytes us)
  unfolding outer_entry ◌===◌ join
  outer_entry-values c f few =
      subst
        (λ vs.
          Runs (outer_entry widen nested (codes "values") (value_container c s no_units))
            (value_container c s vs) (map_header_bytes (count_units us) ++ units_bytes us))
        (push_all-read_units no_units us)
        (Runs-or_fail read_map_header (count_units us) (value_container c s no_units) _
          (λ n d. value_entries widen nested n (value_container c s no_units) d) _ _
          (read_map_header-bytes (count_units us) few)
          (value_entries-units_bytes widen nested us no_units c s f))
