-- ===== src/ValueStore/RoundTrip.antt =====
-- The binary form of class value_store (core/value_store.cpp), written and read.
use container_system.Base.{
  ℕ, suc, ◌+◌, ◌%◌, ◌^◌, ◌<◌, ◌≡◌, refl, sym, ◌∙◌, Bool-cases, inl, inr, Option, none, some, List,
  [], ◌∷◌, ◌++◌, Bytes, length, length-append, drop, take-append, drop-append, All, ltb-false,
  ◌===◌, ===_iff, arith,
}
use container_system.Assoc.{find, assign_key, find-assign_key}
use container_system.ValueStore.{
  Codec, ValueStore, found, loaded, bytes_of_uint32, uint32_of, get, entry_bytes, serialize_binary,
  read_entry, read_entries, deserialize_binary,
}

-- A number below 2 ^ 32 is read back from the front of what it was written to.
uint32_of-bytes_of_uint32 :
    (n : ℕ) (rest : Bytes) → n < 2 ^ 32 → uint32_of (bytes_of_uint32 n ++ rest) ≡ n
unfolding uint32_of bytes_of_uint32
uint32_of-bytes_of_uint32 n rest h = omega arith

drop-bytes_of_uint32 : (n : ℕ) (rest : Bytes) → drop 4 (bytes_of_uint32 n ++ rest) ≡ rest
unfolding bytes_of_uint32
drop-bytes_of_uint32 n rest = refl

length-bytes_of_uint32 :
    (n : ℕ) (rest : Bytes) → length (bytes_of_uint32 n ++ rest) ≡ 4 + length rest
unfolding bytes_of_uint32
length-bytes_of_uint32 n rest = omega arith

module _ {V : Type 0} (value : Codec V) where
  -- The sizes of an entry are those of a uint32_t, and its value is read back.
  abbrev pub Storable : Bytes × V → Type 0
  Storable (key, val) =
      (length key < 2 ^ 32)
      × (length (value.serialize val) < 2 ^ 32)
      × (value.deserialize (value.serialize val) ≡ some val)

  -- No key stands twice, as in any std::unordered_map.
  abbrev pub DistinctKeys : List (Bytes × V) → Type 0
  DistinctKeys [] = Unit
  DistinctKeys ((key, val) ∷ entries) = (find key entries ≡ none) × DistinctKeys entries

  abbrev assign_all : List (Bytes × V) → List (Bytes × V) → List (Bytes × V)
  assign_all [] values = values
  assign_all ((key, val) ∷ entries) values = assign_all entries (assign_key key val values)

  read_entry-entry :
      (i : ℕ) (key : Bytes) (val : V) (rest : Bytes) (values : List (Bytes × V))
      → Storable (key, val)
      → read_entry value i
          (bytes_of_uint32 (length key % 2 ^ 32)
            ++ (key
                ++ (bytes_of_uint32 (length (value.serialize val) % 2 ^ 32)
                    ++ (value.serialize val ++ rest))))
          values
        ≡ loaded (rest, assign_key key val values)
  unfolding read_entry
  read_entry-entry i key val rest values (h, k, e) =
      let value_data = value.serialize val in
      let m1 : length key % 2 ^ 32 ≡ length key = omega (arith, h) in
      let m2 : length value_data % 2 ^ 32 ≡ length value_data = omega (arith, k) in
      let tail = bytes_of_uint32 (length value_data) ++ (value_data ++ rest) in
      let l2 = length-bytes_of_uint32 (length value_data) (value_data ++ rest) in
      let g1 =
        ltb-false (length (bytes_of_uint32 (length key) ++ (key ++ tail))) 4
          (omega (arith, length-bytes_of_uint32 (length key) (key ++ tail))) in
      let g2 =
        ltb-false (length (key ++ tail)) (length key + 4)
          (omega (arith, length-append key tail, l2)) in
      let g3 =
        ltb-false (length (value_data ++ rest)) (length value_data)
          (omega (arith, length-append value_data rest)) in
      rw
        (
          m1,
          m2,
          g1,
          uint32_of-bytes_of_uint32 (length key) (key ++ tail) h,
          drop-bytes_of_uint32 (length key) (key ++ tail),
          g2,
          take-append key tail,
          drop-append key tail,
          uint32_of-bytes_of_uint32 (length value_data) (value_data ++ rest) k,
          drop-bytes_of_uint32 (length value_data) (value_data ++ rest),
          g3,
          take-append value_data rest,
          drop-append value_data rest,
          e,
        )
        refl

  read_entries-entry_bytes :
      (entries : List (Bytes × V)) (i : ℕ) (values : List (Bytes × V))
      → All Storable entries
      → read_entries value (length entries) i (entry_bytes value entries) values
        ≡ loaded (assign_all entries values)
  unfolding read_entries entry_bytes
  read_entries-entry_bytes [] i values h = refl
  read_entries-entry_bytes ((key, val) ∷ entries) i values (h, hs) =
      rw (read_entry-entry i key val (entry_bytes value entries) values h)
        (read_entries-entry_bytes entries (suc i) (assign_key key val values) hs)

  abbrev or_else : Option V → Option V → Option V
  or_else none o = o
  or_else (some v) o = some v

  find-assign_all :
      (entries values : List (Bytes × V)) (j : Bytes)
      → DistinctKeys entries
      → find j (assign_all entries values) ≡ or_else (find j entries) (find j values)
  unfolding find
  find-assign_all [] values j d = refl
  find-assign_all ((key, val) ∷ entries) values j (n, d) =
      find-assign_all entries (assign_key key val values) j d
      ∙ (rw (find-assign_key key val values j) (elim (Bool-cases (key === j)) [
        | inl b ↦ rw (b, let e = (===_iff key j).0 b in rw e at n) refl
        | inr b ↦ rw b refl
      ]))

  found-value : (s : ValueStore V) (o : Option V) → (found s o).1 ≡ o
  found-value s none = refl
  found-value s (some v) = refl

  or_else-none : (o : Option V) → or_else o none ≡ o
  or_else-none none = refl
  or_else-none (some v) = refl

  get-assign_all :
      (s : ValueStore V) (key : Bytes)
      → DistinctKeys s.values
      → (get key (record { values = assign_all s.values []; read_count = 0; write_count = 0 })).1
        ≡ (get key s).1
  unfolding get find
  get-assign_all s key d =
      found-value _ (find key (assign_all s.values []))
      ∙ (find-assign_all s.values [] key d
          ∙ (or_else-none (find key s.values) ∙ sym (found-value s (find key s.values))))

  -- Reading what a store wrote gives a store in which every key has the value that it has there, when there
  -- are fewer than 2 ^ 32 entries, keys and values of that many bytes, and every value is itself read back.
  pub deserialize_binary-serialize_binary :
      (s : ValueStore V)
      → DistinctKeys s.values
      → length s.values < 2 ^ 32
      → All Storable s.values
      → (t : ValueStore V) × (deserialize_binary value (serialize_binary value s).1 ≡ loaded t)
        × ((key : Bytes) → (get key t).1 ≡ (get key s).1)
  unfolding deserialize_binary serialize_binary get
  deserialize_binary-serialize_binary s d l h =
      let entries = entry_bytes value s.values in
      let m : length s.values % 2 ^ 32 ≡ length s.values = omega (arith, l) in
      let g =
        ltb-false (length (bytes_of_uint32 (length s.values) ++ entries)) 4
          (omega (arith, length-bytes_of_uint32 (length s.values) entries)) in
      (
        record { values = assign_all s.values []; read_count = 0; write_count = 0 },
        rw
            (
              m,
              g,
              uint32_of-bytes_of_uint32 (length s.values) entries l,
              drop-bytes_of_uint32 (length s.values) entries,
              read_entries-entry_bytes s.values 0 [] h,
            )
            refl,
        λ key. get-assign_all s key d,
      )
