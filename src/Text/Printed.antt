-- ===== src/Text/Printed.antt =====
-- The lines that core/serializers/binary_serializer.cpp writes for a header and for values, and what
-- the reader makes of each of them.
use container_system.Base.{
  ◌≡◌, refl, ap, ◌∙◌, true, some, List, [], ◌∷◌, ◌++◌, Bytes, codes, ◌===◌, if◌then◌else◌,
  append_assoc, inl, inr, Bool-cases,
}
use container_system.Value.{
  ValueTypes, null_value, bool_value, short_value, ushort_value, int_value, uint_value, long_value,
  ulong_value, llong_value, ullong_value, float_value, double_value, string_value, bytes_value,
  container_value, array_value, Header, Status, ValueVariant, optimized_value, Units, no_units,
  unit, value_container, index, find_key, get_string_from_type,
}
use container_system.Value.Types.{get_type_from_string-get_string_from_type}
use container_system.Container.{data_container}
use container_system.Container.Join.{join, join-no_units, join-append_unit}
use container_system.Container.Storage.{append_unit}
use container_system.Text.{is_word}
use container_system.Text.Lines.{IsPlain, IsWord}
use container_system.Text.Written.{
  end_text, pairs_text, items_text, PlainPairs, PlainItems, items_of, data_text,
}
use container_system.Text.Searches.{NoAt, NoAtPairs, whole_text}
use container_system.Text.Write.{FloatText, lines, datas, header_text, serialize_to_string}
use container_system.Text.Read.{returned, parsing, parse_pair, parse_pairs, push_items}
use container_system.Text.Nested.{refuse}
use container_system.Text.Spaces.{without_spaces, trim-without_spaces}
use container_system.Text.Values.{IsTextData, read_back, ReadsBack, to_string-ReadsBack}

-- Values with a name of letters, digits and underscores, the type of their data, and data of a kind
-- that the text format keeps.
abbrev pub IsTextUnits : Units → Type 0
IsTextUnits no_units = Unit
IsTextUnits (unit (optimized_value n t d) us) =
    IsWord n × ((t ≡ index d) × (IsTextData d × IsTextUnits us))

-- A field of the header: no semicolon, line end or at sign.
abbrev pub IsField : Bytes → Type 0
IsField s = IsPlain s × NoAt s

pub record IsTextHeader (h : Header) : Type 0 where
  pub source_id_field : IsField h.source_id
  pub source_sub_id_field : IsField h.source_sub_id
  pub target_id_field : IsField h.target_id
  pub target_sub_id_field : IsField h.target_sub_id
  pub message_type_field : IsField h.message_type
  pub version_field : IsField h.version

abbrev pub text_units : Units → Units
text_units no_units = no_units
text_units (unit (optimized_value n t d) us) =
    unit (optimized_value n t (read_back d)) (text_units us)

-- The header that comes back: each field without the spaces around it, and without the ids if the message
-- type is "data_container".
abbrev pub text_header : Header → Header
text_header h =
    if h.message_type === codes "data_container"
    then (record {
      source_id = [];
      source_sub_id = [];
      target_id = [];
      target_sub_id = [];
      message_type = without_spaces h.message_type;
      version = without_spaces h.version;
    })
    else (record {
      source_id = without_spaces h.source_id;
      source_sub_id = without_spaces h.source_sub_id;
      target_id = without_spaces h.target_id;
      target_sub_id = without_spaces h.target_sub_id;
      message_type = without_spaces h.message_type;
      version = without_spaces h.version;
    })

abbrev pub Line : Type 0
Line = Bytes × (Bytes × Bytes)

pub get_string_from_type-IsWord : (t : ValueTypes) → IsWord (get_string_from_type t)
unfolding get_string_from_type find_key is_word
get_string_from_type-IsWord null_value = (refl, tt)
get_string_from_type-IsWord bool_value = (refl, tt)
get_string_from_type-IsWord short_value = (refl, tt)
get_string_from_type-IsWord ushort_value = (refl, tt)
get_string_from_type-IsWord int_value = (refl, tt)
get_string_from_type-IsWord uint_value = (refl, tt)
get_string_from_type-IsWord long_value = (refl, tt)
get_string_from_type-IsWord ulong_value = (refl, tt)
get_string_from_type-IsWord llong_value = (refl, tt)
get_string_from_type-IsWord ullong_value = (refl, tt)
get_string_from_type-IsWord float_value = (refl, (refl, tt))
get_string_from_type-IsWord double_value = (refl, (refl, tt))
get_string_from_type-IsWord string_value = (refl, (refl, tt))
get_string_from_type-IsWord bytes_value = (refl, (refl, tt))
get_string_from_type-IsWord container_value = (refl, (refl, tt))
get_string_from_type-IsWord array_value = (refl, (refl, tt))

-- The lines of the values, what is printed, and what is read of them.
pub record Printed (lib : FloatText) (us : Units) : Type 0 where
  pub rows : List Line
  pub prints : lines lib us ≡ some (items_text rows (end_text []))
  pub plain : PlainItems rows
  pub reads :
      (h : Header) (s : Status) (acc : Units)
      → push_items lib refuse (items_of rows) (value_container h s acc)
        ≡ returned (value_container h s (join acc (text_units us))) true

unit-Printed :
    (lib : FloatText) (n : Bytes) (t : ValueTypes) (d : ValueVariant) (us : Units)
    → IsWord n
    → ReadsBack lib t d
    → Printed lib us
    → Printed lib (unit (optimized_value n t d) us)
unfolding lines push_items
unit-Printed lib n t d us w q p = record {
  rows = (n, (get_string_from_type t, q.text)) ∷ p.rows;
  prints = rw (q.prints) (rw (p.prints) (simp append_assoc refl));
  plain = (w, (get_string_from_type-IsWord t, (q.plain, p.plain)));
  reads = λ h s acc. rw (get_type_from_string-get_string_from_type t) (
      rw (q.reads) (
        rw (get_type_from_string-get_string_from_type t) (
          p.reads h s (append_unit acc (optimized_value n t (read_back d)))
          ∙ ap (λ us'. returned (value_container h s us') true)
              (join-append_unit acc (optimized_value n t (read_back d)) (text_units us)))));
}

pub lines-Printed : (lib : FloatText) (us : Units) → IsTextUnits us → Printed lib us
unfolding lines push_items
lines-Printed lib no_units k = record {
  rows = [];
  prints = refl;
  plain = tt;
  reads = λ h s acc. rw (join-no_units acc) refl;
}
lines-Printed lib (unit (optimized_value n t d) us) k =
    unit-Printed lib n t d us k.0 (rw (k.1.0) (to_string-ReadsBack lib d k.1.1.0))
      (lines-Printed lib us k.1.1.1)

abbrev pub last_pairs : Header → List (Bytes × Bytes)
last_pairs h = (codes "5", h.message_type) ∷ (codes "6", h.version) ∷ []

pub pairs_of : Header → List (Bytes × Bytes)
pairs_of h =
    if h.message_type === data_container
    then last_pairs h
    else (codes "1", h.target_id)
      ∷ (codes "2", h.target_sub_id)
      ∷ (codes "3", h.source_id)
      ∷ (codes "4", h.source_sub_id)
      ∷ last_pairs h

pub header_text-pairs :
    (h : Header) (r : Bytes)
    → header_text h ++ r ≡ codes "@header={{" ++ pairs_text (pairs_of h) (end_text r)
unfolding header_text pairs_of
header_text-pairs h r = elim (Bool-cases (h.message_type === data_container)) [
  | inl e ↦ rw e (simp append_assoc refl)
  | inr e ↦ rw e (simp append_assoc refl)
]

last-Plain : (h : Header) → IsTextHeader h → PlainPairs (last_pairs h) × NoAtPairs (last_pairs h)
unfolding is_word
last-Plain h k = (
  ((refl, tt), (k.message_type_field.0, ((refl, tt), (k.version_field.0, tt)))),
  (k.message_type_field.1, (k.version_field.1, tt)),
)

pub pairs_of-Plain :
    (h : Header) → IsTextHeader h → PlainPairs (pairs_of h) × NoAtPairs (pairs_of h)
unfolding pairs_of is_word
pairs_of-Plain h k = elim (Bool-cases (h.message_type === data_container)) [
  | inl e ↦ rw e (last-Plain h k)
  | inr e ↦
      let l : PlainPairs (last_pairs h) × NoAtPairs (last_pairs h) = last-Plain h k in
      rw e (
        (
          (refl, tt),
          (
            k.target_id_field.0,
            (
              (refl, tt),
              (
                k.target_sub_id_field.0,
                ((refl, tt), (k.source_id_field.0, ((refl, tt), (k.source_sub_id_field.0, l.0)))),
              ),
            ),
          ),
        ),
        (
          k.target_id_field.1,
          (k.target_sub_id_field.1, (k.source_id_field.1, (k.source_sub_id_field.1, l.1))),
        ),
      )
]

pub parse_pairs-pairs_of :
    (h c : Header)
    → c.source_id ≡ []
    → c.source_sub_id ≡ []
    → c.target_id ≡ []
    → c.target_sub_id ≡ []
    → parse_pairs (pairs_of h) c ≡ text_header h
unfolding pairs_of parse_pairs parse_pair parsing ◌===◌
parse_pairs-pairs_of h c e1 e2 e3 e4 = elim (Bool-cases (h.message_type === data_container)) [
  | inl e ↦ rw (e, e1, e2, e3, e4) (simp trim-without_spaces refl)
  | inr e ↦ rw e (simp trim-without_spaces refl)
]

pub serialize_to_string-whole :
    (lib : FloatText) (h : Header) (s : Status) (us : Units) (rows : List Line)
    → s.parsed_data ≡ true
    → lines lib us ≡ some (items_text rows (end_text []))
    → serialize_to_string lib (value_container h s us) ≡ some (whole_text (pairs_of h) rows)
unfolding serialize_to_string datas whole_text data_text
serialize_to_string-whole lib h s us rows e f =
    rw e (rw f (ap some (header_text-pairs h (codes "@data={{" ++ items_text rows (end_text [])))))
