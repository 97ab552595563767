-- ===== src/Serializer/Total.antt =====
-- value_container::from_msgpack_impl of core/container.cpp on any bytes.
use container_system.Base.{
  ℕ, zero, suc, ◌<◌, ◌^◌, ◌≡◌, refl, ◌∙◌, true, false, Bytes, [], ◌∷◌, length, leb, ap, ◌===◌,
  if◌then◌else◌, codes, All, arith,
}
use container_system.Value.{
  bytes_value, monostate, bool, float, double, string, bytes, container, array, ValueVariant,
  ValueContainer, value_container,
}
use container_system.Container.{new_container, initialize}
use container_system.Msgpack.Format.{
  MsgpackType, nil_type, boolean, positive_int, negative_int, float32_type, float64_type, str, bin,
  array as array_type,
}
use container_system.Msgpack.Decoder.{MsgpackDecoder, new_decoder, Read}
use container_system.Msgpack.Safety.{IsByte, IsValid, Safe, given, refused}
use container_system.Msgpack.Safety.Words.{Any}
use container_system.Msgpack.Safety.Readers.{
  read_nil-Safe, read_bool-Safe, read_float-Safe, read_double-Safe,
}
use container_system.Msgpack.Safety.Integers.{read_int-Safe}
use container_system.Msgpack.Safety.Payloads.{
  Part, read_string-Safe, read_binary-Safe, read_array_header-Safe, read_map_header-Safe,
}
use container_system.Serializer.Read.{
  Outcome, Step, Decoded, decoded, Elements, set_header_field, header_entries, push_decoded,
  then_step, finish_call, read_element, read_elements, read_value, value_entries, outer_entry,
  outer_entries, from_msgpack_body, from_msgpack_impl, push_item, finish_array, probed, ignore_nil,
}
use container_system.Serializer.Steps.{
  Returns, returns, Inside, StepOk, on, off, DecodedOk, on_value, off_value, ElementsOk, on_items,
  or_fail-ok, or_reject-ok, or_keep-ok, both, on_type-ok,
}

module _ (widen : ℕ → ℕ) (bs : Bytes) where
  read_element-ok :
      (t : MsgpackType) (d : MsgpackDecoder) (k : ValueVariant → MsgpackDecoder → Elements)
      → Inside bs d
      → ((v : ValueVariant) (d' : MsgpackDecoder) → Inside bs d' → ElementsOk bs (k v d'))
      → ElementsOk bs (read_element widen t d k)
  unfolding read_element
  read_element-ok nil_type d k (v, e) f = or_keep-ok bs d _ _ k e (read_nil-Safe d v) f
  read_element-ok boolean d k (v, e) f = or_keep-ok bs d _ _ k e (read_bool-Safe d v) f
  read_element-ok positive_int d k (v, e) f = or_keep-ok bs d _ _ k e (read_int-Safe d v) f
  read_element-ok negative_int d k (v, e) f = or_keep-ok bs d _ _ k e (read_int-Safe d v) f
  read_element-ok float32_type d k (v, e) f = or_keep-ok bs d _ _ k e (read_float-Safe d v) f
  read_element-ok float64_type d k (v, e) f =
      or_keep-ok bs d _ _ k e (read_double-Safe d v Any widen (λ _ _. tt) (λ _ _. tt)) f
  read_element-ok str d k (v, e) f = or_keep-ok bs d _ _ k e (read_string-Safe d v) f
  read_element-ok bin d k (v, e) f = or_keep-ok bs d _ _ k e (read_binary-Safe d v) f
  read_element-ok _ d k i f = f _ d i

  push_item-ok :
      (v : ValueVariant) (es : Elements) → ElementsOk bs es → ElementsOk bs (push_item v es)
  push_item-ok v _ (on_items ds d i) = on_items _ d i

  read_elements-ok :
      (n : ℕ) (d : MsgpackDecoder) → Inside bs d → ElementsOk bs (read_elements widen n d)
  unfolding read_elements
  read_elements-ok zero d i = on_items _ d i
  read_elements-ok (suc n) d (v, e) =
      on_type-ok (ElementsOk bs) _ d _ v
        λ t. read_element-ok t d _ (v, e) λ x d' i'. push_item-ok x _ (read_elements-ok n d' i')

  module _ (nested : Bytes → Outcome) (calls : (b : Bytes) → Part bs b → Returns (nested b)) where
    Part-of : {whole : Bytes} (b : Bytes) → whole ≡ bs → Part whole b → Part bs b
    Part-of b e (fewer, octets) = (omega (arith, ap length e), octets)

    finish_array-ok : (es : Elements) → ElementsOk bs es → DecodedOk bs (finish_array es)
    finish_array-ok _ (on_items ds d i) = on_value (array ds) d i

    probed-ok :
        (b : Bytes) (d : MsgpackDecoder) (o : Outcome)
        → Inside bs d
        → Returns o
        → DecodedOk bs (probed b d o)
    probed-ok b d _ i (returns c true) = on_value (container c) d i
    probed-ok b d _ i (returns c false) = on_value (bytes b) d i

    binary-ok :
        (b : Bytes) (d : MsgpackDecoder)
        → Part bs b
        → Inside bs d
        → DecodedOk bs
            (if leb 2 (length b) then probed b d (nested b) else decoded bytes_value (bytes b) d)
    binary-ok b d p i =
        both (DecodedOk bs) (leb 2 (length b)) (probed-ok b d (nested b) i (calls b p))
          (on_value (bytes b) d i)

    nil-ok :
        (d : MsgpackDecoder) (r : Read {0} Unit)
        → d.bytes ≡ bs
        → Safe Any 1 d r
        → DecodedOk bs (ignore_nil r)
    nil-ok d _ e (given a d' p v q h) = on_value monostate d' (v, q ∙ e)
    nil-ok d _ e (refused d' v q h) = on_value monostate d' (v, q ∙ e)

    read_value-ok :
        (t : MsgpackType) (d : MsgpackDecoder)
        → Inside bs d
        → DecodedOk bs (read_value widen nested t d)
    unfolding read_value
    read_value-ok nil_type d (v, e) = nil-ok d _ e (read_nil-Safe d v)
    read_value-ok boolean d (v, e) =
        or_reject-ok bs d _ _ e (read_bool-Safe d v) λ b d' p i. on_value (bool b) d' i
    read_value-ok positive_int d (v, e) =
        or_reject-ok bs d _ _ e (read_int-Safe d v) λ n d' p i. on_value _ d' i
    read_value-ok negative_int d (v, e) =
        or_reject-ok bs d _ _ e (read_int-Safe d v) λ n d' p i. on_value _ d' i
    read_value-ok float32_type d (v, e) =
        or_reject-ok bs d _ _ e (read_float-Safe d v) λ f d' p i. on_value (float f) d' i
    read_value-ok float64_type d (v, e) =
        or_reject-ok bs d _ _ e (read_double-Safe d v Any widen (λ _ _. tt) (λ _ _. tt))
          λ f d' p i. on_value (double f) d' i
    read_value-ok str d (v, e) =
        or_reject-ok bs d _ _ e (read_string-Safe d v) λ s d' p i. on_value (string s) d' i
    read_value-ok bin d (v, e) =
        or_reject-ok bs d _ _ e (read_binary-Safe d v) λ b d' p i. binary-ok b d' (Part-of b e p) i
    read_value-ok array_type d (v, e) =
        or_reject-ok bs d _ _ e (read_array_header-Safe d v)
          λ n d' p i. finish_array-ok _ (read_elements-ok n d' i)
    read_value-ok _ d i = on_value monostate d i

    push_decoded-ok :
        (key : Bytes) (c : ValueContainer) (r : Decoded)
        (k : ValueContainer → MsgpackDecoder → Step)
        → DecodedOk bs r
        → ((c' : ValueContainer) (d : MsgpackDecoder) → Inside bs d → StepOk bs (k c' d))
        → StepOk bs (push_decoded key c r k)
    push_decoded-ok key (value_container h s us) _ k (on_value v d i) f = f _ d i
    push_decoded-ok key c _ k off_value f = off c

    header_entries-ok :
        (n : ℕ) (c : ValueContainer) (d : MsgpackDecoder)
        → Inside bs d
        → StepOk bs (header_entries n c d)
    unfolding header_entries
    header_entries-ok zero c d i = on c d i
    header_entries-ok (suc n) c d (v, e) =
        or_fail-ok bs d _ c _ e (read_string-Safe d v) λ hkey d1 p (v1, e1).
          or_fail-ok bs d1 _ c _ e1 (read_string-Safe d1 v1)
            λ hval d2 p2 i2. header_entries-ok n (set_header_field hkey hval c) d2 i2

    value_entries-ok :
        (n : ℕ) (c : ValueContainer) (d : MsgpackDecoder)
        → Inside bs d
        → StepOk bs (value_entries widen nested n c d)
    unfolding value_entries
    value_entries-ok zero c d i = on c d i
    value_entries-ok (suc n) c d (v, e) =
        or_fail-ok bs d _ c _ e (read_string-Safe d v) λ vkey d1 p (v1, e1).
          on_type-ok (StepOk bs) _ d1 _ v1
            λ t. push_decoded-ok vkey c _ _ (read_value-ok t d1 (v1, e1)) (value_entries-ok n)

    outer_entry-ok :
        (key : Bytes) (c : ValueContainer) (d : MsgpackDecoder)
        → Inside bs d
        → StepOk bs (outer_entry widen nested key c d)
    unfolding outer_entry
    outer_entry-ok key c d (v, e) =
        both (StepOk bs) (key === codes "header")
          (or_fail-ok bs d _ c _ e (read_map_header-Safe d v)
            λ n d' p i. header_entries-ok n c d' i)
          (both (StepOk bs) (key === codes "values")
            (or_fail-ok bs d _ c _ e (read_map_header-Safe d v)
              λ n d' p i. value_entries-ok n c d' i)
            (on c d (v, e)))

    then_step-ok :
        (s : Step) (k : ValueContainer → MsgpackDecoder → Step)
        → StepOk bs s
        → ((c : ValueContainer) (d : MsgpackDecoder) → Inside bs d → StepOk bs (k c d))
        → StepOk bs (then_step s k)
    then_step-ok _ k (on c d i) f = f c d i
    then_step-ok _ k (off c) f = off c

    outer_entries-ok :
        (n : ℕ) (c : ValueContainer) (d : MsgpackDecoder)
        → Inside bs d
        → StepOk bs (outer_entries widen nested n c d)
    unfolding outer_entries
    outer_entries-ok zero c d i = on c d i
    outer_entries-ok (suc n) c d (v, e) =
        or_fail-ok bs d _ c _ e (read_string-Safe d v)
          λ key d1 p i. then_step-ok _ _ (outer_entry-ok key c d1 i) (outer_entries-ok n)

    finish_call-ok : (s : Step) → StepOk bs s → Returns (finish_call s)
    finish_call-ok _ (on (value_container h s us) d i) = returns _ true
    finish_call-ok _ (off c) = returns c false

new_decoder-IsValid : (bs : Bytes) → All IsByte bs → length bs < 2 ^ 63 → IsValid (new_decoder bs)
new_decoder-IsValid bs o h = record { within = omega arith; whole = refl; small = h; octets = o }

module _ (widen : ℕ → ℕ) where
  body-ok :
      (nested : Bytes → Outcome) (bs : Bytes) (c : ValueContainer)
      → All IsByte bs
      → length bs < 2 ^ 63
      → ((b : Bytes) → Part bs b → Returns (nested b))
      → Returns (from_msgpack_body widen nested bs c)
  unfolding from_msgpack_body
  body-ok nested [] c o h f = returns c false
  body-ok nested (b ∷ bs) c o h f =
      let v : IsValid (new_decoder (b ∷ bs)) = new_decoder-IsValid (b ∷ bs) o h in
      finish_call-ok widen (b ∷ bs) nested f _ (
        or_fail-ok (b ∷ bs) (new_decoder (b ∷ bs)) _ (initialize c) _ refl
          (read_map_header-Safe _ v)
          λ n d p i. outer_entries-ok widen (b ∷ bs) nested f n (initialize c) d i)

  -- Every list of bytes of less than 2 ^ 63 bytes, and a fuel above its length: the function returns
  -- true or false, so it never reads outside the data, however damaged they are, and its nested
  -- calls end.
  pub from_msgpack_impl-Returns :
      (fuel : ℕ) (bs : Bytes) (c : ValueContainer)
      → All IsByte bs
      → length bs < 2 ^ 63
      → length bs < fuel
      → Returns (from_msgpack_impl widen fuel bs c)
  unfolding from_msgpack_impl
  from_msgpack_impl-Returns zero bs c o h f = absurd (omega arith)
  from_msgpack_impl-Returns (suc fuel) bs c o h f = body-ok _ bs c o h λ b (fewer, octets).
      from_msgpack_impl-Returns fuel b new_container octets (omega arith) (omega arith)
