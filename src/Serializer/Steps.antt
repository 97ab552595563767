-- ===== src/Serializer/Steps.antt =====
-- What the stretches of value_container::from_msgpack_impl (core/container.cpp) leave when nothing outside
-- the data is read, and the rules by which they are put together.
use container_system.Base.{
  ℕ, ◌≡◌, ◌∙◌, Bool, true, false, some, Bytes, leb, Bool-cases, inl, inr, if◌then◌else◌, arith,
}
use container_system.Value.{ValueTypes, ValueVariant, Items, ValueContainer}
use container_system.Msgpack.Format.{MsgpackType, unknown}
use container_system.Msgpack.Decoder.{MsgpackDecoder, Read, classify, peek_type}
use container_system.Msgpack.Safety.{IsValid, Safe, given, refused, load-within}
use container_system.Serializer.Read.{
  Outcome, returned, Step, go_on, failed, Decoded, decoded, rejected, Elements, elements, or_fail,
  or_reject, or_keep, on_type,
}

-- The call has returned.
pub data Returns : Outcome → Type 0 where
  returns : (c : ValueContainer) (b : Bool) → Returns (returned c b)

-- A decoder inside the data `bs`.
abbrev pub Inside : Bytes → MsgpackDecoder → Type 0
Inside bs d = IsValid d × (d.bytes ≡ bs)

module _ (bs : Bytes) where
  pub data StepOk : Step → Type 0 where
    on : (c : ValueContainer) (d : MsgpackDecoder) → Inside bs d → StepOk (go_on c d)
    off : (c : ValueContainer) → StepOk (failed c)

  pub data DecodedOk : Decoded → Type 0 where
    on_value :
        {t : ValueTypes} (v : ValueVariant) (d : MsgpackDecoder)
        → Inside bs d
        → DecodedOk (decoded t v d)
    off_value : DecodedOk rejected

  pub data ElementsOk : Elements → Type 0 where
    on_items : (ds : Items) (d : MsgpackDecoder) → Inside bs d → ElementsOk (elements ds d)

-- What follows a safe read is as safe as its continuation.
module _ {ℓ} {A : Type ℓ} {P : A → Type 0} {n : ℕ} (bs : Bytes) where
  pub or_fail-ok :
      (d : MsgpackDecoder) (r : Read A) (c : ValueContainer) (k : A → MsgpackDecoder → Step)
      → d.bytes ≡ bs
      → Safe P n d r
      → ((a : A) (d' : MsgpackDecoder) → P a → Inside bs d' → StepOk bs (k a d'))
      → StepOk bs (or_fail r c k)
  or_fail-ok d _ c k e (given a d' p v q h) f = f a d' p (v, q ∙ e)
  or_fail-ok d _ c k e (refused d' v q h) f = off c

  pub or_reject-ok :
      (d : MsgpackDecoder) (r : Read A) (k : A → MsgpackDecoder → Decoded)
      → d.bytes ≡ bs
      → Safe P n d r
      → ((a : A) (d' : MsgpackDecoder) → P a → Inside bs d' → DecodedOk bs (k a d'))
      → DecodedOk bs (or_reject r k)
  or_reject-ok d _ k e (given a d' p v q h) f = f a d' p (v, q ∙ e)
  or_reject-ok d _ k e (refused d' v q h) f = off_value

  pub or_keep-ok :
      (d : MsgpackDecoder) (r : Read A) (g : A → ValueVariant)
      (k : ValueVariant → MsgpackDecoder → Elements)
      → d.bytes ≡ bs
      → Safe P n d r
      → ((v : ValueVariant) (d' : MsgpackDecoder) → Inside bs d' → ElementsOk bs (k v d'))
      → ElementsOk bs (or_keep r g k)
  or_keep-ok d _ g k e (given a d' p v q h) f = f (g a) d' (v, q ∙ e)
  or_keep-ok d _ g k e (refused d' v q h) f = f _ d' (v, q ∙ e)

pub both {ℓ} :
    {A : Type ℓ} (P : A → Type 0) (b : Bool) {x y : A} → P x → P y → P (if b then x else y)
both P true p q = p
both P false p q = q

-- `peek_type` gives a type.
peek-inside : (d : MsgpackDecoder) → IsValid d → (t : MsgpackType) × (peek_type d ≡ some t)
unfolding peek_type
peek-inside d v = elim (Bool-cases (leb d.size d.offset)) [
  | inl e ↦ (unknown, rw e)
  | inr e ↦ let (b, p, s) = load-within 0 d v (ground arith) in (classify b, rw (e, p))
]

pub on_type-ok :
    {A : Type 0} (P : A → Type 0) (a : A) (d : MsgpackDecoder) (k : MsgpackType → A)
    → IsValid d
    → ((t : MsgpackType) → P (k t))
    → P (on_type a (peek_type d) k)
on_type-ok P a d k v f = let (t, e) = peek-inside d v in rw e (f t)
