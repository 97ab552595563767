-- ===== src/Serializer/Runs.antt =====
-- The stretches of value_container::from_msgpack_impl (core/container.cpp) on bytes that were
-- written for them.
use container_system.Base.{
  ◌<◌, ◌^◌, ◌≡◌, sym, ap, ◌∙◌, List, [], ◌∷◌, ◌++◌, Bytes, length, length-append, append_assoc,
  append-nil, arith,
}
use container_system.Value.{ValueTypes, ValueVariant, ValueContainer}
use container_system.Msgpack.Format.{MsgpackType}
use container_system.Msgpack.Decoder.{MsgpackDecoder, Read, peek_type}
use container_system.Msgpack.Payloads.{read_string}
use container_system.Msgpack.Encodings.{string_bytes}
use container_system.Msgpack.Cursor.{at, Fits}
use container_system.Msgpack.RoundTrip.{Reads}
use container_system.Msgpack.RoundTrip.Payloads.{read_string-bytes}
use container_system.Msgpack.Peek.{Peeks}
use container_system.Serializer.Read.{
  Step, go_on, step_outside, Decoded, decoded, or_fail, or_reject, on_type, push_decoded, then_step,
  set_header_field, header_entries,
}

-- Wherever the cursor stands before `bs`, the stretch leaves the container `c` and goes on behind
-- `bs`.
abbrev pub Runs : (MsgpackDecoder → Step) → ValueContainer → Bytes → Type 0
Runs f c bs =
    (pre xs : Bytes) → Fits pre (bs ++ xs) → f (at pre (bs ++ xs)) ≡ go_on c (at (pre ++ bs) xs)

-- The same for the reading of one value.
abbrev pub Decodes : (MsgpackDecoder → Decoded) → ValueTypes → ValueVariant → Bytes → Type 0
Decodes f t v bs =
    (pre xs : Bytes) → Fits pre (bs ++ xs) → f (at pre (bs ++ xs)) ≡ decoded t v (at (pre ++ bs) xs)

pub Runs-done : (c : ValueContainer) → Runs (go_on c) c []
Runs-done c pre xs f = ap (λ p. go_on c (at p xs)) (sym (append-nil pre))

Fits-first : (pre s t xs : Bytes) → Fits pre ((s ++ t) ++ xs) → Fits pre (s ++ (t ++ xs))
Fits-first pre s t xs = rw (append_assoc s t xs) λ f. f

Fits-second : (pre s xs : Bytes) → Fits pre (s ++ xs) → Fits (pre ++ s) xs
Fits-second pre s xs f = omega (arith, length-append pre s, length-append s xs)

-- What runs behind the bytes `s` runs behind them as part of a longer stretch.
behind :
    (c : ValueContainer) (k : MsgpackDecoder → Step) (s t : Bytes)
    → Runs k c t
    → (pre xs : Bytes) → Fits pre ((s ++ t) ++ xs)
    → k (at (pre ++ s) (t ++ xs)) ≡ go_on c (at (pre ++ (s ++ t)) xs)
behind c k s t r pre xs f =
    r (pre ++ s) xs (Fits-second pre s (t ++ xs) (Fits-first pre s t xs f))
    ∙ ap (λ p. go_on c (at p xs)) (append_assoc pre s t)

pub Runs-or_fail {ℓ} :
    {A : Type ℓ} (read : MsgpackDecoder → Read A) (a : A) (c c' : ValueContainer)
    (k : A → MsgpackDecoder → Step) (s t : Bytes)
    → Reads read a s
    → Runs (k a) c' t
    → Runs (λ d. or_fail (read d) c k) c' (s ++ t)
Runs-or_fail read a c c' k s t q r pre xs f =
    ap (λ ys. or_fail (read (at pre ys)) c k) (append_assoc s t xs)
    ∙ (ap (λ o. or_fail o c k) (q pre (t ++ xs) (Fits-first pre s t xs f))
        ∙ behind c' (k a) s t r pre xs f)

pub Runs-then_step :
    (g : MsgpackDecoder → Step) (c c' : ValueContainer) (k : ValueContainer → MsgpackDecoder → Step)
    (s t : Bytes)
    → Runs g c s
    → Runs (k c) c' t
    → Runs (λ d. then_step (g d) k) c' (s ++ t)
Runs-then_step g c c' k s t q r pre xs f =
    ap (λ ys. then_step (g (at pre ys)) k) (append_assoc s t xs)
    ∙ (ap (λ o. then_step o k) (q pre (t ++ xs) (Fits-first pre s t xs f))
        ∙ behind c' (k c) s t r pre xs f)

-- The value of a key is announced, read and added.
pub Runs-value :
    (key : Bytes) (c c' : ValueContainer) (g : MsgpackType → MsgpackDecoder → Decoded)
    (k : ValueContainer → MsgpackDecoder → Step) (type : MsgpackType) (t : ValueTypes)
    (v : ValueVariant) (s u : Bytes) (pushed : ValueContainer)
    → ((d : MsgpackDecoder) → push_decoded key c (decoded t v d) k ≡ k pushed d)
    → Peeks type s
    → Decodes (g type) t v s
    → Runs (k pushed) c' u
    → Runs
        (λ d. on_type step_outside (peek_type d) λ type. push_decoded key c (g type d) k)
        c'
        (s ++ u)
Runs-value key c c' g k type t v s u pushed push p q r pre xs f =
    let here : Fits pre (s ++ (u ++ xs)) = Fits-first pre s u xs f in
    ap
      (λ ys.
        on_type step_outside (peek_type (at pre ys))
          λ type. push_decoded key c (g type (at pre ys)) k)
      (append_assoc s u xs)
    ∙ (ap
          (λ o.
            on_type step_outside o λ type. push_decoded key c (g type (at pre (s ++ (u ++ xs)))) k)
          (p.peeked pre (u ++ xs) here)
        ∙ (ap (λ o. push_decoded key c o k) (q pre (u ++ xs) here)
            ∙ (push (at (pre ++ s) (u ++ xs)) ∙ behind c' (k pushed) s u r pre xs f)))

pub Decodes-or_reject {ℓ} :
    {A : Type ℓ} (read : MsgpackDecoder → Read A) (a : A) (t : A → ValueTypes)
    (v : A → ValueVariant) (s : Bytes)
    → Reads read a s
    → Decodes (λ d. or_reject (read d) λ a d'. decoded (t a) (v a) d') (t a) (v a) s
Decodes-or_reject read a t v s q pre xs f =
    ap (λ o. or_reject o λ a d'. decoded (t a) (v a) d') (q pre xs f)

-- The entries of a header as pairs of strings.
abbrev pub pairs_bytes : List (Bytes × Bytes) → Bytes
pairs_bytes [] = []
pairs_bytes ((k, v) ∷ ps) = string_bytes k ++ (string_bytes v ++ pairs_bytes ps)

abbrev pub set_fields : List (Bytes × Bytes) → ValueContainer → ValueContainer
set_fields [] c = c
set_fields ((k, v) ∷ ps) c = set_fields ps (set_header_field k v c)

abbrev pub ShortPairs : List (Bytes × Bytes) → Type 0
ShortPairs [] = Unit
ShortPairs ((k, v) ∷ ps) = (length k < 2 ^ 32) × ((length v < 2 ^ 32) × ShortPairs ps)

pub header_entries-pairs :
    (ps : List (Bytes × Bytes)) (c : ValueContainer)
    → ShortPairs ps
    → Runs (header_entries (length ps) c) (set_fields ps c) (pairs_bytes ps)
unfolding header_entries
header_entries-pairs [] c h = Runs-done c
header_entries-pairs ((k, v) ∷ ps) c (hk, (hv, h)) =
    Runs-or_fail read_string k c (set_fields ((k, v) ∷ ps) c) _ (string_bytes k) _
      (read_string-bytes k hk)
      (Runs-or_fail read_string v c (set_fields ((k, v) ∷ ps) c) _ (string_bytes v) _
        (read_string-bytes v hv) (header_entries-pairs ps (set_header_field k v c) h))
