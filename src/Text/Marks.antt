-- ===== src/Text/Marks.antt =====
-- Where the mark "};" can stand in what the expressions of the text format match.
use container_system.Base.{
  ℕ, ◌≡◌, refl, sym, ◌∙◌, Bool, true, false, Option, none, some, [], ◌∷◌, Bytes, ◌==◌, ◌&&◌, length,
  inl, inr, arith, Bool-cases, Option-cases,
}
use container_system.Text.{
  is_space, is_word, is_line_end, remove_newlines, last_brace, span_space, span_word, close_braces,
  until_close, close_bracket, until_bracket, comma,
}

abbrev pub starts_mark : Bytes → Bool
starts_mark [] = false
starts_mark (c ∷ []) = false
starts_mark (c ∷ d ∷ s) = (c == b'}') && (d == b';')

-- The mark stands nowhere but at the end.
abbrev pub EndsAtMark : Bytes → Type 0
EndsAtMark [] = Unit
EndsAtMark (c ∷ s) = (starts_mark (c ∷ s) ≡ true → length s ≡ 1) × EndsAtMark s

-- There is no mark and no line end.
abbrev pub Inert : Bytes → Type 0
Inert [] = Unit
Inert (c ∷ s) = (starts_mark (c ∷ s) ≡ false) × (is_line_end c ≡ false) × Inert s

abbrev tail : Bytes → Bytes
tail [] = []
tail (c ∷ s) = s

pub space-not_brace : (c : ℕ) → is_space c ≡ true → (c == b'}') ≡ false
unfolding is_space
space-not_brace c h = ground arith

space-not_semicolon : (c : ℕ) → is_space c ≡ true → (c == b';') ≡ false
unfolding is_space
space-not_semicolon c h = ground arith

-- What closes a section: a space and the rest, or one of the two marks.
pub data Closing (c : ℕ) (s t : Bytes) : Type 0 where
  spaced : (r : Bytes) → is_space c ≡ true → close_braces s ≡ some r → t ≡ c ∷ r → Closing c s t
  single : c ≡ b'}' → (r : Bytes) → s ≡ b';' ∷ r → t ≡ b'}' ∷ b';' ∷ [] → Closing c s t
  double :
      c ≡ b'}' → (r : Bytes) → s ≡ b'}' ∷ b';' ∷ r → t ≡ b'}' ∷ b'}' ∷ b';' ∷ [] → Closing c s t

last_brace-Closing :
    (c : ℕ) (s t : Bytes) → (c == b'}') ≡ true → last_brace s ≡ some t → Closing c s t
last_brace-Closing c [] t e h = cc
last_brace-Closing c (d ∷ []) t e h =
    single (ground (arith, e)) [] (ground (arith, h)) (ground (arith, h))
last_brace-Closing c (d ∷ f ∷ s) t e h = elim (Bool-cases (d == b';')) [
  | inl i ↦ single (ground (arith, e)) (f ∷ s) (ground (arith, i)) (ground (arith, h, i))
  | inr i ↦ double (ground (arith, e)) s (ground (arith, h, i)) (ground (arith, h, i))
]

pub close_braces-Closing : (c : ℕ) (s t : Bytes) → close_braces (c ∷ s) ≡ some t → Closing c s t
unfolding close_braces
close_braces-Closing c s t h = elim (Bool-cases (is_space c)) [
  | inl e ↦ elim (Option-cases (close_braces s)) [
    | inl f ↦ ground (arith, e, f)
    | inr (r, f) ↦ spaced r e f (ground (arith, e, f))
  ]
  | inr e ↦ elim (Bool-cases (c == b'}')) [
    | inl f ↦ last_brace-Closing c s t f (ground (arith, e, f))
    | inr f ↦ ground (arith, e, f)
  ]
]

spaced_mark : (c : ℕ) (r : Bytes) → is_space c ≡ true → starts_mark (c ∷ r) ≡ false
spaced_mark c [] h = refl
spaced_mark c (d ∷ r) h = rw (space-not_brace c h) refl

Closing-EndsAtMark :
    (c : ℕ) (s t : Bytes)
    → Closing c s t
    → ((r : Bytes) → close_braces s ≡ some r → EndsAtMark r)
    → EndsAtMark t
Closing-EndsAtMark c s t (spaced r e f g) ih =
    rw g ((λ h. ground (arith, h, spaced_mark c r e)), ih r f)
Closing-EndsAtMark c s t (single e r f g) ih = rw g ((λ _. refl), ((λ h. cc), tt))
Closing-EndsAtMark c s t (double e r f g) ih = rw g ((λ h. cc), ((λ _. refl), ((λ h. cc), tt)))

pub close_braces-EndsAtMark : (s t : Bytes) → close_braces s ≡ some t → EndsAtMark t
unfolding close_braces
close_braces-EndsAtMark [] t h = cc
close_braces-EndsAtMark (c ∷ s) t h =
    Closing-EndsAtMark c s t (close_braces-Closing c s t h) λ r e. close_braces-EndsAtMark s r e

Closing-head : (c : ℕ) (s t : Bytes) → Closing c s t → (t' : Bytes) × (t ≡ c ∷ t')
Closing-head c s t (spaced r e f g) = (r, g)
Closing-head c s t (single e r f g) = (b';' ∷ [], ground (arith, e, g))
Closing-head c s t (double e r f g) = (b'}' ∷ b';' ∷ [], ground (arith, e, g))

Closing-Inert :
    (c : ℕ) (s t : Bytes) → Closing c s t → Inert (c ∷ s) → close_braces s ≡ none → none ≡ some t
Closing-Inert c s t (spaced r e f g) h n = cc
Closing-Inert c s t (single e r f g) h n = let m : starts_mark (c ∷ s) ≡ true = rw (f, e) refl in cc
Closing-Inert c s t (double e r f g) h n = let m : Inert (b'}' ∷ b';' ∷ r) = rw f at h.2 in cc

close_braces-Inert : (s : Bytes) → Inert s → close_braces s ≡ none
unfolding close_braces
close_braces-Inert [] h = refl
close_braces-Inert (c ∷ s) h = elim (Option-cases (close_braces (c ∷ s))) [
  | inl e ↦ e
  | inr (t, e) ↦
      e ∙ sym (Closing-Inert c s t (close_braces-Closing c s t e) h (close_braces-Inert s h.2))
]

pub until_close-Inert : (s : Bytes) → Inert s → until_close s ≡ none
unfolding until_close
until_close-Inert [] h = refl
until_close-Inert (c ∷ s) h =
    ground (arith, close_braces-Inert (c ∷ s) h, until_close-Inert s h.2, h.1)

pub remove_newlines-Inert : (s : Bytes) → Inert s → remove_newlines s ≡ s
unfolding remove_newlines
remove_newlines-Inert [] h = refl
remove_newlines-Inert (c ∷ s) h = rw (remove_newlines-Inert s h.2, h.1) refl

until_bracket-head :
    (c : ℕ) (s : Bytes) (d : ℕ) (w r : Bytes) → until_bracket (c ∷ s) ≡ some (d ∷ w, r) → d ≡ c
unfolding until_bracket
until_bracket-head c s d w r h = elim (Option-cases (close_bracket (c ∷ s))) [
  | inr (t, f) ↦ ground (arith, f, h)
  | inl f ↦ elim (Bool-cases (is_line_end c)) [
    | inl g ↦ ground (arith, f, g)
    | inr g ↦ elim (Option-cases (until_bracket s)) [
      | inl i ↦ ground (arith, f, g, i)
      | inr ((v, q), i) ↦ ground (arith, f, g, i)
    ]
  ]
]

-- A mark in front of a bracket is not the end.
bracket-mark :
    (c : ℕ) (s w r : Bytes)
    → (starts_mark (c ∷ s) ≡ true → length s ≡ 1)
    → until_bracket s ≡ some (w, r)
    → starts_mark (c ∷ w) ≡ false
unfolding until_bracket
bracket-mark c [] w r e i = cc
bracket-mark c (d ∷ []) [] r e i = refl
bracket-mark c (d ∷ []) (f ∷ w) r e i = ground (arith, i)
bracket-mark c (d ∷ f ∷ s) [] r e i = refl
bracket-mark c (d ∷ f ∷ s) (g ∷ w) r e i = elim (Bool-cases (starts_mark (c ∷ d ∷ f ∷ s))) [
  | inl m ↦ ground (arith, e m)
  | inr m ↦ let j : g ≡ d = until_bracket-head d (f ∷ s) g w r i in ground (arith, m, j)
]

pub until_bracket-Inert :
    (s v rest : Bytes) → EndsAtMark s → until_bracket s ≡ some (v, rest) → Inert v
unfolding until_bracket
until_bracket-Inert [] v rest e h = cc
until_bracket-Inert (c ∷ s) v rest e h = elim (Option-cases (close_bracket (c ∷ s))) [
  | inr (t, f) ↦ let g : v ≡ [] = ground (arith, f, h) in rw g tt
  | inl f ↦ elim (Bool-cases (is_line_end c)) [
    | inl g ↦ ground (arith, f, g)
    | inr g ↦ elim (Option-cases (until_bracket s)) [
      | inl i ↦ ground (arith, f, g, i)
      | inr ((w, r), i) ↦
          let j : v ≡ c ∷ w = ground (arith, f, g, i) in
          rw j (bracket-mark c s w r e.0 i, g, until_bracket-Inert s w r e.1 i)
    ]
  ]
]

pub starts_mark-same : (c d : ℕ) (r s : Bytes) → starts_mark (c ∷ d ∷ r) ≡ starts_mark (c ∷ d ∷ s)
starts_mark-same c d r s = refl

pub close_braces-head :
    (c : ℕ) (s t : Bytes) → close_braces (c ∷ s) ≡ some t → (t' : Bytes) × (t ≡ c ∷ t')
close_braces-head c s t h = Closing-head c s t (close_braces-Closing c s t h)

-- What the expressions of an item leave of a text that ends at its mark.
pub span_space-EndsAtMark : (s : Bytes) → EndsAtMark s → EndsAtMark (span_space s).1
unfolding span_space
span_space-EndsAtMark [] h = tt
span_space-EndsAtMark (c ∷ s) h = elim (Bool-cases (is_space c)) [
  | inl e ↦ rw e (span_space-EndsAtMark s h.1)
  | inr e ↦ rw e h
]

pub span_word-EndsAtMark : (s : Bytes) → EndsAtMark s → EndsAtMark (span_word s).1
unfolding span_word
span_word-EndsAtMark [] h = tt
span_word-EndsAtMark (c ∷ s) h = elim (Bool-cases (is_word c)) [
  | inl e ↦ rw e (span_word-EndsAtMark s h.1)
  | inr e ↦ rw e h
]

abbrev pub AfterComma : Option (Bytes × Bytes) → Type 0
AfterComma none = Unit
AfterComma (some (w, s)) = EndsAtMark s

pub comma-EndsAtMark : (w s : Bytes) → EndsAtMark s → AfterComma (comma (w, s))
comma-EndsAtMark [] s h = tt
comma-EndsAtMark (b ∷ w) [] h = tt
comma-EndsAtMark (b ∷ w) (c ∷ s) h = elim (Bool-cases (c == b',')) [
  | inl e ↦ rw e h.1
  | inr e ↦ rw e tt
]
