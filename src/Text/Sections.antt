-- ===== src/Text/Sections.antt =====
-- What the search for a section finds ends at the first mark "};", and its items hold none.
use container_system.Base.{
  ℕ, zero, suc, ◌-◌, ◌≡◌, refl, false, Option, none, some, List, [], ◌∷◌, ◌++◌, Bytes, ◌==◌, length,
  inl, inr, arith, Bool-cases, Option-cases,
}
use container_system.Text.{
  is_space, is_line_end, span_space, span_word, strip_prefix, open_braces, second_brace,
  first_brace, close_braces, until_close, match_section, search_section, until_bracket, comma,
  item_kind, item_value, item_end, match_item, Item, find_all,
}
use container_system.Text.Matches.{find_all-miss, find_all-hit}
use container_system.Text.Marks.{
  close_braces-head, starts_mark-same, space-not_brace, starts_mark, EndsAtMark, Inert,
  close_braces-EndsAtMark, until_bracket-Inert, span_space-EndsAtMark, span_word-EndsAtMark,
  AfterComma, comma-EndsAtMark,
}

abbrev ItemInert : Option (Item × Bytes) → Type 0
ItemInert none = Unit
ItemInert (some (it, rest)) = Inert it.item_text

item_end-Inert : (n t s : Bytes) → EndsAtMark s → ItemInert (item_end n t (until_bracket s))
item_end-Inert n t s e = elim (Option-cases (until_bracket s)) [
  | inl f ↦ rw f tt
  | inr ((v, rest), f) ↦ rw f (until_bracket-Inert s v rest e f)
]

item_value-Inert :
    (n : Bytes) (o : Option (Bytes × Bytes)) → AfterComma o → ItemInert (item_value n o)
item_value-Inert n none e = tt
item_value-Inert n (some (t, s)) e = item_end-Inert n t (span_space s).1 (span_space-EndsAtMark s e)

item_kind-Inert : (o : Option (Bytes × Bytes)) → AfterComma o → ItemInert (item_kind o)
item_kind-Inert none e = tt
item_kind-Inert (some (n, s)) e =
    let word : Bytes × Bytes = span_word (span_space s).1 in
    item_value-Inert n (comma word) (
      comma-EndsAtMark word.0 word.1
        (span_word-EndsAtMark (span_space s).1 (span_space-EndsAtMark s e)))

match_item-Inert : (s : Bytes) → EndsAtMark s → ItemInert (match_item s)
unfolding match_item
match_item-Inert [] e = tt
match_item-Inert (c ∷ s) e = elim (Bool-cases (c == b'[')) [
  | inl f ↦ rw f (
      item_kind-Inert (comma (span_word s))
        (comma-EndsAtMark (span_word s).0 (span_word s).1 (span_word-EndsAtMark s e.1)))
  | inr f ↦ rw f tt
]

abbrev pub AllInert : List Item → Type 0
AllInert [] = Unit
AllInert (it ∷ items) = Inert it.item_text × AllInert items

pub find_all-AllInert :
    (skip : ℕ) (s : Bytes) → EndsAtMark s → AllInert (find_all match_item skip s)
unfolding find_all
find_all-AllInert skip [] e = tt
find_all-AllInert (suc skip) (c ∷ s) e = find_all-AllInert skip s e.1
find_all-AllInert zero (c ∷ s) e = elim (Option-cases (match_item (c ∷ s))) [
  | inl f ↦ rw (find_all-miss match_item c s f) (find_all-AllInert zero s e.1)
  | inr ((it, rest), f) ↦
      let first : Inert it.item_text = rw f at (match_item-Inert (c ∷ s) e) in
      rw (find_all-hit match_item c s it rest f)
        (first, find_all-AllInert (length s - length rest) s e.1)
]

-- What is matched begins as the text does.
until_close-starts :
    (c : ℕ) (s v t : Bytes)
    → until_close s ≡ some (v, t)
    → starts_mark (c ∷ (v ++ t)) ≡ starts_mark (c ∷ s)
unfolding until_close
until_close-starts c [] v t h = cc
until_close-starts c (d ∷ s) v t h = elim (Option-cases (close_braces (d ∷ s))) [
  | inr (r, f) ↦
      let (r', g) = close_braces-head d s r f in
      let i : v ≡ [] = ground (arith, f, h) in
      let j : t ≡ d ∷ r' = ground (arith, f, g, h) in rw (i, j) (starts_mark-same c d r' s)
  | inl f ↦ elim (Bool-cases (is_line_end d)) [
    | inl g ↦ ground (arith, f, g, h)
    | inr g ↦ elim (Option-cases (until_close s)) [
      | inl i ↦ ground (arith, f, g, i, h)
      | inr ((w, r), i) ↦
          let j : v ≡ d ∷ w = ground (arith, f, g, i, h) in rw j (starts_mark-same c d (w ++ t) s)
    ]
  ]
]

close_braces-mark : (c : ℕ) (s : Bytes) → close_braces (c ∷ s) ≡ none → starts_mark (c ∷ s) ≡ false
unfolding close_braces is_space
close_braces-mark c [] h = refl
close_braces-mark c (d ∷ s) h = ground (arith, h)

until_close-EndsAtMark : (s v t : Bytes) → until_close s ≡ some (v, t) → EndsAtMark (v ++ t)
unfolding until_close
until_close-EndsAtMark [] v t h = cc
until_close-EndsAtMark (c ∷ s) v t h = elim (Option-cases (close_braces (c ∷ s))) [
  | inr (r, f) ↦
      let i : v ≡ [] = ground (arith, f, h) in
      let j : t ≡ r = ground (arith, f, h) in rw (i, j) (close_braces-EndsAtMark (c ∷ s) r f)
  | inl f ↦ elim (Bool-cases (is_line_end c)) [
    | inl g ↦ ground (arith, f, g, h)
    | inr g ↦ elim (Option-cases (until_close s)) [
      | inl i ↦ ground (arith, f, g, i, h)
      | inr ((w, r), i) ↦
          let j : v ≡ c ∷ w = ground (arith, f, g, i, h) in
          let k : t ≡ r = ground (arith, f, g, i, h) in
          rw (j, k)
            (
              (λ m. ground (arith, m, until_close-starts c s w r i, close_braces-mark c s f)),
              until_close-EndsAtMark s w r i,
            )
    ]
  ]
]

-- A text without a brace.
abbrev pub NoBrace : Bytes → Type 0
NoBrace [] = Unit
NoBrace (c ∷ s) = ((c == b'}') ≡ false) × NoBrace s

NoBrace-mark : (c : ℕ) (s : Bytes) → (c == b'}') ≡ false → starts_mark (c ∷ s) ≡ false
NoBrace-mark c [] h = refl
NoBrace-mark c (d ∷ s) h = rw h refl

EndsAtMark-behind : (s t : Bytes) → NoBrace s → EndsAtMark t → EndsAtMark (s ++ t)
EndsAtMark-behind [] t n e = e
EndsAtMark-behind (c ∷ s) t n e =
    ((λ h. ground (arith, h, NoBrace-mark c (s ++ t) n.0)), EndsAtMark-behind s t n.1 e)

-- What the expressions in front of the group match.
span_space-NoBrace : (s : Bytes) → NoBrace (span_space s).0
unfolding span_space is_space
span_space-NoBrace [] = tt
span_space-NoBrace (c ∷ s) = elim (Bool-cases (is_space c)) [
  | inl e ↦ rw e ((space-not_brace c e), span_space-NoBrace s)
  | inr e ↦ rw e tt
]

NoBrace-append : (s t : Bytes) → NoBrace s → NoBrace t → NoBrace (s ++ t)
NoBrace-append [] t h g = g
NoBrace-append (c ∷ s) t h g = (h.0, NoBrace-append s t h.1 g)

second_brace-NoBrace : (s : Bytes) → NoBrace (second_brace s).0
second_brace-NoBrace [] = tt
second_brace-NoBrace (c ∷ s) = elim (Bool-cases (c == b'{')) [
  | inl e ↦ rw e (refl, span_space-NoBrace s)
  | inr e ↦ rw e (span_space-NoBrace (c ∷ s))
]

first_brace-NoBrace :
    (spaces s opening r : Bytes)
    → NoBrace spaces
    → first_brace spaces s ≡ some (opening, r)
    → NoBrace opening
first_brace-NoBrace spaces [] opening r n h = cc
first_brace-NoBrace spaces (c ∷ s) opening r n h = elim (Bool-cases (c == b'{')) [
  | inl e ↦
      let f : opening ≡ spaces ++ (b'{' ∷ (second_brace s).0) = ground (arith, e, h) in
      rw f (NoBrace-append spaces _ n (refl, second_brace-NoBrace s))
  | inr e ↦ ground (arith, e, h)
]

-- The match of a section ends at its mark.
match_section-EndsAtMark :
    (tag s text inside : Bytes)
    → NoBrace tag
    → match_section tag s ≡ some (text, inside)
    → EndsAtMark text
unfolding match_section open_braces
match_section-EndsAtMark tag s text inside n h = elim (Option-cases (strip_prefix tag s)) [
  | inl e ↦ ground (arith, e, h)
  | inr (r, e) ↦ elim (Option-cases (open_braces r)) [
    | inl f ↦ ground (arith, e, f, h)
    | inr ((opening, q), f) ↦ elim (Option-cases (until_close q)) [
      | inl g ↦ ground (arith, e, f, g, h)
      | inr ((v, t), g) ↦
          let i : text ≡ tag ++ (opening ++ (v ++ t)) = ground (arith, e, f, g, h) in
          rw i (
            EndsAtMark-behind tag _ n (
              EndsAtMark-behind opening _
                (first_brace-NoBrace (span_space r).0 (span_space r).1 opening q
                  (span_space-NoBrace r) f)
                (until_close-EndsAtMark q v t g)))
    ]
  ]
]

pub search_section-EndsAtMark :
    (tag s text inside : Bytes)
    → NoBrace tag
    → search_section tag s ≡ some (text, inside)
    → EndsAtMark text
unfolding search_section
search_section-EndsAtMark tag [] text inside n h = cc
search_section-EndsAtMark tag (c ∷ s) text inside n h =
    elim (Option-cases (match_section tag (c ∷ s))) [
      | inl e ↦ search_section-EndsAtMark tag s text inside n (ground (arith, e, h))
      | inr ((t, v), e) ↦ match_section-EndsAtMark tag (c ∷ s) text inside n (ground (arith, e, h))
    ]
