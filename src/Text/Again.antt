-- ===== src/Text/Again.antt =====
-- The data section that a search found is found again in the text of the match.
use container_system.Base.{
  ℕ, ◌≡◌, refl, ◌∙◌, false, some, [], ◌∷◌, ◌++◌, Bytes, ◌==◌, append_assoc, inl, inr, arith,
  Bool-cases, Option-cases,
}
use container_system.Text.{
  is_space, span_space, strip_prefix, second_brace, first_brace, open_braces, until_close,
  match_section, search_section,
}
use container_system.Text.Searches.{search-hit, match_section-parts}
use container_system.Text.Closings.{until_close-rest}

-- A text that begins with no space and no brace, as the one behind the opening braces does.
span_space-again :
    (s : Bytes) (d : ℕ) (r q : Bytes)
    → (span_space s).1 ≡ d ∷ r
    → span_space ((span_space s).0 ++ (d ∷ q)) ≡ ((span_space s).0, d ∷ q)
unfolding span_space
span_space-again [] d r q h = cc
span_space-again (c ∷ s) d r q h = elim (Bool-cases (is_space c)) [
  | inl e ↦
      let i : (span_space s).1 ≡ d ∷ r = ground (arith, e, h) in
      rw e (rw (span_space-again s d r q i) (rw e refl))
  | inr e ↦
      let i : c ≡ d = ground (arith, e, h) in
      let j : is_space d ≡ false = rw (← i) e in rw e (rw j refl)
]

-- Behind no second brace, the text begins as it did.
not_second :
    (c : ℕ) (s : Bytes) (d : ℕ) (r q : Bytes)
    → (c == b'{') ≡ false
    → (span_space (c ∷ s)).1 ≡ d ∷ r
    → second_brace ((span_space (c ∷ s)).0 ++ (d ∷ q))
      ≡ span_space ((span_space (c ∷ s)).0 ++ (d ∷ q))
unfolding span_space
not_second c s d r q e h = elim (Bool-cases (is_space c)) [
  | inl f ↦ rw f (rw e (rw f refl))
  | inr f ↦
      let i : c ≡ d = ground (arith, f, h) in
      let j : (d == b'{') ≡ false = rw (← i) e in rw f (rw j refl)
]

second_brace-again :
    (s : Bytes) (d : ℕ) (r q : Bytes)
    → (second_brace s).1 ≡ d ∷ r
    → second_brace ((second_brace s).0 ++ (d ∷ q)) ≡ ((second_brace s).0, d ∷ q)
second_brace-again [] d r q h = cc
second_brace-again (c ∷ s) d r q h = elim (Bool-cases (c == b'{')) [
  | inl e ↦
      let i : (span_space s).1 ≡ d ∷ r = ground (arith, e, h) in
      rw e (rw (span_space-again s d r q i) refl)
  | inr e ↦
      let i : (span_space (c ∷ s)).1 ≡ d ∷ r = ground (arith, e, h) in
      rw e (not_second c s d r q e i ∙ span_space-again (c ∷ s) d r q i)
]

first_brace-again :
    (s spaces s' o : Bytes) (d : ℕ) (r q : Bytes)
    → (span_space s).0 ≡ spaces
    → (span_space s).1 ≡ s'
    → first_brace spaces s' ≡ some (o, d ∷ r)
    → open_braces (o ++ (d ∷ q)) ≡ some (o, d ∷ q)
unfolding open_braces
first_brace-again s spaces [] o d r q e f h = cc
first_brace-again s spaces (c ∷ s') o d r q e f h = elim (Bool-cases (c == b'{')) [
  | inr g ↦ ground (arith, g, h)
  | inl g ↦
      let i : o ≡ spaces ++ (b'{' ∷ (second_brace s').0) = ground (arith, g, h) in
      let j : (second_brace s').1 ≡ d ∷ r = ground (arith, g, h) in
      let k : c ≡ b'{' = ground (arith, g) in
      let x : Bytes = (second_brace s').0 in
      let l : span_space (spaces ++ (b'{' ∷ (x ++ (d ∷ q)))) ≡ (spaces, b'{' ∷ (x ++ (d ∷ q))) =
        rw (← e) (span_space-again s b'{' s' (x ++ (d ∷ q)) (rw (← k) f)) in
      rw i (
        rw (append_assoc spaces (b'{' ∷ x) (d ∷ q))
          (rw l (rw (second_brace-again s' d r q j) refl)))
]

pub open_braces-again :
    (s o : Bytes) (d : ℕ) (r q : Bytes)
    → open_braces s ≡ some (o, d ∷ r)
    → open_braces (o ++ (d ∷ q)) ≡ some (o, d ∷ q)
unfolding open_braces
open_braces-again s o d r q h =
    first_brace-again s (span_space s).0 (span_space s).1 o d r q refl refl h

strip_prefix-again : (p s : Bytes) → strip_prefix p (p ++ s) ≡ some s
unfolding strip_prefix
strip_prefix-again [] s = refl
strip_prefix-again (c ∷ p) s = ground (arith, strip_prefix-again p s)

no_end : (m : Bytes × Bytes) → until_close [] ≡ some m → ⊥
unfolding until_close
no_end m h = cc

-- The match of a section is matched as a whole.
whole-again :
    (tag r o q v t : Bytes)
    → open_braces r ≡ some (o, q)
    → until_close q ≡ some (v, t)
    → match_section tag (tag ++ (o ++ (v ++ t))) ≡ some (tag ++ (o ++ (v ++ t)), v)
whole-again tag r o q v t e f =
    let (rest, i, k) = until_close-rest q v t f in behind (v ++ t) rest refl (rw i at e) k
  where
    behind :
        (w rest : Bytes)
        → w ≡ v ++ t
        → open_braces r ≡ some (o, (v ++ t) ++ rest)
        → until_close (v ++ t) ≡ some (v, t)
        → match_section tag (tag ++ (o ++ (v ++ t))) ≡ some (tag ++ (o ++ (v ++ t)), v)
    behind [] rest h g k = absurd (no_end (v, t) (rw (← h) at k))
    behind (d ∷ x) rest h g k =
        match_section-parts tag (tag ++ (o ++ (v ++ t))) (o ++ (v ++ t)) o (v ++ t) v t
          (strip_prefix-again tag (o ++ (v ++ t)))
          (rw (← h) (open_braces-again r o d (x ++ rest) x (rw (← h) at g))) k

match_section-again :
    (tag s text inside : Bytes)
    → match_section tag s ≡ some (text, inside)
    → match_section tag text ≡ some (text, inside)
unfolding match_section
match_section-again tag s text inside h = elim (Option-cases (strip_prefix tag s)) [
  | inl e ↦ ground (arith, e, h)
  | inr (r, e) ↦ elim (Option-cases (open_braces r)) [
    | inl f ↦ ground (arith, e, f, h)
    | inr ((o, q), f) ↦ elim (Option-cases (until_close q)) [
      | inl g ↦ ground (arith, e, f, g, h)
      | inr ((v, t), g) ↦
          let i : text ≡ tag ++ (o ++ (v ++ t)) = ground (arith, e, f, g, h) in
          let j : inside ≡ v = ground (arith, e, f, g, h) in
          rw (i, j) (whole-again tag r o q v t f g)
    ]
  ]
]

match-search :
    (d : ℕ) (tag p : Bytes) (m : Bytes × Bytes)
    → match_section (d ∷ tag) p ≡ some m
    → search_section (d ∷ tag) p ≡ some m
unfolding match_section strip_prefix
match-search d tag [] m h = cc
match-search d tag (c ∷ s) m h = search-hit (d ∷ tag) c s m h

-- Searching the text of a match again gives the match.
pub search_section-again :
    (d : ℕ) (tag s text inside : Bytes)
    → search_section (d ∷ tag) s ≡ some (text, inside)
    → search_section (d ∷ tag) text ≡ some (text, inside)
unfolding search_section
search_section-again d tag [] text inside h = cc
search_section-again d tag (c ∷ s) text inside h =
    elim (Option-cases (match_section (d ∷ tag) (c ∷ s))) [
      | inl e ↦ search_section-again d tag s text inside (ground (arith, e, h))
      | inr ((t, v), e) ↦
          match-search d tag text (text, inside)
            (match_section-again (d ∷ tag) (c ∷ s) text inside (ground (arith, e, h)))
    ]
