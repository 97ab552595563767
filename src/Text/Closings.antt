-- ===== src/Text/Closings.antt =====
-- The marks that close a section, found again when the text behind them is longer or shorter.
use container_system.Base.{
  ℕ, ◌≡◌, refl, sym, ap, ◌∙◌, true, false, none, some, [], ◌∷◌, ◌++◌, Bytes, append_assoc,
  append-nil, inl, inr, arith, Bool-cases, Option-cases,
}
use container_system.Text.{is_space, is_line_end, close_braces, until_close}
use container_system.Text.Marks.{
  Closing, spaced, single, double, close_braces-Closing, close_braces-head,
}

-- What closes a section is a part of the text, and is found where it stands in front of any rest.
single-found : (r : Bytes) → close_braces (b'}' ∷ b';' ∷ r) ≡ some (b'}' ∷ b';' ∷ [])
unfolding close_braces is_space
single-found r = refl

double-found : (r : Bytes) → close_braces (b'}' ∷ b'}' ∷ b';' ∷ r) ≡ some (b'}' ∷ b'}' ∷ b';' ∷ [])
unfolding close_braces is_space
double-found r = refl

spaced-found :
    (c : ℕ) (s t : Bytes)
    → is_space c ≡ true
    → close_braces s ≡ some t
    → close_braces (c ∷ s) ≡ some (c ∷ t)
unfolding close_braces
spaced-found c s t e f = ground (arith, e, f)

no_closing : (t : Bytes) → close_braces [] ≡ some t → ⊥
unfolding close_braces
no_closing t h = cc

close_braces-rest :
    (s t : Bytes)
    → close_braces s ≡ some t
    → (r : Bytes) × (s ≡ t ++ r) × ((q : Bytes) → close_braces (t ++ q) ≡ some t)
close_braces-rest [] t h = absurd (no_closing t h)
close_braces-rest (c ∷ s) t h =
    go c s t (close_braces-Closing c s t h) λ u e. close_braces-rest s u e
  where
    go :
        (c : ℕ) (s t : Bytes)
        → Closing c s t
        → ((u : Bytes)
            → close_braces s ≡ some u
            → (r : Bytes) × (s ≡ u ++ r) × ((q : Bytes) → close_braces (u ++ q) ≡ some u))
        → (r : Bytes) × ((c ∷ s) ≡ t ++ r) × ((q : Bytes) → close_braces (t ++ q) ≡ some t)
    go c s t (spaced u e f g) ih =
        let (r, i, j) = ih u f in
        (r, rw g (ap (λ x. c ∷ x) i), (λ q. rw g (spaced-found c (u ++ q) u e (j q))))
    go c s t (single e r f g) ih = (r, rw g (rw (e, f) refl), (λ q. rw g (single-found q)))
    go c s t (double e r f g) ih = (r, rw g (rw (e, f) refl), (λ q. rw g (double-found q)))

-- A text in front of which nothing closes still has nothing that closes when it is cut short.
close_braces-none : (p r : Bytes) → close_braces (p ++ r) ≡ none → close_braces p ≡ none
close_braces-none p r h = elim (Option-cases (close_braces p)) [
  | inl e ↦ e
  | inr (t, e) ↦
      let (r', i, found) = close_braces-rest p t e in
      e
      ∙ sym (found (r' ++ r))
      ∙ ap close_braces (sym (append_assoc t r' r))
      ∙ ap (λ q. close_braces (q ++ r)) (sym i)
      ∙ h
]

until_close-here :
    (c : ℕ) (s t : Bytes) → close_braces (c ∷ s) ≡ some t → until_close (c ∷ s) ≡ some ([], t)
unfolding until_close
until_close-here c s t e = ground (arith, e)

until_close-on :
    (c : ℕ) (s v t : Bytes)
    → close_braces (c ∷ s) ≡ none
    → is_line_end c ≡ false
    → until_close s ≡ some (v, t)
    → until_close (c ∷ s) ≡ some (c ∷ v, t)
unfolding until_close
until_close-on c s v t e f g = ground (arith, e, f, g)

-- What closes is found alone.
closing-alone : (c : ℕ) (s u : Bytes) → close_braces (c ∷ s) ≡ some u → until_close u ≡ some ([], u)
closing-alone c s u f =
    let (r, i, found) = close_braces-rest (c ∷ s) u f in
    let (u', j) = close_braces-head c s u f in
    let k : close_braces (c ∷ u') ≡ some (c ∷ u') =
      rw j at (ap close_braces (sym (append-nil u)) ∙ found []) in
    rw j (until_close-here c u' (c ∷ u') k)

pub until_close-rest :
    (s v t : Bytes)
    → until_close s ≡ some (v, t)
    → (r : Bytes) × (s ≡ (v ++ t) ++ r) × (until_close (v ++ t) ≡ some (v, t))
unfolding until_close
until_close-rest [] v t h = cc
until_close-rest (c ∷ s) v t h = elim (Option-cases (close_braces (c ∷ s))) [
  | inr (u, f) ↦
      let (r, i, found) = close_braces-rest (c ∷ s) u f in
      let j : v ≡ [] = ground (arith, f, h) in
      let k : t ≡ u = ground (arith, f, h) in rw (j, k) (r, i, closing-alone c s u f)
  | inl f ↦ elim (Bool-cases (is_line_end c)) [
    | inl g ↦ ground (arith, f, g, h)
    | inr g ↦ elim (Option-cases (until_close s)) [
      | inl i ↦ ground (arith, f, g, i, h)
      | inr ((w, u), i) ↦
          let (r, j, k) = until_close-rest s w u i in
          let l : v ≡ c ∷ w = ground (arith, f, g, i, h) in
          let m : t ≡ u = ground (arith, f, g, i, h) in
          let n : close_braces (c ∷ (w ++ u)) ≡ none =
            close_braces-none (c ∷ (w ++ u)) r (ap (λ q. close_braces (c ∷ q)) (sym j) ∙ f) in
          rw (l, m) (r, ap (λ q. c ∷ q) j, until_close-on c (w ++ u) w u n g k)
    ]
  ]
]
