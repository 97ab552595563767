-- ===== src/Text/Lines.antt =====
-- How the expressions of the text format run over the lines that the writer makes.
use container_system.Base.{
  ℕ, ◌≡◌, refl, ap, ◌∙◌, true, false, Option, none, some, [], ◌∷◌, ◌++◌, Bytes, ◌==◌, length-append,
  inl, inr, arith, Bool-cases,
}
use container_system.Text.{
  is_space, is_word, is_line_end, remove_newlines, before, span_space, span_word, last_brace,
  close_braces, until_close, close_bracket, until_bracket, comma, match_pair, match_item, Item,
  find_all,
}
use container_system.Text.Matches.{find_all-hit, find_all-skip}

-- No semicolon and no line end.
abbrev pub IsPlain : Bytes → Type 0
IsPlain [] = Unit
IsPlain (c ∷ s) = ((c == b';') ≡ false) × (is_line_end c ≡ false) × IsPlain s

-- Letters, digits and underscores, at least one.
abbrev pub AllWord : Bytes → Type 0
AllWord [] = Unit
AllWord (c ∷ s) = (is_word c ≡ true) × AllWord s

abbrev pub IsWord : Bytes → Type 0
IsWord [] = ⊥
IsWord (c ∷ s) = (is_word c ≡ true) × AllWord s

pub span_word-AllWord :
    (w s : Bytes) (c : ℕ) → AllWord w → is_word c ≡ false → span_word (w ++ (c ∷ s)) ≡ (w, c ∷ s)
unfolding span_word
span_word-AllWord [] s c h e = rw e refl
span_word-AllWord (b ∷ w) s c h e = rw (h.0) (rw (span_word-AllWord w s c h.1 e) refl)

span_space-word : (w s : Bytes) → IsWord w → (span_space (w ++ s)).1 ≡ w ++ s
unfolding span_space is_space is_word
span_space-word [] s h = elim h [ ]
span_space-word (c ∷ w) s h = ground (arith, h.0)

span_space-bracket :
    (v r : Bytes) → (span_space (v ++ (b']' ∷ r))).1 ≡ (span_space v).1 ++ (b']' ∷ r)
unfolding span_space is_space
span_space-bracket [] r = refl
span_space-bracket (c ∷ v) r = elim (Bool-cases (is_space c)) [
  | inl e ↦ rw e (span_space-bracket v r)
  | inr e ↦ rw e refl
]

span_space-IsPlain : (v : Bytes) → IsPlain v → IsPlain (span_space v).1
unfolding span_space
span_space-IsPlain [] h = tt
span_space-IsPlain (c ∷ v) h = elim (Bool-cases (is_space c)) [
  | inl e ↦ rw e (span_space-IsPlain v h.2)
  | inr e ↦ rw e h
]

close_bracket-IsPlain :
    (c : ℕ) (v r : Bytes) → IsPlain v → close_bracket (c ∷ (v ++ (b']' ∷ b';' ∷ r))) ≡ none
close_bracket-IsPlain c [] r h = ground arith
close_bracket-IsPlain c (d ∷ v) r h = ground (arith, h.0)

-- A plain text ends at the first bracket and semicolon.
until_bracket-IsPlain :
    (v r : Bytes) → IsPlain v → until_bracket (v ++ (b']' ∷ b';' ∷ r)) ≡ some (v, r)
unfolding until_bracket
until_bracket-IsPlain [] r h = refl
until_bracket-IsPlain (c ∷ v) r h =
    ground (arith, close_bracket-IsPlain c v r h.2, until_bracket-IsPlain v r h.2, h.1)

last_brace-IsPlain : (s r : Bytes) → IsPlain s → last_brace (s ++ (b']' ∷ r)) ≡ none
last_brace-IsPlain [] r h = refl
last_brace-IsPlain (c ∷ []) r h = ground (arith, h.0)
last_brace-IsPlain (c ∷ d ∷ s) r h = ground (arith, h.0, h.2.0)

close_braces-IsPlain : (s r : Bytes) → IsPlain s → close_braces (s ++ (b']' ∷ r)) ≡ none
unfolding close_braces is_space
close_braces-IsPlain [] r h = refl
close_braces-IsPlain (c ∷ s) r h =
    ground (arith, close_braces-IsPlain s r h.2, last_brace-IsPlain s r h.2)

abbrev pub before_all {ℓ} : {A : Type ℓ} → Bytes → Option (Bytes × A) → Option (Bytes × A)
before_all [] o = o
before_all (c ∷ p) o = before c (before_all p o)

until_close-semicolon :
    (r : Bytes) → until_close (b']' ∷ b';' ∷ r) ≡ before b']' (before b';' (until_close r))
unfolding until_close close_braces is_space is_line_end
until_close-semicolon r = refl

-- The end of a section is not in a line.
pub until_close-IsPlain :
    (s r : Bytes)
    → IsPlain s
    → until_close (s ++ (b']' ∷ b';' ∷ r))
      ≡ before_all s (before b']' (before b';' (until_close r)))
unfolding until_close
until_close-IsPlain [] r h = until_close-semicolon r
until_close-IsPlain (c ∷ s) r h =
    ground (arith, close_braces-IsPlain (c ∷ s) (b';' ∷ r) h, until_close-IsPlain s r h.2, h.1)

comma-IsWord : (w s : Bytes) → IsWord w → comma (w, b',' ∷ s) ≡ some (w, s)
comma-IsWord [] s h = elim h [ ]
comma-IsWord (c ∷ w) s h = refl

IsWord-AllWord : (w : Bytes) → IsWord w → AllWord w
IsWord-AllWord [] h = tt
IsWord-AllWord (c ∷ w) h = h

-- `(\w+),`
word_comma : (w s : Bytes) → IsWord w → comma (span_word (w ++ (b',' ∷ s))) ≡ some (w, s)
unfolding is_word
word_comma w s h = rw (span_word-AllWord w s b',' (IsWord-AllWord w h) refl) (comma-IsWord w s h)

pub match_pair-line :
    (key v r : Bytes)
    → IsWord key
    → IsPlain v
    → match_pair (b'[' ∷ (key ++ (b',' ∷ (v ++ (b']' ∷ b';' ∷ r))))) ≡ some ((key, v), r)
unfolding match_pair
match_pair-line key v r k p =
    rw (word_comma key (v ++ (b']' ∷ b';' ∷ r)) k) (rw (until_bracket-IsPlain v r p) refl)

abbrev pub line_item : Bytes → Bytes → Bytes → Item
line_item n t v = record { item_name = n; item_type = t; item_text = (span_space v).1 }

pub match_item-line :
    (n t v r : Bytes)
    → IsWord n
    → IsWord t
    → IsPlain v
    → match_item (b'[' ∷ (n ++ (b',' ∷ (t ++ (b',' ∷ (v ++ (b']' ∷ b';' ∷ r)))))))
      ≡ some (line_item n t v, r)
unfolding match_item
match_item-line n t v r i j p =
    let s : Bytes = v ++ (b']' ∷ b';' ∷ r) in
    rw (word_comma n (t ++ (b',' ∷ s)) i) (
      rw (span_space-word t (b',' ∷ s) j) (
        rw (word_comma t s j) (
          rw (span_space-bracket v (b';' ∷ r))
            (rw (until_bracket-IsPlain (span_space v).1 r (span_space-IsPlain v p)) refl))))

-- A match of a line `t` in front of `r`, and the search behind it.
pub find_all-line {ℓ} :
    {A : Type ℓ} (match_here : Bytes → Option (A × Bytes)) (c : ℕ) (t r : Bytes) (a : A)
    → match_here (c ∷ (t ++ r)) ≡ some (a, r)
    → find_all match_here 0 (c ∷ (t ++ r)) ≡ a ∷ find_all match_here 0 r
find_all-line match_here c t r a e =
    find_all-hit match_here c (t ++ r) a r e
    ∙ ap (λ (k : ℕ). a ∷ find_all match_here k (t ++ r)) (omega (arith, length-append t r))
    ∙ ap (λ s. a ∷ s) (find_all-skip match_here t r)

remove_newlines-append :
    (s t : Bytes) → remove_newlines (s ++ t) ≡ remove_newlines s ++ remove_newlines t
unfolding remove_newlines
remove_newlines-append [] t = refl
remove_newlines-append (c ∷ s) t = elim (Bool-cases (is_line_end c)) [
  | inl e ↦ rw e (remove_newlines-append s t)
  | inr e ↦ rw e (ap (λ r. c ∷ r) (remove_newlines-append s t))
]
