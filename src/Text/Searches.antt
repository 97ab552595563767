-- ===== src/Text/Searches.antt =====
-- What the searches of the reader find in the whole text that the writer makes.
use container_system.Base.{
  ℕ, ◌≡◌, refl, ap, ◌∙◌, false, none, some, List, [], ◌∷◌, ◌++◌, Bytes, codes, ◌==◌, append_assoc,
  arith,
}
use container_system.Text.{
  is_space, is_word, is_line_end, remove_newlines, span_space, strip_prefix, open_braces,
  until_close, match_section, search_section,
}
use container_system.Text.Lines.{IsPlain, IsWord, AllWord}
use container_system.Text.Written.{
  end_text, pairs_text, items_text, PlainPairs, PlainItems, IsWord-IsPlain, until_close-pairs,
  until_close-items, data_text,
}
use container_system.Text.Read.{data_tag, header_tag}

-- No at sign.
abbrev pub NoAt : Bytes → Type 0
NoAt [] = Unit
NoAt (c ∷ s) = ((b'@' == c) ≡ false) × NoAt s

abbrev pub NoAtPairs : List (Bytes × Bytes) → Type 0
NoAtPairs [] = Unit
NoAtPairs ((k, v) ∷ ps) = NoAt v × NoAtPairs ps

search-miss :
    (tag : Bytes) (c : ℕ) (s : Bytes)
    → match_section tag (c ∷ s) ≡ none
    → search_section tag (c ∷ s) ≡ search_section tag s
unfolding search_section
search-miss tag c s e = rw (e, search_section) refl

pub search-hit :
    (tag : Bytes) (c : ℕ) (s : Bytes) (m : Bytes × Bytes)
    → match_section tag (c ∷ s) ≡ some m
    → search_section tag (c ∷ s) ≡ some m
unfolding search_section
search-hit tag c s m e = rw (e, search_section) refl

-- The parts of a match.
pub match_section-parts :
    (tag s r o q v t : Bytes)
    → strip_prefix tag s ≡ some r
    → open_braces r ≡ some (o, q)
    → until_close q ≡ some (v, t)
    → match_section tag s ≡ some (tag ++ (o ++ (v ++ t)), v)
unfolding match_section
match_section-parts tag s r o q v t e f g = ground (arith, e, f, g)

not_data : (c : ℕ) (s : Bytes) → (b'@' == c) ≡ false → match_section data_tag (c ∷ s) ≡ none
unfolding match_section strip_prefix
not_data c s h = ground (arith, h)

search-NoAt : (s r : Bytes) → NoAt s → search_section data_tag (s ++ r) ≡ search_section data_tag r
search-NoAt [] r h = refl
search-NoAt (c ∷ s) r h =
    search-miss data_tag c (s ++ r) (not_data c (s ++ r) h.0) ∙ search-NoAt s r h.1

AllWord-NoAt : (w : Bytes) → AllWord w → NoAt w
unfolding is_word
AllWord-NoAt [] h = tt
AllWord-NoAt (c ∷ w) h = ((ground (arith, h.0)), AllWord-NoAt w h.1)

IsWord-NoAt : (w : Bytes) → IsWord w → NoAt w
IsWord-NoAt [] h = tt
IsWord-NoAt (c ∷ w) h = AllWord-NoAt (c ∷ w) h

search-pairs :
    (ps : List (Bytes × Bytes)) (r : Bytes)
    → PlainPairs ps
    → NoAtPairs ps
    → search_section data_tag (pairs_text ps r) ≡ search_section data_tag r
unfolding search_section match_section strip_prefix
search-pairs [] r h g = refl
search-pairs ((k, v) ∷ ps) r h g =
    search-NoAt k _ (IsWord-NoAt k h.0) ∙ search-NoAt v _ g.0 ∙ search-pairs ps r h.1.1 g.1

remove-plain : (s r : Bytes) → IsPlain s → remove_newlines (s ++ r) ≡ s ++ remove_newlines r
unfolding remove_newlines
remove-plain [] r h = refl
remove-plain (c ∷ s) r h = rw (h.1) (ap (λ q. c ∷ q) (remove-plain s r h.2))

remove-pairs :
    (ps : List (Bytes × Bytes)) (r : Bytes)
    → PlainPairs ps
    → remove_newlines (pairs_text ps r) ≡ pairs_text ps (remove_newlines r)
unfolding remove_newlines is_line_end
remove-pairs [] r h = refl
remove-pairs ((k, v) ∷ ps) r h =
    rw (remove-plain k (b',' ∷ (v ++ (b']' ∷ b';' ∷ pairs_text ps r))) (IsWord-IsPlain k h.0)) (
      rw (remove-plain v (b']' ∷ b';' ∷ pairs_text ps r) h.1.0) (rw (remove-pairs ps r h.1.1) refl))

remove-items :
    (ls : List (Bytes × (Bytes × Bytes))) (r : Bytes)
    → PlainItems ls
    → remove_newlines (items_text ls r) ≡ items_text ls (remove_newlines r)
unfolding remove_newlines is_line_end
remove-items [] r h = refl
remove-items ((n, (t, v)) ∷ ls) r h =
    rw
      (remove-plain n (b',' ∷ (t ++ (b',' ∷ (v ++ (b']' ∷ b';' ∷ items_text ls r)))))
        (IsWord-IsPlain n h.0))
      (rw (remove-plain t (b',' ∷ (v ++ (b']' ∷ b';' ∷ items_text ls r))) (IsWord-IsPlain t h.1.0))
        (rw (remove-plain v (b']' ∷ b';' ∷ items_text ls r) h.1.1.0)
          (rw (remove-items ls r h.1.1.1) refl)))

-- The header in front of the data.
unfoldable pub whole_text : List (Bytes × Bytes) → List (Bytes × (Bytes × Bytes)) → Bytes
whole_text ps ls = codes "@header={{" ++ pairs_text ps (end_text (data_text ls))

pub remove_newlines-whole_text :
    (ps : List (Bytes × Bytes)) (ls : List (Bytes × (Bytes × Bytes)))
    → PlainPairs ps
    → PlainItems ls
    → remove_newlines (whole_text ps ls) ≡ whole_text ps ls
unfolding whole_text data_text remove_newlines is_line_end
remove_newlines-whole_text ps ls h g =
    rw (remove-pairs ps (end_text (data_text ls)) h) (rw (remove-items ls (end_text []) g) refl)

-- A text that begins with no space.
open-pairs :
    (ps : List (Bytes × Bytes)) (r : Bytes)
    → open_braces (b'{' ∷ b'{' ∷ pairs_text ps (end_text r))
      ≡ some (b'{' ∷ b'{' ∷ [], pairs_text ps (end_text r))
unfolding open_braces span_space is_space
open-pairs [] r = refl
open-pairs ((k, v) ∷ ps) r = refl

open-items :
    (ls : List (Bytes × (Bytes × Bytes))) (r : Bytes)
    → open_braces (b'{' ∷ b'{' ∷ items_text ls (end_text r))
      ≡ some (b'{' ∷ b'{' ∷ [], items_text ls (end_text r))
unfolding open_braces span_space is_space
open-items [] r = refl
open-items ((n, (t, v)) ∷ ls) r = refl

items_text-append :
    (ls : List (Bytes × (Bytes × Bytes))) (r : Bytes) → items_text ls [] ++ r ≡ items_text ls r
items_text-append [] r = refl
items_text-append ((n, (t, v)) ∷ ls) r = simp (append_assoc, items_text-append ls r) refl

pub search-data_text :
    (ls : List (Bytes × (Bytes × Bytes)))
    → PlainItems ls
    → search_section data_tag (data_text ls) ≡ some (data_text ls, items_text ls [])
unfolding data_text strip_prefix
search-data_text ls h =
    search-hit data_tag b'@' _ _ (
      match_section-parts data_tag (data_text ls) _ _ _ (items_text ls []) (end_text []) refl
        (open-items ls []) (until_close-items ls [] h))
    ∙ ap (λ (q : Bytes). some (codes "@data={{" ++ q, items_text ls []))
        (items_text-append ls (end_text []))

pub search-header :
    (ps : List (Bytes × Bytes)) (ls : List (Bytes × (Bytes × Bytes)))
    → PlainPairs ps
    → (text : Bytes) × (search_section header_tag (whole_text ps ls)
        ≡ some (text, pairs_text ps []))
unfolding whole_text strip_prefix
search-header ps ls h = (
  codes "@header={{" ++ (pairs_text ps [] ++ end_text []),
  search-hit header_tag b'@' _ _ (
      match_section-parts header_tag (whole_text ps ls) _ _ _ (pairs_text ps []) (end_text []) refl
        (open-pairs ps (data_text ls)) (until_close-pairs ps (data_text ls) h)),
)

not_header : (r : Bytes) → match_section data_tag (codes "@header={{" ++ r) ≡ none
unfolding match_section strip_prefix
not_header r = refl

pub search-whole_text :
    (ps : List (Bytes × Bytes)) (ls : List (Bytes × (Bytes × Bytes)))
    → PlainPairs ps
    → NoAtPairs ps
    → PlainItems ls
    → search_section data_tag (whole_text ps ls) ≡ some (data_text ls, items_text ls [])
unfolding whole_text
search-whole_text ps ls h n g =
    let r : Bytes = pairs_text ps (end_text (data_text ls)) in
    search-miss data_tag b'@' (codes "header={{" ++ r) (not_header r)
    ∙ search-NoAt (codes "header={{") r
        (refl, (refl, (refl, (refl, (refl, (refl, (refl, (refl, (refl, tt)))))))))
    ∙ search-pairs ps (end_text (data_text ls)) h n
    ∙ search-NoAt (codes "}};") (data_text ls) (refl, (refl, (refl, tt)))
    ∙ search-data_text ls g
