-- ===== src/Text/Written.antt =====
-- The texts that the writer makes of pairs and of items, and what the searches of the reader find in
-- them.
use container_system.Base.{
  ◌≡◌, refl, sym, ap, ◌∙◌, Option, some, List, [], ◌∷◌, ◌++◌, Bytes, codes, append_assoc, arith,
}
use container_system.Text.{
  is_space, is_word, is_line_end, before, until_close, close_braces, match_pair, match_item, Item,
  find_all, find_pairs, find_items,
}
use container_system.Text.Lines.{
  IsPlain, IsWord, AllWord, before_all, until_close-IsPlain, match_pair-line, match_item-line,
  line_item, find_all-line,
}

abbrev pub end_text : Bytes → Bytes
end_text r = b'}' ∷ b'}' ∷ b';' ∷ r

-- Lines of a key and a value, in front of `r`.
abbrev pub pairs_text : List (Bytes × Bytes) → Bytes → Bytes
pairs_text [] r = r
pairs_text ((k, v) ∷ ps) r = b'[' ∷ (k ++ (b',' ∷ (v ++ (b']' ∷ b';' ∷ pairs_text ps r))))

-- Lines of a name, a type and a value, in front of `r`.
abbrev pub items_text : List (Bytes × (Bytes × Bytes)) → Bytes → Bytes
items_text [] r = r
items_text ((n, (t, v)) ∷ ls) r =
    b'[' ∷ (n ++ (b',' ∷ (t ++ (b',' ∷ (v ++ (b']' ∷ b';' ∷ items_text ls r))))))

abbrev pub PlainPairs : List (Bytes × Bytes) → Type 0
PlainPairs [] = Unit
PlainPairs ((k, v) ∷ ps) = IsWord k × (IsPlain v × PlainPairs ps)

abbrev pub PlainItems : List (Bytes × (Bytes × Bytes)) → Type 0
PlainItems [] = Unit
PlainItems ((n, (t, v)) ∷ ls) = IsWord n × (IsWord t × (IsPlain v × PlainItems ls))

AllWord-IsPlain : (w : Bytes) → AllWord w → IsPlain w
unfolding is_word is_line_end
AllWord-IsPlain [] h = tt
AllWord-IsPlain (c ∷ w) h = ((ground (arith, h.0)), (ground (arith, h.0)), AllWord-IsPlain w h.1)

pub IsWord-IsPlain : (w : Bytes) → IsWord w → IsPlain w
IsWord-IsPlain [] h = tt
IsWord-IsPlain (c ∷ w) h = AllWord-IsPlain (c ∷ w) h

IsPlain-append : (s t : Bytes) → IsPlain s → IsPlain t → IsPlain (s ++ t)
IsPlain-append [] t h g = g
IsPlain-append (c ∷ s) t h g = (h.0, h.1, IsPlain-append s t h.2 g)

before_all-some :
    (s x y : Bytes)
    → before_all s (before b']' (before b';' (some (x, y)))) ≡ some (s ++ (b']' ∷ b';' ∷ x), y)
before_all-some [] x y = refl
before_all-some (c ∷ s) x y = rw (before_all-some s x y) refl

-- A plain line in front of what closes the section.
until_close-line :
    (s r x y : Bytes)
    → IsPlain s
    → until_close r ≡ some (x, y)
    → until_close (s ++ (b']' ∷ b';' ∷ r)) ≡ some (s ++ (b']' ∷ b';' ∷ x), y)
until_close-line s r x y p e =
    until_close-IsPlain s r p
    ∙ ap (λ o. before_all s (before b']' (before b';' o))) e
    ∙ before_all-some s x y

until_close-end : (r : Bytes) → until_close (end_text r) ≡ some ([], end_text [])
unfolding until_close close_braces is_space
until_close-end r = refl

pub until_close-pairs :
    (ps : List (Bytes × Bytes)) (r : Bytes)
    → PlainPairs ps
    → until_close (pairs_text ps (end_text r)) ≡ some (pairs_text ps [], end_text [])
unfolding is_line_end
until_close-pairs [] r h = until_close-end r
until_close-pairs ((k, v) ∷ ps) r h =
    let s : Bytes = b'[' ∷ (k ++ (b',' ∷ v)) in
    let p : IsPlain s =
      (refl, refl, IsPlain-append k (b',' ∷ v) (IsWord-IsPlain k h.0) (refl, refl, h.1.0)) in
    let e : until_close (s ++ (b']' ∷ b';' ∷ pairs_text ps (end_text r)))
        ≡ some (s ++ (b']' ∷ b';' ∷ pairs_text ps []), end_text []) =
      until_close-line s _ _ _ p (until_close-pairs ps r h.1.1) in
    simp append_assoc at e

pub until_close-items :
    (ls : List (Bytes × (Bytes × Bytes))) (r : Bytes)
    → PlainItems ls
    → until_close (items_text ls (end_text r)) ≡ some (items_text ls [], end_text [])
unfolding is_line_end
until_close-items [] r h = until_close-end r
until_close-items ((n, (t, v)) ∷ ls) r h =
    let s : Bytes = b'[' ∷ (n ++ (b',' ∷ (t ++ (b',' ∷ v)))) in
    let q : IsPlain (t ++ (b',' ∷ v)) =
      IsPlain-append t (b',' ∷ v) (IsWord-IsPlain t h.1.0) (refl, refl, h.1.1.0) in
    let p : IsPlain s = (refl, refl, IsPlain-append n _ (IsWord-IsPlain n h.0) (refl, refl, q)) in
    let e : until_close (s ++ (b']' ∷ b';' ∷ items_text ls (end_text r)))
        ≡ some (s ++ (b']' ∷ b';' ∷ items_text ls []), end_text []) =
      until_close-line s _ _ _ p (until_close-items ls r h.1.1.1) in
    simp append_assoc at e

-- A text of that form, cut behind its line.
match-line {ℓ} :
    {A : Type ℓ} (match_here : Bytes → Option (A × Bytes)) (t r s : Bytes) (a : A)
    → t ++ r ≡ s
    → match_here (b'[' ∷ s) ≡ some (a, r)
    → find_all match_here 0 (b'[' ∷ s) ≡ a ∷ find_all match_here 0 r
match-line match_here t r s a e m =
    ap (λ q. find_all match_here 0 (b'[' ∷ q)) (sym e)
    ∙ find_all-line match_here b'[' t r a (ap (λ q. match_here (b'[' ∷ q)) e ∙ m)

pub find_pairs-text :
    (ps : List (Bytes × Bytes)) → PlainPairs ps → find_pairs (pairs_text ps []) ≡ ps
unfolding find_pairs find_all
find_pairs-text [] h = refl
find_pairs-text ((k, v) ∷ ps) h =
    match-line match_pair (k ++ (b',' ∷ (v ++ (b']' ∷ b';' ∷ [])))) (pairs_text ps []) _ (k, v)
      (simp append_assoc refl) (match_pair-line k v _ h.0 h.1.0)
    ∙ ap (λ qs. (k, v) ∷ qs) (find_pairs-text ps h.1.1)

-- The items that the lines make.
abbrev pub items_of : List (Bytes × (Bytes × Bytes)) → List Item
items_of [] = []
items_of ((n, (t, v)) ∷ ls) = line_item n t v ∷ items_of ls

find_items-text :
    (ls : List (Bytes × (Bytes × Bytes)))
    → PlainItems ls
    → find_all match_item 0 (items_text ls (end_text [])) ≡ items_of ls
unfolding find_all match_item
find_items-text [] h = refl
find_items-text ((n, (t, v)) ∷ ls) h =
    match-line match_item (n ++ (b',' ∷ (t ++ (b',' ∷ (v ++ (b']' ∷ b';' ∷ []))))))
      (items_text ls (end_text [])) _ (line_item n t v) (simp append_assoc refl)
      (match_item-line n t v _ h.0 h.1.0 h.1.1.0)
    ∙ ap (λ qs. line_item n t v ∷ qs) (find_items-text ls h.1.1.1)

-- The section of the items.
unfoldable pub data_text : List (Bytes × (Bytes × Bytes)) → Bytes
data_text ls = codes "@data={{" ++ items_text ls (end_text [])

pub find_items-data_text :
    (ls : List (Bytes × (Bytes × Bytes))) → PlainItems ls → find_items (data_text ls) ≡ items_of ls
unfolding find_items find_all match_item data_text
find_items-data_text ls h = find_items-text ls h
