-- ===== src/Text/Spaces.antt =====
-- Texts without spaces in front or at the end, described apart from the reader of core/container.cpp.
use container_system.Base.{
  ℕ, ◌≡◌, refl, ap, sym, ◌∙◌, Bool, inl, inr, Bool-cases, [], ◌∷◌, ◌++◌, Bytes, ◌==◌, ◌||◌,
  if◌then◌else◌, arith,
}
use container_system.Text.{is_space, span_space}
use container_system.Text.Read.{trim_start, keep_end, trim_end, trim}

-- A tab, a line end, a vertical tab, a form feed, a carriage return or a space.
abbrev pub whitespace : ℕ → Bool
whitespace c = c == 9 || c == 10 || c == 11 || c == 12 || c == 13 || c == 32

abbrev pub space : ℕ → Bool
space c = c == 32

unfoldable pub without_front : (ℕ → Bool) → Bytes → Bytes
without_front blank [] = []
without_front blank (c ∷ s) = if blank c then without_front blank s else c ∷ s

unfoldable pub backwards : Bytes → Bytes
backwards [] = []
backwards (c ∷ s) = backwards s ++ (c ∷ [])

-- The text without the spaces in front, and then without those that are in front when it is read backwards.
unfoldable pub without_spaces : Bytes → Bytes
without_spaces s = backwards (without_front space (backwards (without_front space s)))

pub span_space-without_front : (s : Bytes) → (span_space s).1 ≡ without_front whitespace s
unfolding span_space is_space without_front
span_space-without_front [] = refl
span_space-without_front (c ∷ s) = ground (arith, span_space-without_front s)

trim_start-without_front : (s : Bytes) → trim_start s ≡ without_front space s
unfolding trim_start without_front
trim_start-without_front [] = refl
trim_start-without_front (c ∷ s) = ground (arith, trim_start-without_front s)

backwards-last : (s : Bytes) (c : ℕ) → backwards (s ++ (c ∷ [])) ≡ c ∷ backwards s
unfolding backwards
backwards-last [] c = refl
backwards-last (d ∷ s) c = ap (λ r. r ++ (d ∷ [])) (backwards-last s c)

keep_end-last : (c d : ℕ) (s : Bytes) → c ∷ (s ++ (d ∷ [])) ≡ keep_end c (s ++ (d ∷ []))
keep_end-last c d [] = refl
keep_end-last c d (b ∷ s) = refl

-- The same behind one more character at the end.
without_front-last :
    (s : Bytes) (c : ℕ)
    → backwards (without_front space (s ++ (c ∷ [])))
      ≡ keep_end c (backwards (without_front space s))
unfolding without_front backwards
without_front-last [] c = ground arith
without_front-last (d ∷ s) c = elim (Bool-cases (space d)) [
  | inl e ↦ rw e (without_front-last s c)
  | inr e ↦ rw e (ap (λ r. r ++ (d ∷ [])) (backwards-last s c) ∙ keep_end-last c d (backwards s))
]

trim_end-backwards : (s : Bytes) → trim_end s ≡ backwards (without_front space (backwards s))
unfolding trim_end backwards without_front
trim_end-backwards [] = refl
trim_end-backwards (c ∷ s) =
    ap (keep_end c) (trim_end-backwards s) ∙ sym (without_front-last (backwards s) c)

pub trim-without_spaces : (s : Bytes) → trim s ≡ without_spaces s
unfolding trim without_spaces
trim-without_spaces s = rw (trim_start-without_front s) (trim_end-backwards (without_front space s))
