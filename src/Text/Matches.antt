-- ===== src/Text/Matches.antt =====
-- One step of `sregex_iterator`.
use container_system.Base.{ℕ, ◌-◌, ◌≡◌, refl, Option, none, some, [], ◌∷◌, ◌++◌, Bytes, length}
use container_system.Text.{find_all}

module _ {ℓ} {A : Type ℓ} (match_here : Bytes → Option (A × Bytes)) where
  pub find_all-miss :
      (c : ℕ) (s : Bytes)
      → match_here (c ∷ s) ≡ none
      → find_all match_here 0 (c ∷ s) ≡ find_all match_here 0 s
  unfolding find_all
  find_all-miss c s e = rw (e, find_all) refl

  pub find_all-hit :
      (c : ℕ) (s : Bytes) (a : A) (rest : Bytes)
      → match_here (c ∷ s) ≡ some (a, rest)
      → find_all match_here 0 (c ∷ s) ≡ a ∷ find_all match_here (length s - length rest) s
  unfolding find_all
  find_all-hit c s a rest e = rw (e, find_all) refl

  pub find_all-skip :
      (t s : Bytes) → find_all match_here (length t) (t ++ s) ≡ find_all match_here 0 s
  unfolding find_all
  find_all-skip [] s = refl
  find_all-skip (c ∷ t) s = find_all-skip t s
