-- ===== src/Schema/Checks.antt =====
-- The checks of a field in class container_schema (core/container_schema.cpp), each against its constraint.
use container_system.Base.{
  ℕ, zero, suc, ◌≡◌, refl, sym, ◌∙◌, ap, ◌↔◌, inl, inr, Bool, true, false, Option, none, some, List,
  [], ◌∷◌, ◌++◌, append-nil, append_assoc, Bytes, get_elem?, All, ◌===◌, ===_iff, Bool-cases, arith,
}
use container_system.Base.Int.{ℤ}
use container_system.Value.{OptimizedValue}
use container_system.Schema.{Library, Verdict, accepted, rejected, threw, ValidatorFn}
use container_system.Schema.Errors.{ValidationError}
use container_system.Schema.Validate.{
  Errors, report, find_allowed, either_error, int_range_error, double_range_error, length_error,
  match_error, pattern_error, allowed_error, verdict_error, custom_error,
}
use container_system.Schema.Conforms.{InInts, InLengths, InAllowed, InDoubles, Matches}

-- The errors that were appended, of which there are none exactly under a condition.
abbrev pub Reports : Errors → Errors → Type 0 → Type 0
Reports before after C = (new : Errors) × (after ≡ before ++ new) × ((new ≡ []) ↔ C)

pub report-Reports :
    (o : Option ValidationError) (errors : Errors) (C : Type 0)
    → (o ≡ none) ↔ C
    → Reports errors (report o errors).0 C
report-Reports none errors C h = ([], sym (append-nil errors), (λ e. h.0 refl, λ c. refl))
report-Reports (some e) errors C h = (e ∷ [], refl, (λ e. cc, λ c. absurd (let e = h.1 c in cc)))

pub append-empty : (xs ys : Errors) → (xs ++ ys ≡ []) ↔ ((xs ≡ []) × (ys ≡ []))
append-empty [] ys = (λ e. (refl, e), λ h. h.1)
append-empty (x ∷ xs) ys = (λ e. cc, λ h. absurd (let e = h.0 in cc))

pub then-Reports :
    (a b c : Errors) {C D : Type 0} → Reports a b C → Reports b c D → Reports a c (C × D)
then-Reports a b c (m, e, h) (n, f, k) = (
  m ++ n,
  rw (f, e) (append_assoc a m n),
  (
    λ z. let (x, y) = (append-empty m n).0 z in (h.0 x, k.0 y),
    λ p. (append-empty m n).1 (h.1 p.0, k.1 p.1),
  ),
)

pub Reports_iff : (a b : Errors) {C D : Type 0} → C ↔ D → Reports a b C → Reports a b D
Reports_iff a b g (m, e, h) = (m, e, (λ z. g.0 (h.0 z), λ d. h.1 (g.1 d)))

pub either_iff :
    (o p : Option ValidationError) → (either_error o p ≡ none) ↔ ((o ≡ none) × (p ≡ none))
either_iff none p = (λ e. (refl, e), λ h. h.1)
either_iff (some d) p = (λ e. cc, λ h. absurd (let e = h.0 in cc))

find_allowed-position :
    (s : Bytes) (allowed : List Bytes)
    → find_allowed s allowed ≡ true
    → (i : ℕ) × (get_elem? allowed i ≡ some s)
unfolding find_allowed
find_allowed-position s [] e = cc
find_allowed-position s (a ∷ allowed) e = elim (Bool-cases (a === s)) [
  | inl f ↦ (0, ap some ((===_iff a s).0 f))
  | inr f ↦ let (i, g) = find_allowed-position s allowed (ground arith) in (suc i, g)
]

position-find_allowed :
    (s : Bytes) (allowed : List Bytes) (i : ℕ)
    → get_elem? allowed i ≡ some s
    → find_allowed s allowed ≡ true
unfolding find_allowed
position-find_allowed s [] i e = cc
position-find_allowed s (a ∷ allowed) zero e = ground (arith, ===_iff a s)
position-find_allowed s (a ∷ allowed) (suc i) e =
    ground (arith, position-find_allowed s allowed i e)

pub int_range_iff :
    {R : Type 0} (L : Library R) (key : Bytes) (min max x : Option ℤ)
    → (int_range_error L key min max x ≡ none) ↔ InInts min max x
int_range_iff L key none max x = (λ e. tt, λ u. refl)
int_range_iff L key (some min) none x = (λ e. tt, λ u. refl)
int_range_iff L key (some min) (some max) none = (λ e. tt, λ u. refl)
int_range_iff L key (some min) (some max) (some x) = ground arith

pub length_iff :
    {R : Type 0} (L : Library R) (key : Bytes) (min max n : Option ℕ)
    → (length_error L key min max n ≡ none) ↔ InLengths min max n
length_iff L key none max x = (λ e. tt, λ u. refl)
length_iff L key (some min) none x = (λ e. tt, λ u. refl)
length_iff L key (some min) (some max) none = (λ e. tt, λ u. refl)
length_iff L key (some min) (some max) (some n) = ground arith

pub double_range_iff :
    {R : Type 0} (L : Library R) (key : Bytes) (min max x : Option ℕ)
    → (double_range_error L key min max x ≡ none) ↔ InDoubles L min max x
double_range_iff L key none max x = (λ e. tt, λ u. refl)
double_range_iff L key (some min) none x = (λ e. tt, λ u. refl)
double_range_iff L key (some min) (some max) none = (λ e. tt, λ u. refl)
double_range_iff L key (some min) (some max) (some n) = ground arith

pub allowed_iff :
    (key : Bytes) (allowed : Option (List Bytes)) (s : Option Bytes)
    → (allowed_error key allowed s ≡ none) ↔ InAllowed allowed s
allowed_iff key none s = (λ e. tt, λ u. refl)
allowed_iff key (some allowed) none = (λ e. tt, λ u. refl)
allowed_iff key (some allowed) (some s) = (
  λ e. find_allowed-position s allowed (ground arith),
  λ (i, e). rw (position-find_allowed s allowed i e) refl,
)

match_iff :
    (key : Bytes) (p : Option Bytes) (o : Option Bool)
    → (match_error key p o ≡ none) ↔ (o ≡ some true)
match_iff key p none = (λ e. cc, λ e. cc)
match_iff key p (some true) = (λ e. refl, λ e. refl)
match_iff key p (some false) = (λ e. cc, λ e. cc)

pub pattern_iff :
    {R : Type 0} (L : Library R) (key : Bytes) (p : Option Bytes) (r : Option R) (s : Option Bytes)
    → (pattern_error L key p r s ≡ none) ↔ Matches L r s
pattern_iff L key p none s = (λ e. tt, λ u. refl)
pattern_iff L key p (some r) none = (λ e. tt, λ u. refl)
pattern_iff L key p (some r) (some s) = match_iff key p (L.regex_match s r)

verdict_iff : (key : Bytes) (d : Verdict) → (verdict_error key d ≡ none) ↔ (d ≡ accepted)
verdict_iff key accepted = (λ e. refl, λ e. refl)
verdict_iff key (rejected reason) = (λ e. cc, λ e. cc)
verdict_iff key threw = (λ e. cc, λ e. cc)

pub custom_iff :
    (key : Bytes) (v : OptimizedValue) (validators : List ValidatorFn)
    → (custom_error key v validators ≡ none) ↔ All (λ validator. validator v ≡ accepted) validators
unfolding custom_error
custom_iff key v [] = (λ e. tt, λ u. refl)
custom_iff key v (g ∷ validators) =
    let (f, b) = either_iff (verdict_error key (g v)) (custom_error key v validators) in
    (
      λ e. let (x, y) = f e in ((verdict_iff key (g v)).0 x, (custom_iff key v validators).0 y),
      λ (x, y). b ((verdict_iff key (g v)).1 x, (custom_iff key v validators).1 y),
    )

pub Reports-empty : (es : Errors) (C : Type 0) → Reports [] es C → (es ≡ []) ↔ C
Reports-empty es C (new, e, h) = (λ z. h.0 (sym e ∙ z), λ c. e ∙ h.1 c)
