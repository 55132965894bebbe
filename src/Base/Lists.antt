-- ===== src/Base/Lists.antt =====
-- Lists: lengths in native numbers, predicates by recursion, membership by a Boolean test,
-- and the counting argument behind quorums.
use Prim.Native.Nat.{ℕ, zero, suc, ◌+◌, ◌≤◌, ◌<◌}
use mathlib.Core.Path.{◌≡◌, refl, sym, ap, ◌∙◌}
use mathlib.Core.Logic.{inl, inr}
use mathlib.Core.Bool.{Bool, true, false}
use mathlib.Core.Option.{Option, none, some}
use mathlib.Core.List.{List, [], ◌∷◌, ◌++◌}
use native.Mathlib.Omega.{arith}
use lab.Base.Tests.{Eq, ◌==◌, if◌then◌else◌, Bool-cases, beq_cases, beq_ne}

module _ {ℓ} {A : Type ℓ} where
  abbrev pub length : List A → ℕ
  length [] = 0
  length (x ∷ xs) = suc (length xs)

  abbrev pub get_elem? : List A → ℕ → Option A
  get_elem? [] i = none
  get_elem? (x ∷ xs) zero = some x
  get_elem? (x ∷ xs) (suc i) = get_elem? xs i

  abbrev pub All {κ} : (A → Type κ) → List A → Type κ
  All P [] = Unit
  All P (x ∷ xs) = P x × All P xs

  pub length-append : (xs ys : List A) → length (xs ++ ys) ≡ length xs + length ys
  length-append [] ys = omega arith
  length-append (x ∷ xs) ys = omega (arith, length-append xs ys)

  pub get_elem?_total : (xs : List A) (i : ℕ) → i < length xs → (a : A) × (get_elem? xs i ≡ some a)
  get_elem?_total [] i h = elim h [ ]
  get_elem?_total (x ∷ xs) zero h = (x, refl)
  get_elem?_total (x ∷ xs) (suc i) h = get_elem?_total xs i (omega arith)

module _ {ℓ κ} {A : Type ℓ} (P : A → Type κ) where
  pub All-append : (xs ys : List A) → All P xs → All P ys → All P (xs ++ ys)
  All-append [] ys h k = k
  All-append (x ∷ xs) ys h k = (h.0, All-append xs ys h.1 k)

module _ {ℓ κ μ} {A : Type ℓ} (P : A → Type κ) (Q : A → Type μ) where
  pub All-map : ((a : A) → P a → Q a) → (xs : List A) → All P xs → All Q xs
  All-map f [] h = tt
  All-map f (x ∷ xs) h = (f x h.0, All-map f xs h.1)

module _ {ℓ} {A : Type ℓ} ⦃e : Eq A⦄ where
  -- `for _, y := range xs { if y == x { return true } }; return false`
  abbrev pub contains : List A → A → Bool
  contains [] x = false
  contains (y ∷ ys) x = if y == x then true else contains ys x

  abbrev pub Distinct : List A → Type 0
  Distinct [] = Unit
  Distinct (x ∷ xs) = (contains xs x ≡ false) × Distinct xs

  -- The members of the first list that the second one has too.
  abbrev pub common : List A → List A → List A
  common [] ys = []
  common (x ∷ xs) ys = if contains ys x then x ∷ common xs ys else common xs ys

  abbrev pub Within : List A → List A → Type 0
  Within ys [] = Unit
  Within ys (x ∷ xs) = (contains ys x ≡ true) × Within ys xs

  -- One copy of a value taken out.
  abbrev pub remove : A → List A → List A
  remove x [] = []
  remove x (y ∷ ys) = if y == x then ys else y ∷ remove x ys

  pub length-remove :
      (x : A) (ys : List A) → contains ys x ≡ true → suc (length (remove x ys)) ≡ length ys
  length-remove x [] h = cc
  length-remove x (y ∷ ys) h = elim (Bool-cases (y == x)) [
    | inl q ↦ rw q
    | inr q ↦ rw q (ap suc (length-remove x ys (rw q at h)))
  ]

  pub contains-remove :
      (x z : A) (ys : List A) → (x == z) ≡ false → contains (remove x ys) z ≡ contains ys z
  contains-remove x z [] h = refl
  contains-remove x z (y ∷ ys) h = elim (beq_cases y x) [
    | inl q ↦ rw (q.0, q.1, h)
    | inr q ↦ rw q.0 (rw (contains-remove x z ys h))
  ]

  Within-remove :
      (x : A) (ys xs : List A) → contains xs x ≡ false → Within ys xs → Within (remove x ys) xs
  Within-remove x ys [] h w = tt
  Within-remove x ys (z ∷ xs) h w = elim (beq_cases z x) [
    | inl q ↦ absurd (cc (rw q.0 at h))
    | inr q ↦ (
      contains-remove x z ys (beq_ne x z (λ p. q.1 (sym p))) ∙ w.0,
      Within-remove x ys xs (rw q.0 at h) w.1,
    )
  ]

  -- Distinct values out of a list are no more than the list.
  pub length-Within : (xs ys : List A) → Distinct xs → Within ys xs → length xs ≤ length ys
  length-Within [] ys d w = omega arith
  length-Within (x ∷ xs) ys d w = omega (
    arith,
    length-remove x ys w.0,
    length-Within xs (remove x ys) d.1 (Within-remove x ys xs d.0 w.1),
  )

  -- Two lists of distinct values out of a third overlap in what they have too many of together.
  pub length-common :
      (xs ys zs : List A)
      → Distinct xs
      → Distinct ys
      → Within zs xs
      → Within zs ys
      → length xs + length ys ≤ length zs + length (common xs ys)
  length-common [] ys zs dx dy wx wy = omega (arith, length-Within ys zs dy wy)
  length-common (x ∷ xs) ys zs dx dy wx wy = elim (Bool-cases (contains ys x)) [
    | inl h ↦ rw h (omega (arith, length-common xs ys zs dx.1 dy wx.1 wy))
    | inr h ↦ rw h (
        omega (
          arith,
          length-remove x zs wx.0,
          length-common xs ys (remove x zs) dx.1 dy (Within-remove x zs xs dx.0 wx.1)
              (Within-remove x zs ys h wy),
        ))
  ]
