-- ===== src/Base/Maps.antt =====
-- Go's maps as association lists with one entry for each key.
use Prim.Native.Nat.{ℕ, suc, ◌≤◌, ◌+◌}
use mathlib.Core.Path.{◌≡◌, refl, ap, subst}
use mathlib.Core.Logic.{inl, inr}
use mathlib.Core.Bool.{Bool, true}
use mathlib.Core.Option.{Option, none, some, some-injective}
use mathlib.Core.List.{List, [], ◌∷◌}
use native.Mathlib.Omega.{arith}
use lab.Base.Tests.{Eq, ◌==◌, if◌then◌else◌, Bool-cases, beq_cases, beq_self, beq_ne}
use lab.Base.Lists.{length, contains, Distinct}

abbrev pub Map {ℓ κ} : Type ℓ → Type κ → Type (ℓ ⊔ κ)
Map K V = List (K × V)

abbrev pub size {ℓ κ} : {K : Type ℓ} {V : Type κ} → Map K V → ℕ
size m = length m

abbrev pub keys {ℓ κ} : {K : Type ℓ} {V : Type κ} → Map K V → List K
keys [] = []
keys ((k, v) ∷ m) = k ∷ keys m

pub length-keys {ℓ κ} : {K : Type ℓ} {V : Type κ} (m : Map K V) → length (keys m) ≡ size m
length-keys [] = refl
length-keys ((k, v) ∷ m) = ap suc (length-keys m)

module _ {ℓ κ} {K : Type ℓ} {V : Type κ} where
  -- `for k := range m { if test(k) { delete(m, k) } }`
  unfoldable pub delete_where : (K → Bool) → Map K V → Map K V
  delete_where test [] = []
  delete_where test ((k, v) ∷ m) =
      if test k then delete_where test m else (k, v) ∷ delete_where test m

module _ {ℓ κ} {K : Type ℓ} {V : Type κ} ⦃e : Eq K⦄ where
  -- `v, exists := m[k]`
  unfoldable pub lookup : K → Map K V → Option V
  lookup key [] = none
  lookup key ((first, v) ∷ others) = if first == key then some v else lookup key others

  -- `m[k] = v`
  unfoldable pub insert : K → V → Map K V → Map K V
  insert key value [] = (key, value) ∷ []
  insert key value ((first, old) ∷ others) =
      if first == key then (first, value) ∷ others else (first, old) ∷ insert key value others

  -- `delete(m, k)`
  unfoldable pub delete : K → Map K V → Map K V
  unfolding delete_where
  delete k m = delete_where (λ j. j == k) m

  pub lookup-insert :
      (key asked : K) (value : V) (entries : Map K V)
      → lookup asked (insert key value entries)
        ≡ (if key == asked then some value else lookup asked entries)
  unfolding lookup insert
  lookup-insert key asked value [] = refl
  lookup-insert key asked value ((first, old) ∷ others) = elim (beq_cases first key) [
    | inl same ↦
        rw (same.0, same.1) (elim (Bool-cases (key == asked)) [ inl q ↦ rw q | inr q ↦ rw q ])
    | inr apart ↦ rw apart.0 (elim (beq_cases first asked) [
      | inl found ↦ rw (found.0, beq_ne key asked (λ r. apart.1 (cc)))
      | inr other ↦ rw other.0 (lookup-insert key asked value others)
    ])
  ]

  pub lookup-insert_self : (k : K) (v : V) (m : Map K V) → lookup k (insert k v m) ≡ some v
  lookup-insert_self k v m = rw (lookup-insert k k v m, beq_self k)

  pub lookup-delete_where :
      (test : K → Bool) (k : K) (m : Map K V)
      → lookup k (delete_where test m) ≡ (if test k then none else lookup k m)
  unfolding lookup delete_where
  lookup-delete_where test k [] = elim (Bool-cases (test k)) [ inl q ↦ rw q | inr q ↦ rw q ]
  lookup-delete_where test k ((j, v) ∷ m) = elim (beq_cases j k) [
    | inl p ↦ rw p.1 (elim (Bool-cases (test k)) [
      | inl q ↦ rw (q, lookup-delete_where test k m, q)
      | inr q ↦ rw (q, beq_self k)
    ])
    | inr p ↦ elim (Bool-cases (test j)) [
      | inl q ↦ rw (q, p.0) (lookup-delete_where test k m)
      | inr q ↦ rw (q, p.0) (lookup-delete_where test k m)
    ]
  ]

  -- One entry for each key.
  abbrev pub IsMap : Map K V → Type 0
  IsMap m = Distinct (keys m)

  contains-keys-insert :
      (k j : K) (v : V) (m : Map K V)
      → contains (keys (insert k v m)) j ≡ (if k == j then true else contains (keys m) j)
  unfolding insert
  contains-keys-insert k j v [] = refl
  contains-keys-insert k j v ((i, w) ∷ m) = elim (beq_cases i k) [
    | inl p ↦ rw (p.0, p.1) (elim (Bool-cases (k == j)) [ inl q ↦ rw q | inr q ↦ rw q ])
    | inr p ↦ rw p.0 (elim (beq_cases i j) [
      | inl q ↦ rw (q.0, beq_ne k j (λ r. p.1 (cc)))
      | inr q ↦ rw q.0 (contains-keys-insert k j v m)
    ])
  ]

  pub insert-IsMap : (k : K) (v : V) (m : Map K V) → IsMap m → IsMap (insert k v m)
  unfolding insert
  insert-IsMap k v [] h = (refl, tt)
  insert-IsMap k v ((j, w) ∷ m) h = elim (beq_cases j k) [
    | inl p ↦ rw p.0 h
    | inr p ↦
        rw p.0 (
          rw (contains-keys-insert k j v m, beq_ne k j (λ r. p.1 (cc))) h.0,
          insert-IsMap k v m h.1,
        )
  ]

  pub lookup-keys :
      (k : K) (m : Map K V) → contains (keys m) k ≡ true → (v : V) × (lookup k m ≡ some v)
  unfolding lookup
  lookup-keys k [] h = absurd (cc)
  lookup-keys k ((j, v) ∷ m) h = elim (beq_cases j k) [
    | inl p ↦ (v, rw p.0)
    | inr p ↦ rw p.0 (lookup-keys k m (rw p.0 at h))
  ]

  pub size-insert-le : (k : K) (v : V) (m : Map K V) → size m ≤ size (insert k v m)
  unfolding insert
  size-insert-le k v [] = omega arith
  size-insert-le k v ((j, w) ∷ m) = elim (Bool-cases (j == k)) [
    | inl p ↦ rw p (omega arith)
    | inr p ↦ rw p (omega (arith, size-insert-le k v m))
  ]

  pub size-insert_new :
      (k : K) (v : V) (m : Map K V) → lookup k m ≡ none → size (insert k v m) ≡ size m + 1
  unfolding lookup insert
  size-insert_new k v [] h = omega arith
  size-insert_new k v ((j, w) ∷ m) h = elim (Bool-cases (j == k)) [
    | inl p ↦ absurd (cc (rw p at h))
    | inr p ↦ rw p (omega (arith, size-insert_new k v m (rw p at h)))
  ]

  -- What holds of every entry of a map holds of every entry behind an insertion of one that has it.
  pub insert-lookup :
      (P : K → V → Type 0) (k : K) (v : V) (m : Map K V)
      → ((j : K) (w : V) → lookup j m ≡ some w → P j w)
      → P k v
      → (j : K) (w : V) → lookup j (insert k v m) ≡ some w
      → P j w
  insert-lookup P k v m h new j w e = elim (beq_cases k j) [
    | inl same ↦
        let here : some v ≡ some w = rw (lookup-insert k j v m, same.0) at e in
        subst (λ i. P i w) same.1 (subst (P k) (some-injective _ _ here) new)
    | inr apart ↦ h j w (rw (lookup-insert k j v m, apart.0) at e)
  ]
