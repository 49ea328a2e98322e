-- ===== src/Common/Sort.antt =====
-- `sort_by_key` of the standard library: a stable sort by a numeric key, written as an
-- insertion sort.
use mathlib.Core.Path.{ap₂}
use mathlib.Core.Logic.{∥∥₁_elim}
use mathlib.Core.List.{Perm, Permᴰ}
use stwo_starknet_verifier.Common.{
  ℕ, ◌+◌, ◌≡◌, ◌≤◌, ◌<◌, ◌≢◌, refl, ap, subst, ◌∙◌, sym, List, [], ◌∷◌, leb, if◌then◌else◌, arith,
}

module _ {ℓ} {A : Type ℓ} (key : A → ℕ) where
  -- In front of the first entry with a larger key.
  unfoldable pub insert_by_key : A → List A → List A
  insert_by_key x [] = x ∷ []
  insert_by_key x (y ∷ ys) = if leb (key x) (key y) then x ∷ y ∷ ys else y ∷ insert_by_key x ys

  unfoldable pub sort_by_key : List A → List A
  sort_by_key [] = []
  sort_by_key (x ∷ xs) = insert_by_key x (sort_by_key xs)

  -- The first key is at least `n`, and keys grow strictly.
  abbrev pub Ascending : ℕ → List A → Type 0
  Ascending n [] = Unit
  Ascending n (x ∷ xs) = (n ≤ key x) × Ascending (key x + 1) xs

  -- No entry has this key.
  abbrev pub Fresh : ℕ → List A → Type 0
  Fresh n [] = Unit
  Fresh n (x ∷ xs) = (n ≢ key x) × Fresh n xs

  abbrev pub Distinct : List A → Type 0
  Distinct [] = Unit
  Distinct (x ∷ xs) = Fresh (key x) xs × Distinct xs

  Ascending-mono : (m n : ℕ) (xs : List A) → m ≤ n → Ascending n xs → Ascending m xs
  Ascending-mono m n [] h a = tt
  Ascending-mono m n (x ∷ xs) h a = (omega arith, a.1)

  -- A list in order stays as it is.
  pub sort_by_key-Ascending : (n : ℕ) (xs : List A) → Ascending n xs → sort_by_key xs ≡ xs
  unfolding sort_by_key insert_by_key
  sort_by_key-Ascending n [] a = refl
  sort_by_key-Ascending n (x ∷ []) a = refl
  sort_by_key-Ascending n (x ∷ y ∷ ys) a =
      ap (insert_by_key x) (sort_by_key-Ascending (key x + 1) (y ∷ ys) a.1) ∙ ground arith

  -- Two insertions under different keys commute.
  pub insert_by_key_comm :
      (x y : A) (zs : List A)
      → key x ≢ key y
      → insert_by_key x (insert_by_key y zs) ≡ insert_by_key y (insert_by_key x zs)
  unfolding insert_by_key
  insert_by_key_comm x y [] n = ground arith
  insert_by_key_comm x y (z ∷ zs) n = ground (arith, insert_by_key_comm x y zs n)

  Fresh-Permᴰ : (n : ℕ) {xs ys : List A} → Permᴰ xs ys → Fresh n xs → Fresh n ys
  Fresh-Permᴰ n Permᴰ.nil d = tt
  Fresh-Permᴰ n (Permᴰ.cons e p) d = (λ same. d.0 (same ∙ sym (ap key e)), Fresh-Permᴰ n p d.1)
  Fresh-Permᴰ n (Permᴰ.swap e f) d =
      (λ same. d.1.0 (same ∙ sym (ap key f)), (λ same. d.0 (same ∙ sym (ap key e)), d.1.1))
  Fresh-Permᴰ n (Permᴰ.trans p q) d = Fresh-Permᴰ n q (Fresh-Permᴰ n p d)

  sort-Permᴰ :
      {xs ys : List A} → Permᴰ xs ys → Distinct xs → Distinct ys × (sort_by_key xs ≡ sort_by_key ys)
  unfolding sort_by_key
  sort-Permᴰ Permᴰ.nil d = (tt, refl)
  sort-Permᴰ (Permᴰ.cons {l₂ = l₂} e p) d =
      let (distinct, same) = sort-Permᴰ p d.1 in
      ((subst (λ x. Fresh (key x) l₂) e (Fresh-Permᴰ _ p d.0), distinct), ap₂ insert_by_key e same)
  sort-Permᴰ (Permᴰ.swap {a = a} {b = b} {l = l} e f) d = (
    (
      (λ same. d.0.0 (ap key e ∙ sym same ∙ sym (ap key f)), subst (λ x. Fresh (key x) l) f d.1.0),
      (subst (λ x. Fresh (key x) l) e d.0.1, d.1.1),
    ),
    insert_by_key_comm a b (sort_by_key l) d.0.0
        ∙ ap₂ (λ x y. insert_by_key x (insert_by_key y (sort_by_key l))) f e,
  )
  sort-Permᴰ (Permᴰ.trans p q) d =
      let (distinct, same) = sort-Permᴰ p d in
      let (distinct', same') = sort-Permᴰ q distinct in (distinct', same ∙ same')

  -- Where the keys are distinct, the sorted list does not depend on the order of the entries.
  pub sort_by_key-perm :
      {xs ys : List A} → IsSet (List A) → Perm xs ys → Distinct xs → sort_by_key xs ≡ sort_by_key ys
  sort_by_key-perm set p d = ∥∥₁_elim p (set _ _) (λ q. (sort-Permᴰ q d).1)

  Fresh-Ascending : (m n : ℕ) (xs : List A) → m < n → Ascending n xs → Fresh m xs
  Fresh-Ascending m n [] h a = tt
  Fresh-Ascending m n (x ∷ xs) h a =
      (omega arith, Fresh-Ascending m (key x + 1) xs (omega arith) a.1)

  pub Ascending-Distinct : (n : ℕ) (xs : List A) → Ascending n xs → Distinct xs
  Ascending-Distinct n [] a = tt
  Ascending-Distinct n (x ∷ xs) a = (
    Fresh-Ascending (key x) (key x + 1) xs (omega arith) a.1,
    Ascending-Distinct (key x + 1) xs a.1,
  )
