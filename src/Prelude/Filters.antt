-- ===== src/Prelude/Filters.antt =====
-- Filters and searches on lists.
use mathlib.Core.Path.{◌≡◌, refl}
use mathlib.Core.Logic.{inl, inr}
use mathlib.Core.Bool.{Bool, true, false}
use mathlib.Core.List.{List, [], ◌∷◌, ◌++◌}
use mathlib.Core.Option.{some}
use native.Mathlib.Omega.{arith}
use ghost_bazaar.Prelude.Tests.{Bool-cases}
use ghost_bazaar.Prelude.Lists.{All, find, keep}

module _ {ℓ} {A : Type ℓ} where
  pub All-keep {κ} : (P : A → Type κ) (p : A → Bool) (xs : List A) → All P xs → All P (keep p xs)
  unfolding keep
  All-keep P p [] h = tt
  All-keep P p (x ∷ xs) (hx, h) = elim (Bool-cases (p x)) [
    | inl e ↦ rw e (hx, All-keep P p xs h)
    | inr e ↦ rw e (All-keep P p xs h)
  ]

  pub All-both {κ} :
      (P : A → Type κ) (p : A → Bool) (xs : List A)
      → All P xs
      → All (λ a. P a × (p a ≡ true)) (keep p xs)
  unfolding keep
  All-both P p [] h = tt
  All-both P p (x ∷ xs) (hx, h) = elim (Bool-cases (p x)) [
    | inl e ↦ rw e ((hx, e), All-both P p xs h)
    | inr e ↦ rw e (All-both P p xs h)
  ]

  pub find-append :
      (p : A → Bool) (xs ys : List A) {a : A} → find p xs ≡ some a → find p (xs ++ ys) ≡ some a
  unfolding find
  find-append p [] ys h = absurd (cc)
  find-append p (x ∷ xs) ys h = elim (Bool-cases (p x)) [
    | inl e ↦ rw e (rw e at h)
    | inr e ↦ rw e (find-append p xs ys (rw e at h))
  ]

  pub find_last :
      (p : A → Bool) (xs : List A) (a : A)
      → All (λ x. p x ≡ false) xs
      → p a ≡ true
      → find p (xs ++ a ∷ []) ≡ some a
  unfolding find
  find_last p [] a h e = rw e refl
  find_last p (x ∷ xs) a (hx, h) e = rw hx (find_last p xs a h e)

  pub keep_swap : (p q : A → Bool) (xs : List A) → keep p (keep q xs) ≡ keep q (keep p xs)
  unfolding keep
  keep_swap p q [] = refl
  keep_swap p q (x ∷ xs) = ground (arith, keep_swap p q xs)

  pub keep-everything : (p : A → Bool) (xs : List A) → All (λ x. p x ≡ true) xs → keep p xs ≡ xs
  unfolding keep
  keep-everything p [] h = refl
  keep-everything p (x ∷ xs) (e, h) = rw (e, keep-everything p xs h) refl

  -- A record that a filter leaves is found as before.
  pub find-keep :
      (p q : A → Bool) (xs : List A) {a : A}
      → find p xs ≡ some a
      → q a ≡ true
      → ((x : A) → p x ≡ true → q x ≡ true)
      → find p (keep q xs) ≡ some a
  unfolding find keep
  find-keep p q [] h e f = absurd (cc)
  find-keep p q (x ∷ xs) h e f = elim (Bool-cases (p x)) [
    | inl px ↦ rw (f x px) (rw px (rw px at h))
    | inr px ↦ elim (Bool-cases (q x)) [
      | inl qx ↦ rw qx (rw px (find-keep p q xs (rw px at h) e f))
      | inr qx ↦ rw qx (find-keep p q xs (rw px at h) e f)
    ]
  ]
