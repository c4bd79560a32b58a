-- ===== src/Base/Keys.antt =====
-- Rows with different keys.
use mathlib.Core.Path.{◌≡◌, refl}
use mathlib.Core.Bool.{Bool, true, false}
use mathlib.Core.List.{List, [], ◌∷◌, ◌++◌}
use mathlib.Core.Option.{some}
use native.Mathlib.Omega.{arith}
use vussa.Base.Lists.{any, find}

module _ {ℓ} {A : Type ℓ} where
  -- `same a b` says that the keys of `a` and `b` are one.
  abbrev pub Distinct : (A → A → Bool) → List A → Type 0
  Distinct same [] = Unit
  Distinct same (x ∷ xs) = (any (same x) xs ≡ false) × Distinct same xs

  pub find_avoids :
      (p q : A → Bool) (xs : List A) (a : A) → any q xs ≡ false → find p xs ≡ some a → q a ≡ false
  unfolding find
  find_avoids p q [] a h e = ground arith
  find_avoids p q (x ∷ xs) a h e = ground (arith, find_avoids p q xs a)

module _ {ℓ} {A : Type ℓ} (same : A → A → Bool) (same_sym : (a b : A) → same a b ≡ same b a) where
  any-append_one :
      (x y : A) (xs : List A)
      → any (same x) xs ≡ false
      → same x y ≡ false
      → any (same x) (xs ++ y ∷ []) ≡ false
  any-append_one x y [] h e = ground arith
  any-append_one x y (z ∷ xs) h e = ground (arith, any-append_one x y xs)

  pub Distinct-append :
      (xs : List A) (y : A)
      → Distinct same xs
      → any (same y) xs ≡ false
      → Distinct same (xs ++ y ∷ [])
  Distinct-append [] y d h = (refl, tt)
  Distinct-append (x ∷ xs) y d h = (
    any-append_one x y xs d.0 (ground (arith, same_sym x y)),
    Distinct-append xs y d.1 (ground arith),
  )

  -- A row that a search finds is the one that its key finds.
  pub find-key :
      (same_refl : (a : A) → same a a ≡ true) (p : A → Bool) (xs : List A) (a : A)
      → Distinct same xs
      → find p xs ≡ some a
      → find (same a) xs ≡ some a
  unfolding find
  find-key same_refl p [] a d e = ground arith
  find-key same_refl p (x ∷ xs) a d e =
      ground (
        arith,
        same_refl x,
        same_sym x a,
        find_avoids p (same x) xs a,
        find-key same_refl p xs a d.1,
      )
