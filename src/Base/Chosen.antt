-- ===== src/Base/Chosen.antt =====
-- Rows with an identifier, and the first few of those that pass a test in some order: what
-- `SELECT … ORDER BY … LIMIT n` chooses, and `WHERE event.id = next.id`.
use Prim.Native.Nat.{ℕ, zero, suc, ◌+◌, ◌-◌, ◌≤◌}
use mathlib.Core.Path.{◌≡◌, refl, sym, subst, ◌∙◌}
use mathlib.Core.Bool.{Bool, true, false, not, ◌&&◌, ◌||◌}
use mathlib.Core.Logic.{inl, inr}
use mathlib.Core.List.{List, [], ◌∷◌}
use native.Mathlib.Omega.{arith}
use vussa.Base.Tests.{◌==◌, ==_refl, Bool-cases}
use vussa.Base.Lists.{
  length, any, all, keep, take, length-take, length-keep, any-keep, any-keep_fewer, all-weaken,
  all-take,
}
use vussa.Base.Sorting.{
  sort_by, insert_sorted, any-insert_sorted, any-sort_by, all-sort_by, length-sort_by,
}
use vussa.Base.Keys.{Distinct}

module _ {ℓ} {A : Type ℓ} (key : A → ℕ) where
  abbrev pub same_key : A → A → Bool
  same_key a b = key a == key b

  abbrev pub is_among : List A → A → Bool
  is_among chosen x = any (same_key x) chosen

  unfoldable pub chosen : ℕ → (A → A → Bool) → (A → Bool) → List A → List A
  chosen n le p xs = take n (sort_by le (keep p xs))

  same_key_sym : (a b : A) → same_key a b ≡ same_key b a
  same_key_sym a b = ground arith

  pub any-same_key :
      (x y : A) (xs : List A) → same_key x y ≡ true → any (same_key x) xs ≡ any (same_key y) xs
  any-same_key x y [] h = refl
  any-same_key x y (z ∷ xs) h = ground (arith, any-same_key x y xs)

  pub Distinct-keep :
      (p : A → Bool) (xs : List A) → Distinct same_key xs → Distinct same_key (keep p xs)
  unfolding keep
  Distinct-keep p [] d = tt
  Distinct-keep p (x ∷ xs) d =
      ground (arith, Distinct-keep p xs d.1, any-keep_fewer (same_key x) p xs d.0)

  Distinct-take : (n : ℕ) (xs : List A) → Distinct same_key xs → Distinct same_key (take n xs)
  Distinct-take zero xs d = tt
  Distinct-take (suc n) [] d = tt
  Distinct-take (suc n) (x ∷ xs) d = (any-take n x xs d.0, Distinct-take n xs d.1)
    where
      any-take :
          (n : ℕ) (x : A) (xs : List A)
          → any (same_key x) xs ≡ false
          → any (same_key x) (take n xs) ≡ false
      any-take zero x xs h = refl
      any-take (suc n) x [] h = refl
      any-take (suc n) x (y ∷ xs) h = ground (arith, any-take n x xs)

  Distinct-insert_sorted :
      (le : A → A → Bool) (x : A) (xs : List A)
      → any (same_key x) xs ≡ false
      → Distinct same_key xs
      → Distinct same_key (insert_sorted le x xs)
  unfolding insert_sorted
  Distinct-insert_sorted le x [] h d = (refl, tt)
  Distinct-insert_sorted le x (y ∷ ys) h d = ground (
    arith,
    same_key_sym x y,
    any-insert_sorted le (same_key y) x ys,
    Distinct-insert_sorted le x ys,
  )

  Distinct-sort_by :
      (le : A → A → Bool) (xs : List A) → Distinct same_key xs → Distinct same_key (sort_by le xs)
  unfolding sort_by
  Distinct-sort_by le [] d = tt
  Distinct-sort_by le (x ∷ xs) d =
      Distinct-insert_sorted le x (sort_by le xs) (ground (arith, any-sort_by le (same_key x) xs))
        (Distinct-sort_by le xs d.1)

  any-take_fewer :
      (p : A → Bool) (n : ℕ) (xs : List A) → any p xs ≡ false → any p (take n xs) ≡ false
  any-take_fewer p zero xs h = refl
  any-take_fewer p (suc n) [] h = refl
  any-take_fewer p (suc n) (x ∷ xs) h = ground (arith, any-take_fewer p n xs)

  pub chosen-Distinct :
      (n : ℕ) (le : A → A → Bool) (p : A → Bool) (xs : List A)
      → Distinct same_key xs
      → Distinct same_key (chosen n le p xs)
  unfolding chosen
  chosen-Distinct n le p xs d = Distinct-take n _ (Distinct-sort_by le _ (Distinct-keep p xs d))

  -- Only rows that pass the test are chosen.
  pub any-chosen :
      (n : ℕ) (le : A → A → Bool) (p q : A → Bool) (xs : List A)
      → any q (keep p xs) ≡ false
      → any q (chosen n le p xs) ≡ false
  unfolding chosen
  any-chosen n le p q xs h =
      any-take_fewer q n (sort_by le (keep p xs)) (ground (arith, any-sort_by le q (keep p xs)))

  all_self : (xs : List A) → all (λ y. any (same_key y) xs) xs ≡ true
  all_self [] = refl
  all_self (x ∷ xs) = ground (
    arith,
    ==_refl (key x),
    all-weaken (λ y. any (same_key y) xs) (λ y. any (same_key y) (x ∷ xs)) (λ y h. ground arith) xs
        (all_self xs),
  )

  pub chosen-all :
      (n : ℕ) (le : A → A → Bool) (p : A → Bool) (xs : List A)
      → all (λ y. any (same_key y) (keep p xs)) (chosen n le p xs) ≡ true
  unfolding chosen
  chosen-all n le p xs =
      all-take (λ y. any (same_key y) (keep p xs)) n (sort_by le (keep p xs))
        (all-sort_by le (λ y. any (same_key y) (keep p xs)) (keep p xs) (all_self (keep p xs)))

  among-found :
      (zs next : List A) (a : A)
      → all (λ y. any (same_key y) zs) next ≡ true
      → is_among next a ≡ true
      → any (same_key a) zs ≡ true
  among-found zs [] a h k = ground arith
  among-found zs (y ∷ next) a h k = elim (Bool-cases (same_key a y)) [
    | inl same ↦ any-same_key a y zs same ∙ ground arith
    | inr apart ↦ among-found zs next a (ground arith) (ground arith)
  ]

  -- Rows with the key of a chosen one have that of a row that passes the test.
  pub all-among :
      (zs next rows : List A)
      → all (λ y. any (same_key y) zs) next ≡ true
      → all (λ a. any (same_key a) zs) (keep (is_among next) rows) ≡ true
  unfolding keep
  all-among zs next [] h = refl
  all-among zs next (a ∷ rows) h = ground (arith, among-found zs next a h, all-among zs next rows h)

  length-keep_other :
      (y : A) (xs : List A)
      → any (same_key y) xs ≡ true
      → suc (length (keep (λ x. not (same_key x y)) xs)) ≤ length xs
  unfolding keep
  length-keep_other y [] h = ground arith
  length-keep_other y (x ∷ xs) h =
      ground
        (arith, same_key_sym x y, length-keep_other y xs, length-keep (λ x. not (same_key x y)) xs)

  keep-keep_other :
      (y : A) (ys xs : List A)
      → keep (λ x. not (is_among (y ∷ ys) x)) xs
        ≡ keep (λ x. not (is_among ys x)) (keep (λ x. not (same_key x y)) xs)
  unfolding keep
  keep-keep_other y ys [] = refl
  keep-keep_other y ys (x ∷ xs) = ground (arith, keep-keep_other y ys xs)

  others_stay :
      (y : A) (ys xs : List A)
      → any (same_key y) ys ≡ false
      → all (λ z. any (same_key z) xs) ys ≡ true
      → all (λ z. any (same_key z) (keep (λ x. not (same_key x y)) xs)) ys ≡ true
  others_stay y [] xs d h = refl
  others_stay y (z ∷ ys) xs d h = ground (
    arith,
    any-keep (same_key z) (λ x. not (same_key x y)) (λ x e. ground arith) xs,
    others_stay y ys xs,
  )

  -- Rows of different keys that are all there, taken away, leave that many fewer.
  pub length-keep_unchosen :
      (ys xs : List A)
      → Distinct same_key ys
      → all (λ y. any (same_key y) xs) ys ≡ true
      → length (keep (λ x. not (is_among ys x)) xs) + length ys ≤ length xs
  length-keep_unchosen [] xs d h = omega (arith, length-keep (λ x. true) xs)
  length-keep_unchosen (y ∷ ys) xs d h = rw (keep-keep_other y ys xs) (
      ground (
        arith,
        length-keep_other y xs,
        length-keep_unchosen ys (keep (λ x. not (same_key x y)) xs) d.1,
        others_stay y ys xs d.0,
      ))

  keep_absent :
      (y : A) (xs : List A)
      → any (same_key y) xs ≡ false
      → length (keep (λ x. not (same_key x y)) xs) ≡ length xs
  unfolding keep
  keep_absent y [] h = refl
  keep_absent y (x ∷ xs) h = ground (arith, same_key_sym x y, keep_absent y xs)

  -- Of rows of different keys, a key takes one at most.
  length-keep_one :
      (y : A) (xs : List A)
      → Distinct same_key xs
      → length xs ≤ suc (length (keep (λ x. not (same_key x y)) xs))
  unfolding keep
  length-keep_one y [] d = omega arith
  length-keep_one y (x ∷ xs) d = elim (Bool-cases (same_key x y)) [
    | inl same ↦ rw same (omega (arith, keep_absent y xs (sym (any-same_key x y xs same) ∙ d.0)))
    | inr apart ↦ rw apart (omega (arith, length-keep_one y xs d.1))
  ]

  -- Rows of different keys, when some keys are taken away, are at most that many fewer.
  pub length-keep_rest :
      (ys xs : List A)
      → Distinct same_key xs
      → length xs ≤ length (keep (λ x. not (is_among ys x)) xs) + length ys
  unfolding keep
  length-keep_rest [] xs d = omega (arith, keep_every xs)
    where
      keep_every : (xs : List A) → length xs ≤ length (keep (λ x. true) xs)
      keep_every [] = omega arith
      keep_every (x ∷ xs) = ground (arith, keep_every xs)
  length-keep_rest (y ∷ ys) xs d = rw (keep-keep_other y ys xs) (
      omega (
        arith,
        length-keep_one y xs d,
        length-keep_rest ys (keep (λ x. not (same_key x y)) xs)
            (Distinct-keep (λ x. not (same_key x y)) xs d),
      ))

  own-cons :
      (p : A → Bool) (x : A) (zs ys : List A)
      → any (same_key x) ys ≡ false
      → all (λ e. not (any (same_key e) zs) || p e) ys ≡ true
      → all (λ e. not (any (same_key e) (x ∷ zs)) || p e) ys ≡ true
  own-cons p x zs [] h k = refl
  own-cons p x zs (y ∷ ys) h k = ground (arith, same_key_sym x y, own-cons p x zs ys)

  keep-hit : (p : A → Bool) (x : A) (xs : List A) → p x ≡ true → keep p (x ∷ xs) ≡ x ∷ keep p xs
  unfolding keep
  keep-hit p x xs h = rw h refl

  keep-miss : (p : A → Bool) (x : A) (xs : List A) → p x ≡ false → keep p (x ∷ xs) ≡ keep p xs
  unfolding keep
  keep-miss p x xs h = rw h refl

  -- Every row of the second list that has its key in the first passes the test.
  abbrev pub IsOwn : (A → Bool) → List A → List A → Type 0
  IsOwn p zs xs = all (λ e. not (any (same_key e) zs) || p e) xs ≡ true

  pub keep-IsOwn : (p : A → Bool) (xs : List A) → Distinct same_key xs → IsOwn p (keep p xs) xs
  keep-IsOwn p [] d = refl
  keep-IsOwn p (x ∷ xs) d = elim (Bool-cases (p x)) [
    | inl hit ↦
        subst (λ zs. IsOwn p zs (x ∷ xs)) (sym (keep-hit p x xs hit))
          (ground (arith, hit, own-cons p x (keep p xs) xs d.0, keep-IsOwn p xs d.1))
    | inr miss ↦
        subst (λ zs. IsOwn p zs (x ∷ xs)) (sym (keep-miss p x xs miss))
          (ground (arith, any-keep_fewer (same_key x) p xs d.0, keep-IsOwn p xs d.1))
  ]

  pub all-chosen :
      (n : ℕ) (le : A → A → Bool) (p : A → Bool) (xs : List A)
      → Distinct same_key xs
      → all (λ e. not (any (same_key e) (chosen n le p xs)) || p e) xs ≡ true
  all-chosen n le p xs d =
      all-weaken (λ e. not (any (same_key e) (keep p xs)) || p e)
        (λ e. not (any (same_key e) (chosen n le p xs)) || p e)
        (λ e h. ground (arith, any-chosen n le p (same_key e) xs)) xs (keep-IsOwn p xs d)

  length-keep-keep :
      (p q : A → Bool) (xs : List A)
      → length (keep q (keep p xs)) ≡ length (keep (λ x. p x && q x) xs)
  unfolding keep
  length-keep-keep p q [] = refl
  length-keep-keep p q (x ∷ xs) = ground (arith, length-keep-keep p q xs)

  -- What is left when the chosen rows are taken away.
  pub length-unchosen :
      (n : ℕ) (le : A → A → Bool) (p : A → Bool) (xs : List A)
      → Distinct same_key xs
      → length (keep (λ x. p x && not (is_among (chosen n le p xs) x)) xs) ≡ length (keep p xs) - n
  unfolding chosen
  length-unchosen n le p xs d = omega (
    arith,
    length-keep-keep p (λ x. not (is_among (chosen n le p xs) x)) xs,
    length-keep_unchosen (chosen n le p xs) (keep p xs) (chosen-Distinct n le p xs d)
        (chosen-all n le p xs),
    length-keep_rest (chosen n le p xs) (keep p xs) (Distinct-keep p xs d),
    length-take n (sort_by le (keep p xs)),
    length-sort_by le (keep p xs),
  )

  among-cons :
      (p : A → Bool) (x : A) (zs ys : List A)
      → all (λ e. not (p e) || is_among zs e) ys ≡ true
      → all (λ e. not (p e) || is_among (x ∷ zs) e) ys ≡ true
  among-cons p x zs [] h = refl
  among-cons p x zs (y ∷ ys) h = ground (arith, among-cons p x zs ys)

  -- Every row of the second list that passes the test has its key in the first.
  abbrev pub IsKept : (A → Bool) → List A → List A → Type 0
  IsKept p zs xs = all (λ e. not (p e) || is_among zs e) xs ≡ true

  pub keep-IsKept : (p : A → Bool) (xs : List A) → IsKept p (keep p xs) xs
  keep-IsKept p [] = refl
  keep-IsKept p (x ∷ xs) = elim (Bool-cases (p x)) [
    | inl hit ↦
        subst (λ zs. IsKept p zs (x ∷ xs)) (sym (keep-hit p x xs hit))
          (ground (arith, ==_refl (key x), among-cons p x (keep p xs) xs, keep-IsKept p xs))
    | inr miss ↦
        subst (λ zs. IsKept p zs (x ∷ xs)) (sym (keep-miss p x xs miss))
          (ground (arith, miss, keep-IsKept p xs))
  ]
