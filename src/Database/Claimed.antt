-- ===== src/Database/Claimed.antt =====
-- A table of rows with identifiers after an update of some of them that keeps the identifiers.
use vussa.Base.{
  ℕ, ◌==◌, ◌≡◌, refl, ◌+◌, min, Bool, true, false, not, List, [], ◌∷◌, keep, any, all, length,
  arith, is_among, same_key, Distinct, Bool-cases, inl, inr, chosen, chosen-Distinct, chosen-all,
  length-keep_unchosen, length-keep_rest, length-take, sort_by, length-sort_by, any-keep_fewer,
}
use vussa.Database.Tables.{update}

module _ {ℓ} {A : Type ℓ} (key : A → ℕ) (f : A → A) (f_key : (a : A) → key (f a) ≡ key a) where
  any-update :
      (p : A → Bool) (e : A) (rows : List A)
      → any (same_key key e) (update p f rows) ≡ any (same_key key e) rows
  unfolding update
  any-update p e [] = refl
  any-update p e (r ∷ rows) = ground (arith, f_key r, any-update p e rows)

  any-update_first :
      (e : A) (rows : List A) → any (same_key key (f e)) rows ≡ any (same_key key e) rows
  any-update_first e [] = refl
  any-update_first e (r ∷ rows) = ground (arith, f_key e, any-update_first e rows)

  pub update_Distinct :
      (p : A → Bool) (rows : List A)
      → Distinct (same_key key) rows
      → Distinct (same_key key) (update p f rows)
  unfolding update
  update_Distinct p [] d = tt
  update_Distinct p (r ∷ rows) d = elim (Bool-cases (p r)) [
    | inl hit ↦ rw hit (
        ground (
          arith,
          any-update p r rows,
          any-update_first r (update p f rows),
          update_Distinct p rows d.1,
        ))
    | inr miss ↦ rw miss (ground (arith, any-update p r rows, update_Distinct p rows d.1))
  ]

  among-key :
      (id : ℕ) (next : List A) (a : A)
      → key a == id ≡ true
      → is_among key next a ≡ any (λ n. key n == id) next
  among-key id [] a h = refl
  among-key id (n ∷ next) a h = ground (arith, among-key id next a)

  -- An update of rows that are named returns no row of another identifier.
  pub any-claimed :
      (id : ℕ) (next rows : List A)
      → any (λ n. key n == id) next ≡ false
      → any (λ n. key n == id) (keep (is_among key next) (update (is_among key next) f rows))
        ≡ false
  unfolding keep update
  any-claimed id next [] h = refl
  any-claimed id next (a ∷ rows) h =
      ground (arith, f_key a, among-key id next a, any-claimed id next rows)

  among-update : (next : List A) (a : A) → is_among key next (f a) ≡ is_among key next a
  among-update [] a = refl
  among-update (n ∷ next) a = ground (arith, f_key a, among-update next a)

  length-claimed :
      (next rows : List A)
      → length (keep (is_among key next) (update (is_among key next) f rows))
        ≡ length (keep (is_among key next) rows)
  unfolding keep update
  length-claimed next [] = refl
  length-claimed next (a ∷ rows) = ground (arith, among-update next a, length-claimed next rows)

  length-split :
      (p : A → Bool) (rows : List A)
      → length (keep p rows) + length (keep (λ a. not (p a)) rows) ≡ length rows
  unfolding keep
  length-split p [] = refl
  length-split p (a ∷ rows) = ground (arith, length-split p rows)

  kept-all :
      (p : A → Bool) (rows ys : List A)
      → all (λ y. any (same_key key y) (keep p rows)) ys ≡ true
      → all (λ y. any (same_key key y) rows) ys ≡ true
  kept-all p rows [] h = refl
  kept-all p rows (y ∷ ys) h =
      ground (arith, any-keep_fewer (same_key key y) p rows, kept-all p rows ys)

  -- An update of the first `n` rows that pass a test returns that many, or all that pass.
  pub length-claimed_chosen :
      (n : ℕ) (le : A → A → Bool) (p : A → Bool) (rows : List A)
      → Distinct (same_key key) rows
      → min n (length (keep p rows))
        ≡ length (
            keep
              (is_among key (chosen key n le p rows))
              (update (is_among key (chosen key n le p rows)) f rows))
  unfolding chosen
  length-claimed_chosen n le p rows d = omega (
    arith,
    length-take n (sort_by le (keep p rows)),
    length-sort_by le (keep p rows),
    length-claimed (chosen key n le p rows) rows,
    length-split (is_among key (chosen key n le p rows)) rows,
    length-keep_unchosen key (chosen key n le p rows) rows (chosen-Distinct key n le p rows d)
        (kept-all p rows (chosen key n le p rows) (chosen-all key n le p rows)),
    length-keep_rest key (chosen key n le p rows) rows d,
  )
