-- ===== src/Text/Trim.antt =====
-- What `trim` leaves, and that it takes nothing else away.
use vussa.Base.{String, Char, Bool, true, false, ◌≡◌, refl, ap, ◌∙◌, inl, inr, Bool-cases, arith}
use vussa.Text.{Unicode, all_chars, trim, trim_start, trim_end}

-- Every character of a text has a property that all characters of the whole text have.
module _ (u : Unicode) (p : Char → Bool) where
  pub trim_start-all : (s : String) → all_chars p s ≡ true → all_chars p (trim_start u s) ≡ true
  unfolding trim_start
  trim_start-all String.[] h = refl
  trim_start-all (String.◌∷◌ c s) h = ground (arith, trim_start-all s)

  pub trim_end-all : (s : String) → all_chars p s ≡ true → all_chars p (trim_end u s) ≡ true
  unfolding trim_end
  trim_end-all String.[] h = refl
  trim_end-all (String.◌∷◌ c s) h = ground (arith, trim_end-all s)

  pub trim-all : (s : String) → all_chars p s ≡ true → all_chars p (trim u s) ≡ true
  unfolding trim
  trim-all s h = trim_end-all (trim_start u s) (trim_start-all s h)

-- The first character, if there is one, is no white space.
abbrev pub StartsClean : Unicode → String → Type 0
StartsClean u String.[] = Unit
StartsClean u (String.◌∷◌ c s) = u.is_whitespace c ≡ false

module _ (u : Unicode) where
  trim_start-StartsClean : (s : String) → StartsClean u (trim_start u s)
  unfolding trim_start
  trim_start-StartsClean String.[] = tt
  trim_start-StartsClean (String.◌∷◌ c s) = elim (Bool-cases (u.is_whitespace c)) [
    | inl e ↦ rw e (trim_start-StartsClean s)
    | inr e ↦ rw e e
  ]

  trim_start-clean : (s : String) → StartsClean u s → trim_start u s ≡ s
  unfolding trim_start
  trim_start-clean String.[] h = refl
  trim_start-clean (String.◌∷◌ c s) h = rw h

  trim_end-StartsClean : (s : String) → StartsClean u s → StartsClean u (trim_end u s)
  unfolding trim_end
  trim_end-StartsClean String.[] h = tt
  trim_end-StartsClean (String.◌∷◌ c s) h = rw h h

  trim_end_idem : (s : String) → trim_end u (trim_end u s) ≡ trim_end u s
  unfolding trim_end
  trim_end_idem String.[] = refl
  trim_end_idem (String.◌∷◌ c s) = ground (arith, trim_end_idem s)

  pub trim_idem : (s : String) → trim u (trim u s) ≡ trim u s
  unfolding trim
  trim_idem s =
      ap (trim_end u) (
        trim_start-clean (trim_end u (trim_start u s))
          (trim_end-StartsClean (trim_start u s) (trim_start-StartsClean s)))
      ∙ trim_end_idem (trim_start u s)
