-- ===== src/Text/Uploads.antt =====
-- Names of uploaded files cannot leave the directory or break a header.
use vussa.Base.{ℕ, zero, suc, ◌≤◌, String, Char, Bool, true, not, ◌&&◌, ◌≡◌, refl, arith}
use vussa.Text.{
  Unicode, all_chars, is_separator, keep_chars, take_chars, last_segment, sanitize_upload_name,
  trim, trim_start, trim_end,
}
use vussa.Text.Trim.{trim-all}

-- The number of characters, `s.chars().count()`.
abbrev pub count_chars : String → ℕ
count_chars String.[] = 0
count_chars (String.◌∷◌ c s) = suc (count_chars s)

abbrev pub is_safe : Unicode → Char → Bool
is_safe u c = not (is_separator c) && not (u.is_control c)

last_segment-all : (s : String) → all_chars (λ c. not (is_separator c)) (last_segment s) ≡ true
unfolding last_segment
last_segment-all String.[] = refl
last_segment-all (String.◌∷◌ c s) = ground (arith, last_segment-all s)

module _ (p q : Char → Bool) where
  keep_chars-all :
      (s : String) → all_chars p s ≡ true → all_chars (λ c. p c && q c) (keep_chars q s) ≡ true
  unfolding keep_chars
  keep_chars-all String.[] h = refl
  keep_chars-all (String.◌∷◌ c s) h = ground (arith, keep_chars-all s)

take_chars-all :
    (p : Char → Bool) (n : ℕ) (s : String)
    → all_chars p s ≡ true
    → all_chars p (take_chars n s) ≡ true
unfolding take_chars
take_chars-all p zero s h = refl
take_chars-all p (suc n) String.[] h = refl
take_chars-all p (suc n) (String.◌∷◌ c s) h = ground (arith, take_chars-all p n s)

count_chars-take_chars : (n : ℕ) (s : String) → count_chars (take_chars n s) ≤ n
unfolding take_chars
count_chars-take_chars zero s = omega arith
count_chars-take_chars (suc n) String.[] = omega arith
count_chars-take_chars (suc n) (String.◌∷◌ c s) = omega (arith, count_chars-take_chars n s)

module _ (u : Unicode) where
  count_chars-trim_start : (s : String) → count_chars (trim_start u s) ≤ count_chars s
  unfolding trim_start
  count_chars-trim_start String.[] = omega arith
  count_chars-trim_start (String.◌∷◌ c s) = ground (arith, count_chars-trim_start s)

  count_chars-trim_end : (s : String) → count_chars (trim_end u s) ≤ count_chars s
  unfolding trim_end
  count_chars-trim_end String.[] = omega arith
  count_chars-trim_end (String.◌∷◌ c s) = ground (arith, count_chars-trim_end s)

  count_chars-trim : (s : String) → count_chars (trim u s) ≤ count_chars s
  unfolding trim
  count_chars-trim s =
      omega (arith, count_chars-trim_start s, count_chars-trim_end (trim_start u s))

  -- Whatever name a client sends, the name that is stored has no path separator and no control
  -- character, and at most 255 characters.
  pub sanitize_upload_name-safe :
      (name : String)
      → (all_chars (is_safe u) (sanitize_upload_name u name) ≡ true)
        × (count_chars (sanitize_upload_name u name) ≤ 255)
  unfolding sanitize_upload_name
  sanitize_upload_name-safe name =
      let kept = keep_chars (λ c. not (u.is_control c)) (last_segment name) in
      (
        trim-all u (is_safe u) (take_chars 255 kept) (
            take_chars-all (is_safe u) 255 kept (
              keep_chars-all (λ c. not (is_separator c)) (λ c. not (u.is_control c))
                (last_segment name) (last_segment-all name))),
        omega (arith, count_chars-trim (take_chars 255 kept), count_chars-take_chars 255 kept),
      )
