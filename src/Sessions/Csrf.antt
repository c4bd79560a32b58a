-- ===== src/Sessions/Csrf.antt =====
-- backend/src/auth.rs: the token that a request that changes something carries.
use Prim.Native.Nat.{bit_or, bit_xor}
use vussa.Base.{
  ℕ, ◌≡◌, refl, sym, ◌∙◌, ◌==◌, String, str_eq, Bool, true, false, Option, none, some, List, [],
  ◌∷◌, length, if◌then◌else◌, arith, Bool-cases, inl, inr, eq_iff, ==_iff, ==_refl, str_eq_refl,
}
use vussa.Base.Bits.{bit_xor_zero, bit_xor_same, bit_or_zero}
use vussa.Models.{Session}
use vussa.Error.{Result, ok, err, bad_request}

-- The loop over the pairs of bytes; `u8` has no carry to lose in these operations.
unfoldable pub differences : ℕ → List ℕ → List ℕ → ℕ
differences result [] ys = result
differences result (x ∷ xs) [] = result
differences result (x ∷ xs) (y ∷ ys) = differences (bit_or result (bit_xor x y)) xs ys

module _ (as_bytes : String → List ℕ) where
  unfoldable pub constant_time_compare : String → String → Bool
  constant_time_compare a b =
      if length (as_bytes a) == length (as_bytes b)
      then differences 0 (as_bytes a) (as_bytes b) == 0
      else false

  abbrev pub check_token : Option String → Session → Result (Unit {0})
  check_token none session = err (bad_request "invalid csrf token")
  check_token (some header) session =
      if constant_time_compare header session.csrf
      then ok tt
      else err (bad_request "invalid csrf token")

  -- `header` is the header `x-csrf-token`, where it is there and a text.
  unfoldable pub require_csrf : Option String → Session → Result (Unit {0})
  require_csrf header session = check_token header session

differences_zero :
    (result : ℕ) (xs ys : List ℕ)
    → length xs ≡ length ys
    → differences result xs ys ≡ 0
    → (result ≡ 0) × (xs ≡ ys)
unfolding differences
differences_zero result [] [] e h = (h, refl)
differences_zero result [] (y ∷ ys) e h = absurd (omega (arith, e))
differences_zero result (x ∷ xs) [] e h = absurd (omega (arith, e))
differences_zero result (x ∷ xs) (y ∷ ys) e h =
    let rest = differences_zero (bit_or result (bit_xor x y)) xs ys (omega (arith, e)) h in
    let sum = bit_or_zero result (bit_xor x y) rest.0 in
    let same = bit_xor_zero x y (omega (arith, sum)) in (omega (arith, sum), cc (same, rest.1))

differences_same : (xs : List ℕ) → differences 0 xs xs ≡ 0
unfolding differences
differences_same [] = refl
differences_same (x ∷ xs) = rw (bit_xor_same x) (differences_same xs)

module _ (as_bytes : String → List ℕ)
    (injective : (a b : String) → as_bytes a ≡ as_bytes b → a ≡ b) where
  compared_same : (b : String) → constant_time_compare as_bytes b b ≡ true
  unfolding constant_time_compare
  compared_same b = rw (==_refl (length (as_bytes b)), differences_same (as_bytes b)) refl

  compared_equal : (a b : String) → constant_time_compare as_bytes a b ≡ true → a ≡ b
  unfolding constant_time_compare
  compared_equal a b h = elim (Bool-cases (length (as_bytes a) == length (as_bytes b))) [
    | inl long ↦
        injective a b
          (differences_zero 0 (as_bytes a) (as_bytes b) ((==_iff _ _).0 long)
            ((==_iff _ _).0 (rw long at h))).1
    | inr short ↦ absurd (cc (rw short at h))
  ]

  -- The comparison of tokens byte by byte, which takes no early exit, is equality, as different
  -- texts have different bytes.
  pub constant_time_compare-str_eq :
      (a b : String) → constant_time_compare as_bytes a b ≡ str_eq a b
  constant_time_compare-str_eq a b = elim (Bool-cases (str_eq a b)) [
    | inl same ↦ let e = (eq_iff a b).0 same in rw e (compared_same b ∙ sym (str_eq_refl b))
    | inr other ↦ elim (Bool-cases (constant_time_compare as_bytes a b)) [
      | inl equal ↦ absurd (cc (other, str_eq_refl b, compared_equal a b equal))
      | inr unequal ↦ unequal ∙ sym other
    ]
  ]
