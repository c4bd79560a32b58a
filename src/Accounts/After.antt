-- ===== src/Accounts/After.antt =====
-- What holds of the tables after an operation that succeeds.
use vussa.Error.{Result, ok, err}
use vussa.Accounts.{Tables, Tx, continue, ◌>>=◌, transaction, outcome}

module _ {A : Type 0} where
  abbrev pub After : (Tables → Type 0) → Result (A × Tables) → Type 0
  After P (ok (a, t)) = P t
  After P (err e) = Unit

module _ {A B : Type 0} (P Q : Tables → Type 0) (m : Tx A) (f : A → Tx B) where
  pub bind-After :
      (t : Tables)
      → After P (m t)
      → ((a : A) (t : Tables) → P t → After Q (f a t))
      → After Q ((m >>= f) t)
  unfolding ◌>>=◌
  bind-After t h k = continued (m t) h
    where
      continued : (r : Result (A × Tables)) → After P r → After Q (continue r f)
      continued (ok (a, t)) h = k a t h
      continued (err e) h = tt

-- Where only the end of the operation matters.
module _ {A B : Type 0} (Q : Tables → Type 0) (m : Tx A) (f : A → Tx B) where
  pub end-After : ((a : A) (t : Tables) → After Q (f a t)) → (t : Tables) → After Q ((m >>= f) t)
  unfolding ◌>>=◌
  end-After k t = continued (m t)
    where
      continued : (r : Result (A × Tables)) → After Q (continue r f)
      continued (ok (a, t)) = k a t
      continued (err e) = tt

-- What holds before, and after a success, holds after the transaction.
pub transaction-After :
    {A : Type 0} (P : Tables → Type 0) (m : Tx A) (t : Tables)
    → P t
    → After P (m t)
    → P (transaction m t).1
transaction-After {A = A} P m t h k = closed (m t) k
  where
    closed : (r : Result (A × Tables)) → After P r → P (outcome r t).1
    closed (ok (a, t')) k = k
    closed (err e) k = h

pub After-weaken :
    {A : Type 0} (P Q : Tables → Type 0) (r : Result (A × Tables))
    → ((t : Tables) → P t → Q t)
    → After P r
    → After Q r
After-weaken P Q (ok (a, t)) f h = f t h
After-weaken P Q (err e) f h = tt
