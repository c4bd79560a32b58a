-- ===== src/Io/Guards.antt =====
-- Actions that check before they write: what a check has found holds when the statement runs.
use vussa.Base.{ℕ, ◌≡◌, refl, inl, inr, Bool, true, false, Option, none, some, Bool-cases}
use vussa.Error.{AppError, Result, ok, err}
use vussa.Database.{Db}
use vussa.Io.{
  Env, World, Io, or_fail, reject, lift, continue, ◌>>=◌, query, execute, transaction, now, tick,
}
use vussa.Io.Keeps.{Keeps, Writes, written-Keeps}
use vussa.Io.Ensures.{Ensures, commit-Ensures}

-- From a database that satisfies `P`, the action leaves one that satisfies `Q`, also if it fails.
pub record Leaves (P Q : Db → Type 0) {A : Type 0} (m : Io A) : Type 0 where
  pub at : (w : World) → P w.db → Q (m w).1.db

continue-Leaves :
    {A B : Type 0} (Q : Db → Type 0) (r : Result A) (f : A → Io B) (w : World)
    → ((a : A) → Keeps Q (f a))
    → Q w.db
    → Q (continue r f w).1.db
continue-Leaves Q (ok a) f w k h = (k a).at w h
continue-Leaves Q (err e) f w k h = h

module _ {P Q : Db → Type 0} where
  pub Keeps-Leaves : {A : Type 0} {m : Io A} → ((db : Db) → P db → Q db) → Keeps Q m → Leaves P Q m
  Keeps-Leaves weaken k = record { at = λ w h. k.at w (weaken w.db h) }

  -- Once the invariant is back, the rest need only keep it.
  pub bind-Leaves :
      {A B : Type 0} {m : Io A} {f : A → Io B}
      → Leaves P Q m
      → ((a : A) → Keeps Q (f a))
      → Leaves P Q (m >>= f)
  unfolding ◌>>=◌
  bind-Leaves {m = m} {f} h k = record {
    at = λ w p. let (r, w') = m w in continue-Leaves Q r f w' k (h.at w p);
  }

  pub lift-bind-Leaves :
      {A B : Type 0} (r : Result A) (f : A → Io B)
      → ((db : Db) → P db → Q db)
      → ((a : A) → r ≡ ok a → Leaves P Q (f a))
      → Leaves P Q (lift r >>= f)
  unfolding ◌>>=◌
  lift-bind-Leaves (ok a) f weaken k = record { at = λ w. (k a refl).at w }
  lift-bind-Leaves (err e) f weaken k = record { at = λ w. weaken w.db }

  pub or_fail-bind-Leaves :
      {A B : Type 0} (e : AppError) (o : Option A) (f : A → Io B)
      → ((db : Db) → P db → Q db)
      → ((a : A) → o ≡ some a → Leaves P Q (f a))
      → Leaves P Q (or_fail e o >>= f)
  unfolding ◌>>=◌
  or_fail-bind-Leaves e none f weaken k = record { at = λ w. weaken w.db }
  or_fail-bind-Leaves e (some a) f weaken k = record { at = λ w. (k a refl).at w }

  pub reject-bind-Leaves :
      {B : Type 0} (b : Bool) (e : AppError) (f : Unit {0} → Io B)
      → ((db : Db) → P db → Q db)
      → (b ≡ false → Leaves P Q (f tt))
      → Leaves P Q (reject b e >>= f)
  unfolding ◌>>=◌
  reject-bind-Leaves true e f weaken k = record { at = λ w. weaken w.db }
  reject-bind-Leaves false e f weaken k = record { at = λ w. (k refl).at w }

  pub now-bind-Leaves :
      {B : Type 0} (env : Env) (f : ℕ → Io B)
      → ((t : ℕ) → Leaves P Q (f t))
      → Leaves P Q (now env >>= f)
  unfolding ◌>>=◌ now
  now-bind-Leaves env f k = record { at = λ w p. (k (env.clock w.calls)).at (tick w) p }

  pub query-bind-Leaves :
      {A B : Type 0} (env : Env) (g : Db → A) (f : A → Io B)
      → ((db : Db) → P db → Q db)
      → ((a : A) → Leaves (λ db. P db × (g db ≡ a)) Q (f a))
      → Leaves P Q (query env g >>= f)
  unfolding ◌>>=◌ query
  query-bind-Leaves env g f weaken k = record {
    at = λ w p. elim (Bool-cases (env.fails w.calls)) [
      | inl e ↦ rw e (weaken w.db p)
      | inr e ↦ rw e ((k (g w.db)).at _ (p, refl))
    ];
  }

  pub execute-Leaves :
      {A : Type 0} (env : Env) (f : Db → Option (A × Db))
      → ((db : Db) → P db → Q db)
      → ((db : Db) → P db → Writes Q (f db))
      → Leaves P Q (execute env f)
  unfolding execute
  execute-Leaves env f weaken k = record {
    at = λ w p. elim (Bool-cases (env.fails w.calls)) [
      | inl e ↦ rw e (weaken w.db p)
      | inr e ↦ rw e (written-Keeps Q (f w.db) _ (weaken w.db p) (k w.db p))
    ];
  }

  pub transaction-Leaves :
      {A : Type 0} (env : Env) {body : Io A}
      → ((db : Db) → P db → Q db)
      → Ensures P body (λ _. Q)
      → Leaves P Q (transaction env body)
  unfolding transaction
  transaction-Leaves env {body} weaken k = record {
    at = λ w p. elim (Bool-cases (env.fails w.calls)) [
      | inl e ↦ rw e (weaken w.db p)
      | inr e ↦ rw e (commit-Ensures Q env (body _) w.db (weaken w.db p) (k.at _ p))
    ];
  }
