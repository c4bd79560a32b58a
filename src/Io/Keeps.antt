-- ===== src/Io/Keeps.antt =====
-- Invariants of the database that actions keep, whatever the services answer: one rule for each way
-- to build an action.
use vussa.Base.{
  inl, inr, Bool, true, false, String, Option, none, some, Bool-cases, arith, if◌then◌else◌,
}
use vussa.Models.{ServerEvent}
use vussa.Error.{AppError, Result, ok, err}
use vussa.Database.{Db}
use vussa.Io.{
  Env, World, Io, pure, raise, lift, or_fail, reject, continue, ◌>>=◌, ignore, now, new_uuid, query,
  written, execute, commit, transaction, publish,
}

pub record Keeps (P : Db → Type 0) {A : Type 0} (m : Io A) : Type 0 where
  pub at : (w : World) → P w.db → P (m w).1.db

module _ {P : Db → Type 0} {A : Type 0} where
  pub pure-Keeps : (a : A) → Keeps P (pure a)
  unfolding pure
  pure-Keeps a = record { at = λ w h. h }

  pub raise-Keeps : (e : AppError) → Keeps P (raise {A = A} e)
  unfolding raise
  raise-Keeps e = record { at = λ w h. h }

  pub lift-Keeps : (r : Result A) → Keeps P (lift r)
  unfolding lift
  lift-Keeps r = record { at = λ w h. h }

  pub or_fail-Keeps : (e : AppError) (o : Option A) → Keeps P (or_fail e o)
  or_fail-Keeps e none = raise-Keeps e
  or_fail-Keeps e (some a) = pure-Keeps a

  pub ignore-Keeps : {m : Io A} → Keeps P m → Keeps P (ignore m)
  unfolding ignore
  ignore-Keeps k = record { at = k.at }

  pub if-Keeps : (b : Bool) (m n : Io A) → Keeps P m → Keeps P n → Keeps P (if b then m else n)
  if-Keeps true m n km kn = km
  if-Keeps false m n km kn = kn

pub reject-Keeps : {P : Db → Type 0} (b : Bool) (e : AppError) → Keeps P (reject b e)
reject-Keeps true e = raise-Keeps e
reject-Keeps false e = pure-Keeps tt

module _ {P : Db → Type 0} {A B : Type 0} where
  -- The rest may use that `r` is no error.
  continue-Keeps :
      (r : Result A) (f : A → Io B) (w : World)
      → ((a : A) → Keeps P (f a))
      → P w.db
      → P (continue r f w).1.db
  continue-Keeps (ok a) f w k h = (k a).at w h
  continue-Keeps (err e) f w k h = h

  pub bind-Keeps :
      (m : Io A) (f : A → Io B) → Keeps P m → ((a : A) → Keeps P (f a)) → Keeps P (m >>= f)
  unfolding ◌>>=◌
  bind-Keeps m f km kf = record {
    at = λ w h. let (r, w') = m w in continue-Keeps r f w' kf (km.at w h);
  }

module _ {P : Db → Type 0} (env : Env) where
  pub now-Keeps : Keeps P (now env)
  unfolding now
  now-Keeps = record { at = λ w h. h }

  pub new_uuid-Keeps : Keeps P (new_uuid env)
  unfolding new_uuid
  new_uuid-Keeps = record { at = λ w h. h }

  pub publish-Keeps : (topic : String) (event : ServerEvent) → Keeps P (publish env topic event)
  unfolding publish
  publish-Keeps topic event = record { at = λ w h. ground arith }

  pub query-Keeps : {A : Type 0} (f : Db → A) → Keeps P (query env f)
  unfolding query
  query-Keeps f = record { at = λ w h. ground arith }

-- What a statement that writes must satisfy.
abbrev pub Writes : (Db → Type 0) → {A : Type 0} → Option (A × Db) → Type 0
Writes P none = Unit
Writes P (some (a, db)) = P db

pub written-Keeps :
    (P : Db → Type 0) {A : Type 0} (o : Option (A × Db)) (w : World)
    → P w.db
    → Writes P o
    → P (written o w).1.db
unfolding written
written-Keeps P none w h k = h
written-Keeps P (some (a, db)) w h k = k

pub commit-Keeps :
    (P : Db → Type 0) (env : Env) {A : Type 0} (r : Result A) (before : Db) (w : World)
    → P before
    → P w.db
    → P (commit env r before w).1.db
unfolding commit
commit-Keeps P env (err e) before w hb h = hb
commit-Keeps P env (ok a) before w hb h = elim (Bool-cases (env.fails w.calls)) [
  | inl e ↦ elim (Bool-cases (env.applied w.calls)) [ inl d ↦ rw (e, d) h | inr d ↦ rw (e, d) hb ]
  | inr e ↦ rw e h
]

module _ {P : Db → Type 0} (env : Env) {A : Type 0} where
  pub execute-Keeps :
      (f : Db → Option (A × Db)) → ((db : Db) → P db → Writes P (f db)) → Keeps P (execute env f)
  unfolding execute
  execute-Keeps f k = record {
    at = λ w h. elim (Bool-cases (env.fails w.calls)) [
      | inl e ↦ rw e h
      | inr e ↦ rw e (written-Keeps P (f w.db) _ h (k w.db h))
    ];
  }

  pub transaction-Keeps : {body : Io A} → Keeps P body → Keeps P (transaction env body)
  unfolding transaction
  transaction-Keeps {body} k = record {
    at = λ w h. elim (Bool-cases (env.fails w.calls)) [
      | inl e ↦ rw e h
      | inr e ↦ rw e (commit-Keeps P env _ w.db _ h (k.at _ h))
    ];
  }

pub ruleset keeps_rules = (
  pure-Keeps, raise-Keeps, lift-Keeps, or_fail-Keeps, ignore-Keeps, if-Keeps, reject-Keeps,
  bind-Keeps, now-Keeps, new_uuid-Keeps, publish-Keeps, query-Keeps, transaction-Keeps,
)
