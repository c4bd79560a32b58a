-- ===== src/Io/Ensures.antt =====
-- What holds of the database when an action succeeds: the rules by which a transaction, which breaks
-- an invariant half way, is shown to restore it before it commits.
use vussa.Base.{inl, inr, Bool, true, false, Option, none, some, Bool-cases, ◌≡◌, refl}
use vussa.Error.{AppError, Result, ok, err}
use vussa.Database.{Db}
use vussa.Io.{
  Env, World, Io, pure, raise, lift, or_fail, reject, continue, ◌>>=◌, query, written, execute,
  commit, transaction,
}
use vussa.Io.Keeps.{Keeps, commit-Keeps}

abbrev pub OnOk : {A : Type 0} → (A → Db → Type 0) → Result A × World → Type 0
OnOk Q (ok a, w) = Q a w.db
OnOk Q (err e, w) = Unit

pub record Ensures {A : Type 0} (P : Db → Type 0) (m : Io A) (Q : A → Db → Type 0) : Type 0 where
  pub at : (w : World) → P w.db → OnOk Q (m w)

module _ {A : Type 0} {P : Db → Type 0} {Q : A → Db → Type 0} where
  pub pure-Ensures : (a : A) → ((db : Db) → P db → Q a db) → Ensures P (pure a) Q
  unfolding pure
  pure-Ensures a h = record { at = λ w. h w.db }

  pub raise-Ensures : (e : AppError) → Ensures P (raise e) Q
  unfolding raise
  raise-Ensures e = record { at = λ w h. tt }

  pub or_fail-Ensures :
      (e : AppError) (o : Option A)
      → ((a : A) → o ≡ some a → (db : Db) → P db → Q a db)
      → Ensures P (or_fail e o) Q
  or_fail-Ensures e none h = raise-Ensures e
  or_fail-Ensures e (some a) h = pure-Ensures a (h a refl)

  pub query-Ensures :
      (env : Env) (f : Db → A) → ((db : Db) → P db → Q (f db) db) → Ensures P (query env f) Q
  unfolding query
  query-Ensures env f h = record {
    at = λ w p. elim (Bool-cases (env.fails w.calls)) [ inl e ↦ rw e tt | inr e ↦ rw e (h w.db p) ];
  }

pub reject-Ensures :
    {P : Db → Type 0} {Q : Unit {0} → Db → Type 0} (b : Bool) (e : AppError)
    → (b ≡ false → (db : Db) → P db → Q tt db)
    → Ensures P (reject b e) Q
reject-Ensures true e h = raise-Ensures e
reject-Ensures false e h = pure-Ensures tt (h refl)

continue-Ensures :
    {A B : Type 0} (Q : A → Db → Type 0) (R : B → Db → Type 0) (x : Result A × World) (f : A → Io B)
    → OnOk Q x
    → ((a : A) → Ensures (Q a) (f a) R)
    → OnOk R (continue x.0 f x.1)
continue-Ensures Q R (ok a, w) f h k = (k a).at w h
continue-Ensures Q R (err e, w) f h k = tt

pub bind-Ensures :
    {A B : Type 0} {P : Db → Type 0} (Q : A → Db → Type 0) {R : B → Db → Type 0} {m : Io A}
    {f : A → Io B}
    → Ensures P m Q
    → ((a : A) → Ensures (Q a) (f a) R)
    → Ensures P (m >>= f) R
unfolding ◌>>=◌
bind-Ensures Q {R} {m} {f} h k = record { at = λ w p. continue-Ensures Q R (m w) f (h.at w p) k }

-- What a statement that writes must establish.
abbrev pub Establishes : {A : Type 0} → (A → Db → Type 0) → Option (A × Db) → Type 0
Establishes Q none = Unit
Establishes Q (some (a, db)) = Q a db

written-Ensures :
    {A : Type 0} (Q : A → Db → Type 0) (o : Option (A × Db)) (w : World)
    → Establishes Q o
    → OnOk Q (written o w)
unfolding written
written-Ensures Q none w h = tt
written-Ensures Q (some (a, db)) w h = h

module _ {A : Type 0} {P : Db → Type 0} {Q : A → Db → Type 0} where
  pub execute-Ensures :
      (env : Env) (f : Db → Option (A × Db))
      → ((db : Db) → P db → Establishes Q (f db))
      → Ensures P (execute env f) Q
  unfolding execute
  execute-Ensures env f h = record {
    at = λ w p. elim (Bool-cases (env.fails w.calls)) [
      | inl e ↦ rw e tt
      | inr e ↦ rw e (written-Ensures Q (f w.db) _ (h w.db p))
    ];
  }

holds-OnOk : {A : Type 0} (P : Db → Type 0) (x : Result A × World) → P x.1.db → OnOk (λ _. P) x
holds-OnOk P (ok a, w) h = h
holds-OnOk P (err e, w) h = tt

-- An action that keeps `P` ensures it.
pub Keeps-Ensures : {A : Type 0} {P : Db → Type 0} {m : Io A} → Keeps P m → Ensures P m (λ _. P)
Keeps-Ensures {P = P} {m} k = record { at = λ w h. holds-OnOk P (m w) (k.at w h) }

pub commit-Ensures :
    (P : Db → Type 0) (env : Env) {A : Type 0} (x : Result A × World) (before : Db)
    → P before
    → OnOk (λ _. P) x
    → P (commit env x.0 before x.1).1.db
unfolding commit
commit-Ensures P env (err e, w) before hb h = hb
commit-Ensures P env (ok a, w) before hb h = commit-Keeps P env (ok a) before w hb h

-- A transaction keeps what its body restores by its end.
pub transaction-Ensures :
    {P : Db → Type 0} (env : Env) {A : Type 0} {body : Io A}
    → Ensures P body (λ _. P)
    → Keeps P (transaction env body)
unfolding transaction
transaction-Ensures {P} env {body = body} k = record {
  at = λ w h. elim (Bool-cases (env.fails w.calls)) [
    | inl e ↦ rw e h
    | inr e ↦ rw e (commit-Ensures P env (body _) w.db h (k.at _ h))
  ];
}

commit-OnOk :
    {A : Type 0} (Q : A → Db → Type 0) (env : Env) (x : Result A × World) (before : Db)
    → OnOk Q x
    → OnOk Q (commit env x.0 before x.1)
unfolding commit
commit-OnOk Q env (err e, w) before h = tt
commit-OnOk Q env (ok a, w) before h = elim (Bool-cases (env.fails w.calls)) [
  | inl e ↦ rw e tt
  | inr e ↦ rw e h
]

-- A transaction that succeeds ensures what its body does.
pub transaction-Ensures_ok :
    {P : Db → Type 0} (env : Env) {A : Type 0} {body : Io A} (Q : A → Db → Type 0)
    → Ensures P body Q
    → Ensures P (transaction env body) Q
unfolding transaction
transaction-Ensures_ok env {body = body} Q k = record {
  at = λ w h. elim (Bool-cases (env.fails w.calls)) [
    | inl e ↦ rw e tt
    | inr e ↦ rw e (commit-OnOk Q env (body _) w.db (k.at _ h))
  ];
}

-- The rest may use that `r` is no error.
pub lift-Ensures :
    {A : Type 0} {P : Db → Type 0} {Q : A → Db → Type 0} (r : Result A)
    → ((a : A) → r ≡ ok a → (db : Db) → P db → Q a db)
    → Ensures P (lift r) Q
unfolding lift
lift-Ensures (ok a) h = record { at = λ w. h a refl w.db }
lift-Ensures (err e) h = record { at = λ w p. tt }

-- A fact about the values at hand may be used at once.
pub given-Ensures :
    {A : Type 0} {P : Db → Type 0} {F : Type 0} {m : Io A} {Q : A → Db → Type 0}
    → (F → Ensures P m Q)
    → Ensures (λ db. P db × F) m Q
given-Ensures k = record { at = λ w h. (k h.1).at w h.0 }
