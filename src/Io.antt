-- ===== src/Io.antt =====
-- Handlers as actions: what a handler does to the database and to the Pub/Sub channels, beside its
-- result. An environment says what the services answer at each call: whether the call fails, what
-- the clock reads, which identifier `Uuid::now_v7` makes. One handler runs at a time.
pub mod Keeps
pub mod Ensures
pub mod Guards
use vussa.Base.{
  ℕ, suc, Bool, true, false, String, List, [], ◌∷◌, ◌++◌, Option, none, some, if◌then◌else◌,
}
use vussa.Models.{Uuid, ServerEvent}
use vussa.Error.{AppError, Result, ok, err, SqlxError, from_sqlx_error, from_redis_error}
use vussa.Database.{Db}
use vussa.Text.{Unicode}

pub record Env : Type 0 where
  -- Does the call with this number fail?
  pub fails : ℕ → Bool
  -- Was a commit that failed applied all the same?
  pub applied : ℕ → Bool
  pub clock : ℕ → ℕ
  pub uuid : ℕ → Uuid
  -- `Display for Uuid`.
  pub uuid_text : Uuid → String
  -- The order of texts in the database, `ORDER BY username`.
  pub collates : String → String → Bool
  pub unicode : Unicode

-- `published` is what went out by `PUBLISH`, oldest first.
pub record World : Type 0 where
  pub calls : ℕ
  pub db : Db
  pub published : List (String × ServerEvent)

abbrev pub Io : Type 0 → Type 0
Io A = World → Result A × World

abbrev pub tick : World → World
tick w = record w { calls = suc w.calls }

module _ {A : Type 0} where
  pub pure : A → Io A
  pure a w = (ok a, w)

  pub raise : AppError → Io A
  raise e w = (err e, w)

  pub lift : Result A → Io A
  lift r w = (r, w)

  -- `.ok_or(e)?` on the result of a query.
  abbrev pub or_fail : AppError → Option A → Io A
  or_fail e none = raise e
  or_fail e (some a) = pure a

-- `if failed { return Err(e) }`.
abbrev pub reject : Bool → AppError → Io (Unit {0})
reject true e = raise e
reject false e = pure tt

module _ {A B : Type 0} where
  abbrev pub continue : Result A → (A → Io B) → Io B
  continue (ok a) f w = f a w
  continue (err e) f w = (err e, w)

  infixl 10 ◌>>=◌ ◌>>◌
  unfoldable pub ◌>>=◌ : Io A → (A → Io B) → Io B
  unfolding pure raise lift
  ◌>>=◌ m f w = let (r, w') = m w in continue r f w'

  abbrev pub ◌>>◌ : Io A → Io B → Io B
  m >> n = m >>= λ _. n

-- `let _ = m.await`: the result is dropped.
unfoldable pub ignore : {A : Type 0} → Io A → Io (Unit {0})
ignore m w = (ok tt, (m w).1)

pub written : {A : Type 0} → Option (A × Db) → Io A
written none w = (err (from_sqlx_error SqlxError.reported), w)
written (some (a, db)) w = (ok a, record w { db = db })

pub commit : {A : Type 0} → Env → Result A → Db → Io A
commit env (err e) before w = (err e, record w { db = before })
commit env (ok a) before w =
    if env.fails w.calls
    then (
      err (from_sqlx_error SqlxError.failed),
      (if env.applied w.calls then tick w else record w { calls = suc w.calls; db = before }),
    )
    else (ok a, tick w)

module _ (env : Env) where
  pub now : Io ℕ
  now w = (ok (env.clock w.calls), tick w)

  pub new_uuid : Io Uuid
  new_uuid w = (ok (env.uuid w.calls), tick w)

  -- A statement that reads.
  unfoldable pub query : {A : Type 0} → (Db → A) → Io A
  query f w =
      if env.fails w.calls
      then (err (from_sqlx_error SqlxError.failed), tick w)
      else (ok (f w.db), tick w)

  -- A statement that writes; `none` is a constraint that it would break.
  pub execute : {A : Type 0} → (Db → Option (A × Db)) → Io A
  execute f w =
      if env.fails w.calls
      then (err (from_sqlx_error SqlxError.failed), tick w)
      else written (f w.db) (tick w)

  -- `pool.begin()`, the statements of `body`, `transaction.commit()`. What an early return of the
  -- body leaves behind is rolled back.
  pub transaction : {A : Type 0} → Io A → Io A
  transaction body w =
      if env.fails w.calls
      then (err (from_sqlx_error SqlxError.failed), tick w)
      else let (r, w') = body (tick w) in commit env r w.db w'

  -- `broadcast`: a connection of the pool and `PUBLISH`.
  unfoldable pub publish : String → ServerEvent → Io (Unit {0})
  publish topic event w =
      if env.fails w.calls
      then (err from_redis_error, tick w)
      else (ok tt, record w { calls = suc w.calls; published = w.published ++ (topic, event) ∷ [] })
