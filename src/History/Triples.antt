-- ===== src/History/Triples.antt =====
-- What holds of the hot cache after an action that succeeds, whatever Valkey answered.
use vussa.Base.{◌≡◌, refl, Bool, true, false, List, [], ◌∷◌, if◌then◌else◌}
use vussa.Error.{Result, ok, err}
use vussa.Rooms.{Answer}
use vussa.History.Commands.{HotCache}
use vussa.History.{Valkey, Cache, call, call_with, give, after, ◌>>=◌}

abbrev pub OnOk : {A : Type 0} → (A → HotCache → Type 0) → Result A × Valkey → Type 0
OnOk Q (ok a, v) = Q a v.hot
OnOk Q (err e, v) = Unit

pub record Triple {A : Type 0} (P : HotCache → Type 0) (m : Cache A) (Q : A → HotCache → Type 0)
    : Type 0 where
  pub at : (v : Valkey) → P v.hot → OnOk Q (m v)

module _ {A : Type 0} (Q : A → HotCache → Type 0) where
  call_with-OnOk :
      (f : HotCache → A × HotCache) (hot : HotCache) (answers : List Answer)
      → Q (f hot).0 (f hot).1
      → OnOk Q (call_with f hot answers)
  call_with-OnOk f hot [] h = h
  call_with-OnOk f hot (Answer.done ∷ rest) h = h
  call_with-OnOk f hot (Answer.refused ∷ rest) h = tt
  call_with-OnOk f hot (Answer.failed_late ∷ rest) h = tt

module _ {A : Type 0} {P : HotCache → Type 0} {Q : A → HotCache → Type 0} where
  pub give-Triple : (a : A) → ((hot : HotCache) → P hot → Q a hot) → Triple P (give a) Q
  unfolding give
  give-Triple a h = record { at = λ v. h v.hot }

  pub call-Triple :
      (f : HotCache → A × HotCache)
      → ((hot : HotCache) → P hot → Q (f hot).0 (f hot).1)
      → Triple P (call f) Q
  unfolding call
  call-Triple f h = record { at = λ v p. call_with-OnOk Q f v.hot v.answers (h v.hot p) }

  pub if-Triple :
      (b : Bool) (m n : Cache A)
      → (b ≡ true → Triple P m Q)
      → (b ≡ false → Triple P n Q)
      → Triple P (if b then m else n) Q
  if-Triple true m n hm hn = hm refl
  if-Triple false m n hm hn = hn refl

module _ {A B : Type 0} (Q : A → HotCache → Type 0) {R : B → HotCache → Type 0} where
  after-OnOk :
      (r : Result A × Valkey) (f : A → Cache B)
      → OnOk Q r
      → ((a : A) → Triple (Q a) (f a) R)
      → OnOk R (after r.0 f r.1)
  after-OnOk (ok a, v) f h k = (k a).at v h
  after-OnOk (err e, v) f h k = tt

  pub bind-Triple :
      {P : HotCache → Type 0} {m : Cache A} {f : A → Cache B}
      → Triple P m Q
      → ((a : A) → Triple (Q a) (f a) R)
      → Triple P (m >>= f) R
  unfolding ◌>>=◌
  bind-Triple {m = m} {f} h k = record { at = λ v p. after-OnOk (m v) f (h.at v p) k }

nothing-OnOk : {A : Type 0} (r : Result A × Valkey) → OnOk (λ (_ : A) _. Unit) r
nothing-OnOk (ok a, v) = tt
nothing-OnOk (err e, v) = tt

-- An action after which nothing need be known.
pub any-Triple : {A : Type 0} (m : Cache A) → Triple (λ _. Unit) m (λ _ _. Unit)
any-Triple m = record { at = λ v p. nothing-OnOk (m v) }
