-- ===== src/Services/Revival.antt =====
-- What `create_public_channel` does with the name of a channel that was deleted.
use vussa.Base.{
  ℕ, ◌≡◌, ◌∙◌, sym, ap, subst, String, Option, none, some, List, [], ◌∷◌, find, inl, inr,
  Bool-cases, arith,
}
use vussa.Models.{Uuid, AuthUser}
use vussa.Error.{Result, ok, err}
use vussa.Database.{Db, ChannelRow}
use vussa.Database.Tables.{has_name, is_null, update}
use vussa.Text.{normalize_channel_name}
use vussa.Io.{Env, World, transaction}
use vussa.Io.Keeps.{bind-Keeps, lift-Keeps, now-Keeps, new_uuid-Keeps, pure-Keeps}
use vussa.Io.Ensures.{
  OnOk, Ensures, Establishes, bind-Ensures, Keeps-Ensures, lift-Ensures, given-Ensures,
  or_fail-Ensures, execute-Ensures, transaction-Ensures_ok,
}
use vussa.Services.Statements.{upsert_channel, upsert_found, revive, has_direct_twin}
use vussa.Services.Publishing.Logs.{
  LogsApart, record_audit-Keeps, publish_system_message-Keeps, broadcast_control-Keeps,
}
use vussa.Services.Invariants.{ensure_not_globally_banned-Keeps}
use vussa.Services.{public_rows, create_public_channel}

abbrev revived : Option ChannelRow → Option ChannelRow
revived none = none
revived (some c) = some (revive c)

find-revive :
    (name : String) (cs : List ChannelRow) (c : ChannelRow)
    → find (has_name name) cs ≡ some c
    → find (has_name name) (update (has_name name) revive cs) ≡ some (revive c)
unfolding find update
find-revive name [] c found = ground arith
find-revive name (x ∷ cs) c found = elim (Bool-cases (has_name name x)) [
  | inl this ↦ rw (this, this) (ap revived (rw this at found))
  | inr other ↦ rw (other, other) (find-revive name cs c (rw other at found))
]

-- The channel with the name is this one.
abbrev pub IsNamed : ChannelRow → Db → Type 0
IsNamed c db = find (has_name c.name) db.channels ≡ some c

IsNamed-LogsApart :
    (name : String) (c : ChannelRow) → LogsApart (λ db. find (has_name name) db.channels ≡ some c)
IsNamed-LogsApart name c = record { audits = λ db rows h. h; messages = λ db rows h. h }

name_in : Result String → String → String
name_in (ok name) other = name
name_in (err e) other = other

same_ok : (a b : String) → ok a ≡ ok b → a ≡ b
unfolding name_in
same_ok a b h = ap (λ r. name_in r a) h

module _ (c : ChannelRow) where
  upsert-Establishes :
      (id : Uuid) (t : ℕ) (db : Db)
      → IsNamed c db
      → Establishes
          (λ o after. (new : Uuid) → o ≡ some new → IsNamed (revive c) after)
          (upsert_channel id c.name t db)
  unfolding upsert_channel upsert_found
  upsert-Establishes id t db h = rw h (elim (Bool-cases (is_null c.deleted_at)) [
    | inl live ↦ rw live (λ new is_new. cc)
    | inr deleted ↦ rw deleted (elim (Bool-cases (has_direct_twin c db)) [
      | inl twin ↦ rw twin tt
      | inr single ↦ rw single (λ new is_new. find-revive c.name db.channels c h)
    ])
  ])

  module _ (env : Env) (actor : AuthUser) where
    public_rows-Ensures :
        (t : ℕ) → Ensures (IsNamed c) (public_rows env actor c.name t) (λ _. IsNamed (revive c))
    unfolding public_rows
    public_rows-Ensures t =
        bind-Ensures (λ _. IsNamed c) (Keeps-Ensures (new_uuid-Keeps env))
          λ id.
            bind-Ensures (λ o after. (new : Uuid) → o ≡ some new → IsNamed (revive c) after)
              (execute-Ensures env _ (upsert-Establishes id t))
              λ found.
                bind-Ensures (λ _. IsNamed (revive c))
                  (or_fail-Ensures _ found λ new is_new db h. h new is_new)
                  λ channel.
                    Keeps-Ensures (
                      record_audit-Keeps (IsNamed-LogsApart c.name (revive c)) env _ _ _ channel _
                        t)

    committed-Ensures :
        (name : String) (t : ℕ)
        → name ≡ c.name
        → Ensures
            (IsNamed c)
            (transaction env (public_rows env actor name t))
            (λ _. IsNamed (revive c))
    committed-Ensures name t same =
        subst
          (λ n.
            Ensures (IsNamed c) (transaction env (public_rows env actor n t))
              (λ _. IsNamed (revive c)))
          (sym same) (transaction-Ensures_ok env _ (public_rows-Ensures t))

    create-Ensures :
        (raw : String)
        → normalize_channel_name env.unicode raw ≡ ok c.name
        → Ensures (IsNamed c) (create_public_channel env actor raw) (λ _. IsNamed (revive c))
    unfolding create_public_channel
    create-Ensures raw is_name =
        bind-Ensures (λ _. IsNamed c) (Keeps-Ensures (lift-Keeps _))
          λ _.
            bind-Ensures (λ _. IsNamed c)
              (Keeps-Ensures (ensure_not_globally_banned-Keeps env actor.id))
              λ _.
                bind-Ensures (λ name db. IsNamed c db × (name ≡ c.name))
                  (lift-Ensures _ λ name got db h. (h, same_ok name c.name (sym got ∙ is_name)))
                  λ name. given-Ensures λ same.
                    bind-Ensures (λ _. IsNamed c) (Keeps-Ensures (now-Keeps env))
                      λ t.
                        bind-Ensures (λ _. IsNamed (revive c)) (committed-Ensures name t same)
                          λ _. Keeps-Ensures (
                            bind-Keeps _ _
                              (publish_system_message-Keeps (IsNamed-LogsApart c.name (revive c))
                                env name _)
                              λ _.
                                bind-Keeps _ _ (broadcast_control-Keeps env _) λ _. pure-Keeps name)

    -- Where a channel has the name already that the given one is normalised to: if
    -- `create_public_channel` succeeds, the channel with the name is that one, no longer
    -- deleted, with all else as before: its identifier, its kind, its owner.
    pub create_public_channel-IsNamed :
        (raw : String) (w : World)
        → normalize_channel_name env.unicode raw ≡ ok c.name
        → find (has_name c.name) w.db.channels ≡ some c
        → OnOk
            (λ _. IsNamed (record c { deleted_at = none }))
            (create_public_channel env actor raw w)
    create_public_channel-IsNamed raw w is_name named = (create-Ensures raw is_name).at w named
