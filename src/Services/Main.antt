-- ===== src/Services/Main.antt =====
-- No operation of backend/src/services.rs takes the main channel away.
use vussa.Base.{
  ℕ, ◌==◌, ◌≡◌, refl, String, str_eq, true, false, ◌&&◌, ◌||◌, Option, none, some, List, [], ◌∷◌,
  any, any-append, find, inl, inr, Bool-cases, arith, eq_iff,
}
use vussa.Models.{Uuid, AuthUser}
use vussa.Database.{Db, ChannelRow, Kind, Role}
use vussa.Database.Tables.{has_name, has_id, is_live, is_null, has_member, update}
use vussa.Text.{main_channel}
use vussa.Io.{Env}
use vussa.Io.Keeps.{Keeps, Writes, bind-Keeps, reject-Keeps, execute-Keeps, transaction-Keeps}
use vussa.Services.{private_rows}
use vussa.Services.Statements.{
  new_channel, insert_channel, returning, revive, mark, upsert_found, upsert_channel,
  has_direct_twin, insert_private, insert_direct, insert_member, delete_member, mark_deleted,
  is_direct_key,
}
use vussa.Services.Publishing.Logs.{LogsApart, record_audit-Keeps}
use vussa.Services.Invariants.{StatementsKeep}

-- The main channel is there, and not deleted.
pub record HasMain (db : Db) : Type 0 where
  pub live : any (is_live main_channel) db.channels ≡ true

pub HasMain-LogsApart : LogsApart HasMain
HasMain-LogsApart = record {
  audits = λ db rows v. record { live = v.live };
  messages = λ db rows v. record { live = v.live };
}

insert_channel-HasMain :
    {A : Type 0} (a : A) (c : ChannelRow) (db : Db)
    → HasMain db
    → Writes HasMain (returning a (insert_channel c db))
unfolding insert_channel
insert_channel-HasMain a c db v =
    elim (Bool-cases (any (λ d. has_id c.id d || has_name c.name d) db.channels)) [
      | inl e ↦ rw e tt
      | inr e ↦ rw e (record {
        live = rw (any-append (is_live main_channel) db.channels (c ∷ []), v.live) refl;
      })
    ]

revive-live :
    (name : String) (cs : List ChannelRow)
    → any (is_live main_channel) cs ≡ true
    → any (is_live main_channel) (update (has_name name) revive cs) ≡ true
unfolding update
revive-live name [] h = h
revive-live name (c ∷ cs) h = ground (arith, revive-live name cs)

mark-live :
    (name : String) (t : ℕ) (cs : List ChannelRow)
    → str_eq name main_channel ≡ false
    → any (is_live main_channel) cs ≡ true
    → any (is_live main_channel) (update (is_live name) (mark t) cs) ≡ true
unfolding update mark
mark-live name t [] other h = h
mark-live name t (c ∷ cs) other h = ground (
  arith,
  mark-live name t cs,
  eq_iff c.name name,
  eq_iff c.name main_channel,
  eq_iff name main_channel,
)

upsert_found-HasMain :
    (id : Uuid) (name : String) (t : ℕ) (found : Option ChannelRow) (db : Db)
    → HasMain db
    → Writes HasMain (upsert_found id name t found db)
unfolding upsert_found
upsert_found-HasMain id name t none db v =
    insert_channel-HasMain (some id) (new_channel id name Kind.public none none t) db v
upsert_found-HasMain id name t (some c) db v = elim (Bool-cases (is_null c.deleted_at)) [
  | inl e ↦ rw e v
  | inr e ↦ rw e (elim (Bool-cases (has_direct_twin c db)) [
    | inl twin ↦ rw twin tt
    | inr single ↦ rw single (record { live = revive-live name db.channels v.live })
  ])
]

upsert_channel-HasMain :
    (id : Uuid) (name : String) (t : ℕ) (db : Db)
    → HasMain db
    → Writes HasMain (upsert_channel id name t db)
unfolding upsert_channel
upsert_channel-HasMain id name t db v =
    upsert_found-HasMain id name t (find (has_name name) db.channels) db v

insert_private-HasMain :
    (id : Uuid) (name : String) (user : Uuid) (t : ℕ) (db : Db)
    → HasMain db
    → Writes HasMain (insert_private id name user t db)
unfolding insert_private
insert_private-HasMain id name user t db v = elim (Bool-cases (any (has_name name) db.channels)) [
  | inl e ↦ rw e v
  | inr e ↦
      rw e (insert_channel-HasMain true (new_channel id name Kind.private (some user) none t) db v)
]

insert_direct-HasMain :
    (id : Uuid) (name key : String) (t : ℕ) (db : Db)
    → HasMain db
    → Writes HasMain (insert_direct id name key t db)
unfolding insert_direct
insert_direct-HasMain id name key t db v = elim (Bool-cases (any (is_direct_key key) db.channels)) [
  | inl e ↦ rw e v
  | inr e ↦ rw e (
      insert_channel-HasMain (some (id, name)) (new_channel id name Kind.direct none (some key) t)
        db v)
]

insert_member-HasMain :
    (channel user : Uuid) (role : Role) (inviter : Option Uuid) (t : ℕ) (db : Db)
    → HasMain db
    → Writes HasMain (insert_member channel user role inviter t db)
unfolding insert_member
insert_member-HasMain channel user role inviter t db v =
    elim (Bool-cases (has_member db.members channel user)) [
      | inl e ↦ rw e v
      | inr e ↦
          rw e
            (elim (Bool-cases
              (any (has_id channel) db.channels && any (λ w. w.id == user) db.users)) [
                | inl there ↦ rw there (record { live = v.live })
                | inr absent ↦ rw absent tt
              ])
    ]

private_rows-HasMain :
    (env : Env) (actor : AuthUser) (id : Uuid) (name : String) (t : ℕ)
    → Keeps HasMain (private_rows env actor id name t)
unfolding private_rows
private_rows-HasMain env actor id name t =
    bind-Keeps _ _ (execute-Keeps env _ (insert_private-HasMain id name actor.id t)) λ inserted.
      bind-Keeps _ _ (reject-Keeps _ _) λ _.
        bind-Keeps _ _ (execute-Keeps env _ (insert_member-HasMain id actor.id Role.owner _ t))
          λ _. record_audit-Keeps HasMain-LogsApart env _ _ _ id _ t

-- Each statement that the operations of services.rs run leaves the main channel in place.
pub HasMain-StatementsKeep : StatementsKeep HasMain
unfolding delete_member mark_deleted
HasMain-StatementsKeep = record {
  apart = HasMain-LogsApart;
  upsert = upsert_channel-HasMain;
  private = λ env actor id name t. transaction-Keeps env (private_rows-HasMain env actor id name t);
  direct = insert_direct-HasMain;
  member = λ channel user inviter t. insert_member-HasMain channel user Role.member inviter t;
  removal = λ channel user db v. record { live = v.live };
  deletion = λ name t db other v. record { live = mark-live name t db.channels other v.live };
}
