-- ===== src/Services/Ownership/Operations.antt =====
-- The operations of backend/src/services.rs leave owners and their rows in agreement. A private
-- channel names its owner one statement before the row of the owner is there, so its transaction is
-- followed to the commit.
use vussa.Base.{
  ℕ, ◌==◌, ◌≡◌, refl, String, true, false, not, ◌&&◌, ◌||◌, Option, none, some, [], ◌∷◌, ◌++◌, any,
  any-append, any-or_left, Distinct, inl, inr, Bool-cases, arith, ==_iff, ==_refl,
}
use vussa.Models.{Uuid, AuthUser}
use vussa.Database.{Db, ChannelRow, Kind, Role}
use vussa.Database.Tables.{has_id, has_name, equals, has_member}
use vussa.Io.{Env}
use vussa.Io.Ensures.{
  Ensures, Establishes, bind-Ensures, execute-Ensures, reject-Ensures, Keeps-Ensures,
  transaction-Ensures,
}
use vussa.Services.{private_rows}
use vussa.Services.Statements.{
  new_channel, new_member, insert_channel, insert_private, insert_member,
}
use vussa.Services.Publishing.Logs.{LogsApart, record_audit-Keeps}
use vussa.Services.Invariants.{StatementsKeep}
use vussa.Services.Ownership.{
  IsConsistent, has_owner_row, owner_of, owner_of-append, no_owner_row, no_member, same_id,
  same_name, append-ids, append-names, has_owner_row-append, has_member-append,
}
use vussa.Services.Ownership.Statements.{
  upsert_channel-Writes, insert_direct-Writes, insert_member-Writes, delete_member-Writes,
  mark_deleted-Writes,
}

pub IsConsistent-LogsApart : LogsApart IsConsistent
IsConsistent-LogsApart = record {
  audits = λ db rows v. record { ids = v.ids; names = v.names; agree = v.agree; known = v.known };
  messages = λ db rows v. record { ids = v.ids; names = v.names; agree = v.agree; known = v.known };
}

-- The channel `id` names `user` as its owner, has no member yet, and all else agrees.
record Pending (id user : Uuid) (db : Db) : Type 0 where
  ids : Distinct same_id db.channels
  names : Distinct same_name db.channels
  others :
      (c u : Uuid)
      → has_owner_row db.members c u ≡ (equals (owner_of db.channels c) u && not (id == c))
  named : owner_of db.channels id ≡ some user
  empty : (u : Uuid) → has_member db.members id u ≡ false
  known : (c u : Uuid) → has_member db.members c u ≡ true → any (has_id c) db.channels ≡ true

insert_owned :
    (c : ChannelRow) (user : Uuid) (db : Db)
    → c.owner_user_id ≡ some user
    → any (has_id c.id) db.channels ≡ false
    → any (has_name c.name) db.channels ≡ false
    → IsConsistent db
    → Pending c.id user (record db { channels = db.channels ++ c ∷ [] })
insert_owned c user db owned absent new v = record {
  ids = append-ids db.channels c absent v.ids;
  names = append-names db.channels c new v.names;
  others = λ i u. rw (owner_of-append db.channels c i absent) (elim (Bool-cases (c.id == i)) [
    | inl e ↦ rw e (ground (arith, no_owner_row db c.id u v absent, ==_iff c.id i))
    | inr e ↦ rw e (ground (arith, v.agree i u))
  ]);
  named = rw (owner_of-append db.channels c c.id absent, ==_refl c.id) owned;
  empty = λ u. no_member db c.id u v absent;
  known = λ i u h. rw (any-append (has_id i) db.channels (c ∷ []), v.known i u h) refl;
}

insert_private-Establishes :
    (id : Uuid) (name : String) (user : Uuid) (t : ℕ) (db : Db)
    → IsConsistent db
    → Establishes
        (λ inserted d. inserted ≡ true → Pending id user d)
        (insert_private id name user t db)
unfolding insert_private insert_channel
insert_private-Establishes id name user t db v =
    elim (Bool-cases (any (has_name name) db.channels)) [
      | inl e ↦ rw e (λ h. cc)
      | inr e ↦ rw e (elim (Bool-cases (any (λ d. has_id id d || has_name name d) db.channels)) [
        | inl clash ↦ rw clash tt
        | inr free ↦ rw free (λ h.
            insert_owned (new_channel id name Kind.private (some user) none t) user db refl
              (any-or_left (has_id id) (has_name name) db.channels free) e v)
      ])
    ]

insert_owner-Establishes :
    (id user : Uuid) (inviter : Option Uuid) (t : ℕ) (db : Db)
    → Pending id user db
    → Establishes (λ _. IsConsistent) (insert_member id user Role.owner inviter t db)
unfolding insert_member
insert_owner-Establishes id user inviter t db p =
    rw (p.empty user)
      (elim (Bool-cases (any (has_id id) db.channels && any (λ w. w.id == user) db.users)) [
        | inl there ↦ rw there (record {
          ids = p.ids;
          names = p.names;
          agree = λ c u.
              rw (has_owner_row-append db.members (new_member id user Role.owner inviter t) c u)
                (ground (arith, p.others c u, p.named, ==_iff id c));
          known = λ c u h. ground (
            arith,
            has_member-append db.members (new_member id user Role.owner inviter t) c u,
            p.known c u,
            ==_iff id c,
          );
        })
        | inr absent ↦ rw absent tt
      ])

private_rows-Ensures :
    (env : Env) (actor : AuthUser) (id : Uuid) (name : String) (t : ℕ)
    → Ensures IsConsistent (private_rows env actor id name t) (λ _. IsConsistent)
unfolding private_rows
private_rows-Ensures env actor id name t =
    bind-Ensures (λ inserted db. inserted ≡ true → Pending id actor.id db)
      (execute-Ensures env _ (insert_private-Establishes id name actor.id t))
      λ inserted.
        bind-Ensures (λ _. Pending id actor.id)
          (reject-Ensures (not inserted) _ (λ e db h. h (ground arith)))
          λ _.
            bind-Ensures (λ _. IsConsistent)
              (execute-Ensures env _ (insert_owner-Establishes id actor.id _ t))
              λ _. Keeps-Ensures (record_audit-Keeps IsConsistent-LogsApart env _ _ _ id _ t)

pub IsConsistent-StatementsKeep : StatementsKeep IsConsistent
IsConsistent-StatementsKeep = record {
  apart = IsConsistent-LogsApart;
  upsert = upsert_channel-Writes;
  private =
      λ env actor id name t. transaction-Ensures env (private_rows-Ensures env actor id name t);
  direct = insert_direct-Writes;
  member =
      λ channel user inviter t db. insert_member-Writes channel user Role.member inviter t db refl;
  removal = delete_member-Writes;
  deletion = λ name t db _. mark_deleted-Writes name t db;
}
