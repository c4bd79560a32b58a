-- ===== src/Services/Ownership/Statements.antt =====
-- Each SQL statement of backend/src/services.rs leaves owners and their rows in agreement.
use vussa.Base.{
  ℕ, ◌==◌, ◌≡◌, refl, String, true, false, not, ◌&&◌, ◌||◌, Option, none, some, [], ◌∷◌, ◌++◌, any,
  any-append, any-keep, any-or_left, any-or_right, any_of_keep, ◌∙◌, find, arith, Bool-cases, inl,
  inr, ==_iff,
}
use vussa.Models.{Uuid}
use vussa.Database.{Db, ChannelRow, MemberRow, Kind, Role, is_owner}
use vussa.Database.Tables.{has_id, has_name, is_live, is_null, is_membership, has_member}
use vussa.Io.Keeps.{Writes}
use vussa.Services.Statements.{
  new_channel, new_member, insert_channel, returning, upsert_found, upsert_channel, insert_direct,
  insert_member, delete_member, mark_deleted, mark, revive, has_direct_twin, is_direct_key,
  is_removable,
}
use vussa.Services.Ownership.{
  IsConsistent, append-ids, append-names, has_owner_row, is_owner_row, owner_of-append,
  no_owner_row, update-IsConsistent, has_owner_row-append, has_member-append,
}

insert_unowned :
    (c : ChannelRow) (db : Db)
    → c.owner_user_id ≡ none
    → any (has_id c.id) db.channels ≡ false
    → any (has_name c.name) db.channels ≡ false
    → IsConsistent db
    → IsConsistent (record db { channels = db.channels ++ c ∷ [] })
insert_unowned c db unowned absent new v = record {
  ids = append-ids db.channels c absent v.ids;
  names = append-names db.channels c new v.names;
  agree = λ i u. rw (owner_of-append db.channels c i absent) (elim (Bool-cases (c.id == i)) [
    | inl e ↦ rw (e, unowned, ← (==_iff c.id i).0 e) (no_owner_row db c.id u v absent)
    | inr e ↦ rw e (v.agree i u)
  ]);
  known = λ i u h. rw (any-append (has_id i) db.channels (c ∷ []), v.known i u h) refl;
}

insert_channel-Writes :
    {A : Type 0} (a : A) (c : ChannelRow) (db : Db)
    → c.owner_user_id ≡ none
    → IsConsistent db
    → Writes IsConsistent (returning a (insert_channel c db))
unfolding insert_channel
insert_channel-Writes a c db unowned v =
    elim (Bool-cases (any (λ d. has_id c.id d || has_name c.name d) db.channels)) [
      | inl e ↦ rw e tt
      | inr e ↦ rw e (
          insert_unowned c db unowned (any-or_left (has_id c.id) (has_name c.name) db.channels e)
            (any-or_right (has_id c.id) (has_name c.name) db.channels e) v)
    ]

upsert_found-Writes :
    (id : Uuid) (name : String) (t : ℕ) (found : Option ChannelRow) (db : Db)
    → IsConsistent db
    → Writes IsConsistent (upsert_found id name t found db)
unfolding upsert_found
upsert_found-Writes id name t none db v =
    insert_channel-Writes (some id) (new_channel id name Kind.public none none t) db refl v
upsert_found-Writes id name t (some c) db v = elim (Bool-cases (is_null c.deleted_at)) [
  | inl e ↦ rw e v
  | inr e ↦ rw e (elim (Bool-cases (has_direct_twin c db)) [
    | inl twin ↦ rw twin tt
    | inr single ↦
        rw single
          (update-IsConsistent (has_name name) revive (λ d. refl) (λ d. refl) (λ d. refl) db v)
  ])
]

pub upsert_channel-Writes :
    (id : Uuid) (name : String) (t : ℕ) (db : Db)
    → IsConsistent db
    → Writes IsConsistent (upsert_channel id name t db)
unfolding upsert_channel
upsert_channel-Writes id name t db v =
    upsert_found-Writes id name t (find (has_name name) db.channels) db v

pub insert_direct-Writes :
    (id : Uuid) (name key : String) (t : ℕ) (db : Db)
    → IsConsistent db
    → Writes IsConsistent (insert_direct id name key t db)
unfolding insert_direct
insert_direct-Writes id name key t db v = elim (Bool-cases (any (is_direct_key key) db.channels)) [
  | inl e ↦ rw e v
  | inr e ↦ rw e (
      insert_channel-Writes (some (id, name)) (new_channel id name Kind.direct none (some key) t) db
        refl v)
]

append_member :
    (m : MemberRow) (db : Db)
    → is_owner m.membership_role ≡ false
    → any (has_id m.channel_id) db.channels ≡ true
    → IsConsistent db
    → IsConsistent (record db { members = db.members ++ m ∷ [] })
append_member m db low exists v = record {
  ids = v.ids;
  names = v.names;
  agree = λ c u. rw (has_owner_row-append db.members m c u) (ground (arith, v.agree c u));
  known = λ c u h.
      ground (arith, has_member-append db.members m c u, v.known c u, ==_iff m.channel_id c);
}

pub insert_member-Writes :
    (channel user : Uuid) (role : Role) (inviter : Option Uuid) (t : ℕ) (db : Db)
    → is_owner role ≡ false
    → IsConsistent db
    → Writes IsConsistent (insert_member channel user role inviter t db)
unfolding insert_member
insert_member-Writes channel user role inviter t db low v =
    elim (Bool-cases (has_member db.members channel user)) [
      | inl e ↦ rw e v
      | inr e ↦
          rw e
            (elim (Bool-cases
              (any (has_id channel) db.channels && any (λ w. w.id == user) db.users)) [
                | inl known ↦
                    rw known (
                      append_member (new_member channel user role inviter t) db low (ground arith)
                        v)
                | inr absent ↦ rw absent tt
              ])
    ]

pub delete_member-Writes :
    (channel user : Uuid) (db : Db)
    → IsConsistent db
    → Writes IsConsistent (delete_member channel user db)
unfolding delete_member has_owner_row has_member
delete_member-Writes channel user db v = record {
  ids = v.ids;
  names = v.names;
  agree = λ c u.
      any-keep (is_owner_row c u) (λ m. not (is_removable channel user m)) (λ m h. ground arith)
        db.members
      ∙ v.agree c u;
  known = λ c u h.
      v.known c u
        (any_of_keep (is_membership c u) (λ m. not (is_removable channel user m)) db.members h);
}

pub mark_deleted-Writes :
    (name : String) (t : ℕ) (db : Db)
    → IsConsistent db
    → Writes IsConsistent (mark_deleted name t db)
unfolding mark_deleted
mark_deleted-Writes name t db v =
    update-IsConsistent (is_live name) (mark t) (λ c. refl) (λ c. refl) (λ c. refl) db v
