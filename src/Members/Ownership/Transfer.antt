-- ===== src/Members/Ownership/Transfer.antt =====
-- `transfer_channel_ownership` keeps owners and their rows in agreement: its three statements
-- disagree half way, and agree again before the transaction commits.
use vussa.Base.{
  ◌==◌, ◌≡◌, refl, ◌∙◌, sym, String, Bool, true, false, not, ◌&&◌, ◌||◌, Option, none, some, List,
  [], ◌∷◌, any, find, if◌then◌else◌, arith, Distinct, ==_iff,
}
use vussa.Models.{Uuid, Session}
use vussa.Error.{Result}
use vussa.Database.{Db, ChannelRow, MemberRow, Role}
use vussa.Database.Tables.{has_id, is_live, equals, is_membership, has_member, update}
use vussa.Io.{Env, now, transaction, ◌>>=◌}
use vussa.Io.Keeps.{Keeps, bind-Keeps, now-Keeps}
use vussa.Io.Ensures.{Ensures, Establishes, bind-Ensures, execute-Ensures, pure-Ensures}
use vussa.Io.Guards.{
  Leaves, bind-Leaves, lift-bind-Leaves, reject-bind-Leaves, or_fail-bind-Leaves, query-bind-Leaves,
  transaction-Leaves,
}
use vussa.Services.Publishing.Logs.{record_audit-Keeps}
use vussa.Services.Ownership.{
  IsConsistent, same_id, same_name, has_owner_row, owner_of, find-id, update-ids, update-names,
  has_id-update,
}
use vussa.Services.Ownership.Operations.{IsConsistent-LogsApart}
use vussa.Members.Statements.{
  select_owner, set_role, with_role, set_owner, set_moderator, set_owner_role, owned_by,
  id_and_owner,
}
use vussa.Services.Publishing.{record_audit}
use vussa.Members.{announce_members, transfer_rows, transfer_metadata, transfer_channel_ownership}
use vussa.Members.Ownership.{has_member-set_role}
use vussa.Members.Ownership.Handlers.{announce_members-Keeps}

owner_of-owned_by :
    (cs : List ChannelRow) (id user c : Uuid)
    → owner_of (update (has_id id) (owned_by user) cs) c
      ≡ (if id == c && any (has_id id) cs then some user else owner_of cs c)
unfolding owner_of update find
owner_of-owned_by [] id user c = ground arith
owner_of-owned_by (d ∷ cs) id user c = ground (arith, owner_of-owned_by cs id user c)

has_owner_row-lowered :
    (ms : List MemberRow) (id user c u : Uuid)
    → has_owner_row (update (is_membership id user) (with_role Role.moderator) ms) c u
      ≡ (has_owner_row ms c u && not (id == c && user == u))
unfolding has_owner_row update
has_owner_row-lowered [] id user c u = refl
has_owner_row-lowered (m ∷ ms) id user c u = ground (arith, has_owner_row-lowered ms id user c u)

has_owner_row-raised :
    (ms : List MemberRow) (id user c u : Uuid)
    → has_owner_row (update (is_membership id user) (with_role Role.owner) ms) c u
      ≡ (has_owner_row ms c u || (id == c && user == u && has_member ms c u))
unfolding has_owner_row update has_member
has_owner_row-raised [] id user c u = ground arith
has_owner_row-raised (m ∷ ms) id user c u = ground (arith, has_owner_row-raised ms id user c u)

-- Half way: `id` names `new`, whose row is not yet an owner's; `holds` tells whose row is.
record Moving (id new : Uuid) (holds : Uuid → Bool) (db : Db) : Type 0 where
  ids : Distinct same_id db.channels
  names : Distinct same_name db.channels
  rows :
      (c u : Uuid)
      → has_owner_row db.members c u
        ≡ (if id == c then holds u else equals (owner_of db.channels c) u)
  named : owner_of db.channels id ≡ some new
  target : has_member db.members id new ≡ true
  known : (c u : Uuid) → has_member db.members c u ≡ true → any (has_id c) db.channels ≡ true

set_owner-Establishes :
    (id old new : Uuid) (db : Db)
    → IsConsistent db
    → equals (owner_of db.channels id) old ≡ true
    → has_member db.members id new ≡ true
    → Establishes (λ _. Moving id new (λ u. old == u)) (set_owner id new db)
unfolding set_owner
set_owner-Establishes id old new db v owned member =
    let there = v.known id new member in
    record {
      ids = update-ids (has_id id) (owned_by new) (λ c. refl) db.channels v.ids;
      names = update-names (has_id id) (owned_by new) (λ c. refl) db.channels v.names;
      rows = λ c u.
          ground (arith, owner_of-owned_by db.channels id new c, v.agree c u, there, ==_iff id c);
      named = ground (arith, owner_of-owned_by db.channels id new id, there);
      target = member;
      known = λ c u h.
          has_id-update (has_id id) (owned_by new) (λ d. refl) db.channels c ∙ v.known c u h;
    }

set_moderator-Establishes :
    (id old new : Uuid) (db : Db)
    → Moving id new (λ u. old == u) db
    → Establishes (λ _. Moving id new (λ _. false)) (set_moderator id old db)
unfolding set_moderator set_role
set_moderator-Establishes id old new db p =
    let same = has_member-set_role (is_membership id old) Role.moderator db.members in
    record {
      ids = p.ids;
      names = p.names;
      rows = λ c u. ground (arith, has_owner_row-lowered db.members id old c u, p.rows c u);
      named = p.named;
      target = same id new ∙ p.target;
      known = λ c u h. p.known c u (sym (same c u) ∙ h);
    }

set_owner_role-Establishes :
    (id new : Uuid) (db : Db)
    → Moving id new (λ _. false) db
    → Establishes (λ _. IsConsistent) (set_owner_role id new db)
unfolding set_owner_role set_role
set_owner_role-Establishes id new db p =
    let same = has_member-set_role (is_membership id new) Role.owner db.members in
    record {
      ids = p.ids;
      names = p.names;
      agree = λ c u. ground (
        arith,
        has_owner_row-raised db.members id new c u,
        p.rows c u,
        p.named,
        p.target,
        ==_iff id c,
      );
      known = λ c u h. p.known c u (sym (same c u) ∙ h);
    }

transfer_rows-Ensures :
    (env : Env) (P : Db → Type 0) (id old new : Uuid)
    → ((db : Db) → P db → IsConsistent db)
    → ((db : Db) → P db → equals (owner_of db.channels id) old ≡ true)
    → ((db : Db) → P db → has_member db.members id new ≡ true)
    → Ensures P (transfer_rows env id old new) (λ _. IsConsistent)
unfolding transfer_rows
transfer_rows-Ensures env P id old new agree owned member =
    bind-Ensures (λ _. Moving id new (λ u. old == u))
      (execute-Ensures env _
        (λ db p. set_owner-Establishes id old new db (agree db p) (owned db p) (member db p)))
      λ _.
        bind-Ensures (λ _. Moving id new (λ _. false))
          (execute-Ensures env _ (set_moderator-Establishes id old new))
          λ _.
            bind-Ensures (λ _. IsConsistent)
              (execute-Ensures env _ (set_owner_role-Establishes id new))
              λ _. pure-Ensures tt (λ db v. v)

id_and_owner-row :
    (o : Option ChannelRow) (row : Uuid × Option Uuid)
    → id_and_owner o ≡ some row
    → (c : ChannelRow) × (o ≡ some c) × (row.0 ≡ c.id) × (row.1 ≡ c.owner_user_id)
id_and_owner-row none row h = cc
id_and_owner-row (some c) row h = (c, refl, ground arith, ground arith)

select_owner-owner :
    (name : String) (row : Uuid × Option Uuid) (db : Db)
    → IsConsistent db
    → select_owner name db ≡ some row
    → owner_of db.channels row.0 ≡ row.1
unfolding select_owner owner_of
select_owner-owner name row db v h =
    let (c, found, is_id, is_owner) = id_and_owner-row (find (is_live name) db.channels) row h in
    rw (is_id, is_owner, find-id (is_live name) db.channels c v.ids found)

module _ (env : Env) where
  -- The transaction and what follows, after the checks.
  transfer_rest-Leaves :
      (session : Session) (name : String) (target : Uuid) (found : Option (Uuid × Option Uuid))
      (row : Uuid × Option Uuid)
      → found ≡ some row
      → not (equals row.1 session.user.id) ≡ false
      → (is_member : Bool) → not is_member ≡ false
      → Leaves
          (λ db.
            (IsConsistent db × (select_owner name db ≡ found))
            × (has_member db.members row.0 target ≡ is_member))
          IsConsistent
          (transaction env (transfer_rows env row.0 session.user.id target) >>= λ _.
            announce_members env name >>= λ _. now env >>= λ t.
            record_audit env
              (some session.user.id)
              "channel.ownership_transferred"
              "channel"
              row.0
              (transfer_metadata env session.user.id target)
              t)
  transfer_rest-Leaves session name target found row is_row owns is_member member =
      bind-Leaves
        (transaction-Leaves env (λ db v. v.0.0)
          (transfer_rows-Ensures env _ row.0 session.user.id target (λ db v. v.0.0)
            (λ db v. rw (select_owner-owner name row db v.0.0 (v.0.1 ∙ is_row)) (ground arith))
            (λ db v. v.1 ∙ ground arith)))
        λ _. bind-Keeps _ _ (announce_members-Keeps env name) λ _.
          bind-Keeps _ _ (now-Keeps env)
            λ t. record_audit-Keeps IsConsistent-LogsApart env _ _ _ row.0 _ t

  transfer_channel_ownership-Leaves :
      (login : Result Session) (name : String) (target : Uuid)
      → Leaves IsConsistent IsConsistent (transfer_channel_ownership env login name target)
  unfolding transfer_channel_ownership
  transfer_channel_ownership-Leaves login name target =
      lift-bind-Leaves login _ (λ db v. v)
        λ session _.
          lift-bind-Leaves _ _ (λ db v. v)
            λ _ _.
              query-bind-Leaves env _ _ (λ db v. v)
                λ found.
                  or_fail-bind-Leaves _ found _ (λ db v. v.0)
                    λ row is_row.
                      reject-bind-Leaves _ _ _ (λ db v. v.0)
                        λ owns.
                          reject-bind-Leaves _ _ _ (λ db v. v.0)
                            λ _.
                              query-bind-Leaves env _ _ (λ db v. v.0)
                                λ is_member.
                                  reject-bind-Leaves _ _ _ (λ db v. v.0.0)
                                    λ member.
                                      transfer_rest-Leaves session name target found row is_row owns
                                        is_member member

  pub transfer_channel_ownership-Keeps :
      (login : Result Session) (name : String) (target : Uuid)
      → Keeps IsConsistent (transfer_channel_ownership env login name target)
  transfer_channel_ownership-Keeps login name target = record {
    at = (transfer_channel_ownership-Leaves login name target).at;
  }
