-- ===== src/Bans/Barring.antt =====
-- Who is banned has no access.
use vussa.Base.{
  ℕ, ◌==◌, ==_refl, ◌≡◌, refl, String, str_eq, eq_iff, Bool, true, false, not, ◌&&◌, ◌||◌, Option,
  none, some, List, [], ◌∷◌, ◌++◌, any, all, any-append, find, Distinct, arith, Bool-cases, inl,
  inr, ◌∙◌, subst,
}
use vussa.Models.{Uuid, Session}
use vussa.Error.{Result}
use vussa.Database.{Db, ChannelRow, BanRow, is_public}
use vussa.Database.Tables.{
  has_name, is_live, is_null, equals, expires_after, covers, is_banned, has_member,
}
use vussa.Io.{Env, World}
use vussa.Io.Keeps.{
  Keeps, bind-Keeps, pure-Keeps, lift-Keeps, reject-Keeps, now-Keeps, new_uuid-Keeps, query-Keeps,
}
use vussa.Io.Ensures.{
  OnOk, Ensures, Establishes, bind-Ensures, Keeps-Ensures, pure-Ensures, query-Ensures,
  or_fail-Ensures, execute-Ensures,
}
use vussa.Access.{can_access}
use vussa.Services.Publishing.Logs.{record_audit-Keeps}
use vussa.Services.Ownership.{IsConsistent, same_name}
use vussa.Services.Removal.{NoAccess, NoAccess-LogsApart}
use vussa.Bans.{
  BanRequest, insert_ban, check_expiry, ban_channel, live_id, new_ban, ban_rows, admin_create_ban,
  refers_to_channel,
}

-- The ban is for every channel, or for the one with this name.
abbrev pub is_meant : String → Option String → Bool
is_meant name none = true
is_meant name (some n) = str_eq n name

-- At this time the ban has not expired.
abbrev pub is_before_expiry : ℕ → Option ℕ → Bool
is_before_expiry t expires_at = is_null expires_at || expires_after t expires_at

-- Every live channel of the name is one that a ban with this column covers.
abbrev is_for : String → Option Uuid → List ChannelRow → Bool
is_for name id cs = all (λ c. not (is_live name c) || is_null id || equals id c.id) cs

for-all : (name : String) (cs : List ChannelRow) → is_for name none cs ≡ true
for-all name [] = refl
for-all name (c ∷ cs) = ground (arith, for-all name cs)

none-named :
    (name : String) (id : Option Uuid) (cs : List ChannelRow)
    → any (has_name name) cs ≡ false
    → is_for name id cs ≡ true
none-named name id [] h = refl
none-named name id (c ∷ cs) h = ground (arith, none-named name id cs)

same_named :
    (name : String) (c : ChannelRow) (cs : List ChannelRow)
    → has_name name c ≡ true
    → any (same_name c) cs ≡ false
    → any (has_name name) cs ≡ false
same_named name c [] hit h = refl
same_named name c (d ∷ cs) hit h =
    ground
      (arith, eq_iff c.name name, eq_iff d.name name, eq_iff d.name c.name, same_named name c cs)

for-found :
    (name : String) (id : Uuid) (cs : List ChannelRow)
    → Distinct same_name cs
    → live_id (find (is_live name) cs) ≡ some id
    → is_for name (some id) cs ≡ true
unfolding find
for-found name id [] d e = refl
for-found name id (c ∷ cs) d e = elim (Bool-cases (is_live name c)) [
  | inl hit ↦
      let found : some c.id ≡ some id = rw hit at e in
      let same : (id == c.id) ≡ true = cc (found, ==_refl c.id) in
      ground (arith, same, none-named name (some id) cs (same_named name c cs (ground arith) d.0))
  | inr miss ↦
      let later : live_id (find (is_live name) cs) ≡ some id = rw miss at e in
      ground (arith, miss, for-found name id cs d.1 later)
]

module _ (name : String) (later : ℕ) (request : BanRequest)
    (lasting : is_before_expiry later request.expires_at ≡ true) where
  new_ban-covers :
      (id : Uuid) (channel : Option Uuid) (reason : String) (actor : Uuid) (t : ℕ) (c : ChannelRow)
      → (is_null channel || equals channel c.id) ≡ true
      → covers c.id request.user_id later (new_ban id request channel reason actor t) ≡ true
  new_ban-covers id channel reason actor t c h = ground (arith, ==_refl request.user_id, lasting)

  -- With a ban that covers them, the channels of the name are closed to the user.
  closed :
      (b : BanRow) (db : Db)
      → ((c : ChannelRow)
          → (is_null b.channel_id || equals b.channel_id c.id) ≡ true
          → covers c.id request.user_id later b ≡ true)
      → (cs : List ChannelRow) → is_for name b.channel_id cs ≡ true
      → any
          (λ c.
            is_live name c
            && (is_public c.kind || has_member db.members c.id request.user_id)
            && not (is_banned (record db { bans = db.bans ++ b ∷ [] }) c.id request.user_id later))
          cs
        ≡ false
  unfolding is_banned
  closed b db h [] k = refl
  closed b db h (c ∷ cs) k = ground (
    arith,
    h c,
    any-append (covers c.id request.user_id later) db.bans (b ∷ []),
    closed b db h cs,
  )

  abbrev IsReady : Option Uuid → Db → Type 0
  IsReady channel db = IsConsistent db × (is_for name channel db.channels ≡ true)

  ban_channel-IsReady :
      (env : Env) (channel : Option String)
      → is_meant name channel ≡ true
      → Ensures IsConsistent (ban_channel env channel) IsReady
  unfolding ban_channel
  ban_channel-IsReady env none h = pure-Ensures none (λ db v. (v, for-all name db.channels))
  ban_channel-IsReady env (some n) h =
      bind-Ensures (λ found db. IsConsistent db × (live_id (find (is_live n) db.channels) ≡ found))
        (query-Ensures env _ (λ db v. (v, refl)))
        λ found.
          bind-Ensures
            (λ id db. IsConsistent db × (live_id (find (is_live n) db.channels) ≡ some id))
            (or_fail-Ensures _ found (λ id e db v. (v.0, v.1 ∙ e)))
            λ id. pure-Ensures (some id) (λ db v. (
              v.0,
              subst (λ m. is_for m (some id) db.channels ≡ true) ((eq_iff n name).0 h)
                  (for-found n id db.channels v.0.names v.1),
            ))

  insert_ban-NoAccess :
      (id : Uuid) (channel : Option Uuid) (reason : String) (actor : Uuid) (t : ℕ) (db : Db)
      → IsReady channel db
      → Establishes
          (λ _. NoAccess name request.user_id later)
          (insert_ban (new_ban id request channel reason actor t) db)
  unfolding insert_ban can_access
  insert_ban-NoAccess id channel reason actor t db v =
      let b = new_ban id request channel reason actor t in
      elim (Bool-cases (
        not (any (λ c. c.id == b.id) db.bans)
        && any (λ u. u.id == b.user_id) db.users
        && refers_to_channel b.channel_id db)) [
          | inl there ↦
              rw there (closed b db (new_ban-covers id channel reason actor t) db.channels v.1)
          | inr refused ↦ rw refused tt
        ]

  ban_rows-NoAccess :
      (env : Env) (actor : Uuid) (reason : String) (channel : Option Uuid)
      → Ensures
          (IsReady channel)
          (ban_rows env actor request reason channel)
          (λ _. NoAccess name request.user_id later)
  unfolding ban_rows
  ban_rows-NoAccess env actor reason channel =
      bind-Ensures (λ _. IsReady channel) (Keeps-Ensures (new_uuid-Keeps env))
        λ id.
          bind-Ensures (λ _. IsReady channel) (Keeps-Ensures (now-Keeps env))
            λ t.
              bind-Ensures (λ _. NoAccess name request.user_id later)
                (execute-Ensures env _ (insert_ban-NoAccess id channel reason actor t))
                λ _. Keeps-Ensures (
                  bind-Keeps _ _
                    (record_audit-Keeps (NoAccess-LogsApart name request.user_id later) env _ _ _
                      request.user_id _ t)
                    λ _. pure-Keeps id)

check_expiry-Keeps :
    {P : Db → Type 0} (env : Env) (expires_at : Option ℕ) → Keeps P (check_expiry env expires_at)
unfolding check_expiry
check_expiry-Keeps env none = pure-Keeps tt
check_expiry-Keeps env (some e) = bind-Keeps _ _ (now-Keeps env) λ t. reject-Keeps _ _

-- From consistent tables: once a ban is created, the user has no access to the channel that it names,
-- or to any channel if it names none, at any time before it expires.
pub admin_create_ban-NoAccess :
    (env : Env) (login : Result Session) (request : BanRequest) (name : String) (later : ℕ)
    (w : World)
    → IsConsistent w.db
    → is_before_expiry later request.expires_at ≡ true
    → is_meant name request.channel ≡ true
    → OnOk (λ _. NoAccess name request.user_id later) (admin_create_ban env login request w)
unfolding admin_create_ban
admin_create_ban-NoAccess env login request name later w v lasting meant =
    (bind-Ensures (λ _. IsConsistent) {R = λ _. NoAccess name request.user_id later}
        (Keeps-Ensures (lift-Keeps login))
        λ session.
          bind-Ensures (λ _. IsConsistent) (Keeps-Ensures (lift-Keeps _))
            λ _.
              bind-Ensures (λ _. IsConsistent) (Keeps-Ensures (reject-Keeps _ _))
                λ _.
                  bind-Ensures (λ _. IsConsistent)
                    (Keeps-Ensures (check_expiry-Keeps env request.expires_at))
                    λ _.
                      bind-Ensures (λ _. IsConsistent) (Keeps-Ensures (query-Keeps env _))
                        λ exists.
                          bind-Ensures (λ _. IsConsistent) (Keeps-Ensures (reject-Keeps _ _))
                            λ _.
                              bind-Ensures (IsReady name later request lasting)
                                (ban_channel-IsReady name later request lasting env request.channel
                                  meant)
                                λ channel.
                                  ban_rows-NoAccess name later request lasting env session.user.id _
                                    channel).at
      w v
