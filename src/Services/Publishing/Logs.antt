-- ===== src/Services/Publishing/Logs.antt =====
-- Audit events, messages of the server and broadcasts leave every invariant alone that does not
-- speak of the tables that they write.
use vussa.Base.{ℕ, ◌==◌, String, Option, none, some, List, inl, inr, Bool-cases, any, find}
use vussa.Models.{Uuid, ServerEvent, ChatMessage, Json}
use vussa.Database.{Db, ChannelRow, AuditRow, SystemRow}
use vussa.Database.Tables.{is_live}
use vussa.Io.{Env}
use vussa.Io.Keeps.{
  Keeps, Writes, bind-Keeps, pure-Keeps, ignore-Keeps, now-Keeps, new_uuid-Keeps, query-Keeps,
  execute-Keeps, publish-Keeps,
}
use vussa.Broadcast.{broadcast, broadcast_control}
use vussa.Services.Publishing.{
  insert_audit, append_message, record_audit, create_system_message, sent, publish_system_message,
  channel_members, announced, broadcast_members,
}

pub record LogsApart (P : Db → Type 0) : Type 0 where
  pub audits : (db : Db) (rows : List AuditRow) → P db → P (record db { audit_events = rows })
  pub messages : (db : Db) (rows : List SystemRow) → P db → P (record db { messages = rows })

module _ {P : Db → Type 0} (env : Env) where
  pub broadcast-Keeps :
      (channel : String) (event : ServerEvent) → Keeps P (broadcast env channel event)
  unfolding broadcast
  broadcast-Keeps channel event = publish-Keeps env _ event

  pub broadcast_control-Keeps : (event : ServerEvent) → Keeps P (broadcast_control env event)
  unfolding broadcast_control
  broadcast_control-Keeps event = broadcast-Keeps _ event

  pub channel_members-Keeps : (name : String) → Keeps P (channel_members env name)
  unfolding channel_members
  channel_members-Keeps name = query-Keeps env _

  announced-Keeps : (name : String) → Keeps P (announced env name)
  unfolding announced
  announced-Keeps name = bind-Keeps _ _ (channel_members-Keeps name) λ ms. broadcast-Keeps name _

  pub broadcast_members-Keeps : (name : String) → Keeps P (broadcast_members env name)
  unfolding broadcast_members
  broadcast_members-Keeps name = ignore-Keeps (announced-Keeps name)

module _ {P : Db → Type 0} (apart : LogsApart P) (env : Env) where
  insert_audit-Writes : (a : AuditRow) (db : Db) → P db → Writes P (insert_audit a db)
  unfolding insert_audit
  insert_audit-Writes a db h = elim (Bool-cases (any (λ b. b.id == a.id) db.audit_events)) [
    | inl e ↦ rw e tt
    | inr e ↦ rw e (apart.audits db _ h)
  ]

  pub record_audit-Keeps :
      (actor : Option Uuid) (action target_type : String) (target : Uuid) (metadata : Json) (t : ℕ)
      → Keeps P (record_audit env actor action target_type target metadata t)
  unfolding record_audit
  record_audit-Keeps actor action target_type target metadata t =
      bind-Keeps _ _ (new_uuid-Keeps env) λ id. execute-Keeps env _ (insert_audit-Writes _)

  append_message-Writes :
      (id : Uuid) (text : String) (t : ℕ) (o : Option ChannelRow) (db : Db)
      → P db
      → Writes P (append_message id text t o db)
  unfolding append_message
  append_message-Writes id text t none db h = h
  append_message-Writes id text t (some c) db h =
      elim (Bool-cases (any (λ m. m.id == id) db.messages)) [
        | inl e ↦ rw e tt
        | inr e ↦ rw e (apart.messages db _ h)
      ]

  pub create_system_message-Keeps :
      (channel text : String) → Keeps P (create_system_message env channel text)
  unfolding create_system_message
  create_system_message-Keeps channel text = bind-Keeps _ _ (new_uuid-Keeps env) λ id.
      bind-Keeps _ _ (now-Keeps env) λ t.
        bind-Keeps _ _
          (execute-Keeps env _
            (λ db. append_message-Writes id text t (find (is_live channel) db.channels) db))
          λ inserted. pure-Keeps _

  sent-Keeps : (channel : String) (o : Option ChatMessage) → Keeps P (sent env channel o)
  unfolding sent
  sent-Keeps channel none = pure-Keeps tt
  sent-Keeps channel (some m) = ignore-Keeps (broadcast-Keeps env channel _)

  pub publish_system_message-Keeps :
      (channel text : String) → Keeps P (publish_system_message env channel text)
  unfolding publish_system_message
  publish_system_message-Keeps channel text =
      bind-Keeps _ _ (create_system_message-Keeps channel text) (sent-Keeps channel)
