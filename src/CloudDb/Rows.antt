-- ===== src/CloudDb/Rows.antt =====
-- The rows of packages/cloud-db/src/schema.ts that the modelled methods read or write, without the
-- tenant's column, and the database that holds them.
use arp.Common.{ℕ, String, Bool, Option, List}
use arp.Spec.{Members, Obligation}
use arp.Audit.{AuditEntry}
use arp.CloudDb.Tables.{Table}

pub record TenantRow : Type 0 where
  pub plan : String
  pub connect_status : Option String

pub record AgentRow : Type 0 where
  pub did : String
  pub ws_session_id : Option String
  pub runtime_kind : String
  pub push_url : Option String

pub record CredentialRow : Type 0 where
  pub agent_did : String
  pub token_hash : String
  pub label : Option String
  pub created_at : ℕ
  pub revoked_at : Option ℕ

pub record ConnectionRow : Type 0 where
  pub connection_id : String
  pub agent_did : String
  pub peer_did : String
  pub purpose : Option String
  pub token_issuer : String
  pub cedar_policies : List String
  pub obligations : List Obligation
  pub status : String
  pub revoke_reason : Option String
  pub created_at : ℕ
  pub expires_at : Option ℕ
  pub last_message_at : Option ℕ

pub data Direction : Type 0 where
  incoming outgoing : Direction

pub data MessageStatus : Type 0 where
  queued delivered failed expired : MessageStatus

-- `status = 'queued'`
abbrev pub is_queued : MessageStatus → Bool
is_queued queued = Bool.true
is_queued _ = Bool.false

pub record MessageRow : Type 0 where
  pub id : String
  pub agent_did : String
  pub connection_id : Option String
  pub direction : Direction
  pub msg_id : String
  pub msg_type : String
  pub envelope_jws : String
  pub body : Option Members
  pub peer_did : Option String
  pub status : MessageStatus
  pub failure_reason : Option String
  pub created_at : ℕ
  pub delivered_at : Option ℕ
  pub expires_at : ℕ

pub record AuditRow : Type 0 where
  pub agent_did : String
  pub connection_id : String
  pub entry : AuditEntry String

pub data RevocationKind : Type 0 where
  connection key : RevocationKind

pub record RevocationRow : Type 0 where
  pub agent_did : String
  pub kind : RevocationKind
  pub subject_id : String
  pub revoked_at : ℕ
  pub reason : Option String

pub record UsageRow : Type 0 where
  pub period : String
  pub inbound_messages : ℕ
  pub outbound_messages : ℕ

pub record LinkRow : Type 0 where
  pub id : String
  pub agent_did : String
  pub kind : String
  pub value : String
  pub label : Option String
  pub challenge : String
  pub status : String
  pub proof_json : Option String
  pub verified_at : Option ℕ
  pub revoked_at : Option ℕ
  pub created_at : ℕ

pub record TicketRow : Type 0 where
  pub id : String
  pub agent_did : String
  pub url : String
  pub link_id : Option String
  pub expires_at : ℕ

pub record PushRow : Type 0 where
  pub device_token : String
  pub platform : String
  pub bundle_id : String
  pub updated_at : ℕ

pub record RegistrationRow : Type 0 where
  pub id : String
  pub domain : String
  pub sld : String
  pub status : String
  pub years : ℕ
  pub price_cents : ℕ
  pub currency : String
  pub checkout_session : Option String
  pub payment_intent : Option String
  pub headless_domain_id : Option String
  pub headless_order_id : Option String
  pub registered_at : Option ℕ
  pub expiry_at : Option ℕ
  pub grace_ends_at : Option ℕ
  pub owner_label : Option String
  pub error : Option String
  pub subscription : Option String
  pub auto_renew : Bool
  pub current_period_end : Option ℕ
  pub upstream_renewal_status : String
  pub last_reminder_days : Option ℕ
  pub created_at : ℕ

pub record Database : Type 0 where
  pub tenants : Table TenantRow
  pub agents : Table AgentRow
  pub credentials : Table CredentialRow
  pub connections : Table ConnectionRow
  pub messages : Table MessageRow
  pub audit_entries : Table AuditRow
  pub revocations : Table RevocationRow
  pub usage_counters : Table UsageRow
  pub links : Table LinkRow
  pub tickets : Table TicketRow
  pub push_registrations : Table PushRow
  pub registrations : Table RegistrationRow
