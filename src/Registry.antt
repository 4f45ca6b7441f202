-- ===== src/Registry.antt =====
-- packages/registry/src/registry.ts: the agent-local registry of connections, spend windows and
-- revocations. A table is the list of its rows; a primary key is unique in it. A clock reading and
-- the parser of a token's expiry are arguments; JSON columns are kept as the values they encode.
pub mod Invariant
pub mod Keeps
pub mod Revoked
pub mod Spend
pub mod Lookup
pub mod Listing
mod Tests
use arp.Common.{
  ℕ, ◌+◌, ◌-◌, ◌/◌, String, Bool, true, false, not, ◌&&◌, ◌||◌, Option, none, some, List, [], ◌∷◌,
  ◌++◌, map, ltb, leb, string_eq, nat_eq, ◌==◌, if◌then◌else◌, keep, any, find, is_some, or_else,
}
use arp.Spec.{ConnectionToken, Json}

pub data ConnectionStatus : Type 0 where
  active : ConnectionStatus
  suspended : ConnectionStatus
  revoked : ConnectionStatus

abbrev pub same_status : ConnectionStatus → ConnectionStatus → Bool
same_status active active = true
same_status suspended suspended = true
same_status revoked revoked = true
same_status _ _ = false

pub data RevocationType : Type 0 where
  connection : RevocationType
  key : RevocationType

abbrev pub same_type : RevocationType → RevocationType → Bool
same_type connection connection = true
same_type key key = true
same_type _ _ = false

pub data RegistryError : Type 0 where
  not_found : RegistryError
  conflict : RegistryError
  invalid_input : RegistryError
  -- the exception of `rowToRecord` on a token that does not parse
  unreadable_token : RegistryError

-- a row of `connections`; `token_jws` stands for its text by the token that the text parses as, `none`
-- where `rowToRecord` throws, and `token` is then of no use
pub record ConnectionRecord : Type 0 where
  pub connection_id : String
  pub label : Option String
  pub self_did : String
  pub peer_did : String
  pub purpose : String
  pub token_jws : Option ConnectionToken
  pub token : ConnectionToken
  pub cedar_policies : List String
  pub status : ConnectionStatus
  pub created_at : ℕ
  pub expires_at : Option ℕ
  pub last_message_at : Option ℕ
  pub metadata : Option Json

pub record SpendRow : Type 0 where
  pub connection_id : String
  pub window_start : ℕ
  pub amount_usd_cents : ℕ

pub record Revocation : Type 0 where
  pub type : RevocationType
  pub id : String
  pub revoked_at : ℕ
  pub reason : Option String

pub record Registry : Type 0 where
  pub connections : List ConnectionRecord
  pub spend : List SpendRow
  pub revocations : List Revocation

-- `token_jws` stands for its text as in a row: it need not be the JSON text of the token
pub record CreateConnectionInput : Type 0 where
  pub token : ConnectionToken
  pub token_jws : Option ConnectionToken
  pub label : Option String
  pub self_did : String
  pub metadata : Option Json

pub record ConnectionFilter : Type 0 where
  pub peer_did : Option String
  pub status : Option ConnectionStatus
  pub include_expired : Bool

-- a call's answer, or the error that it throws
pub data Answer (A : Type 0) : Type 0 where
  done : A → Answer A
  failed : RegistryError → Answer A

abbrev pub has_id : String → ConnectionRecord → Bool
has_id id r = r.connection_id == id

unfoldable pub select_conn : String → List ConnectionRecord → Option ConnectionRecord
select_conn id rows = find (has_id id) rows

-- `UPDATE connections SET … WHERE connection_id = ?`, with the number of changed rows as a test
unfoldable pub update_conn :
    (ConnectionRecord → ConnectionRecord) → String → List ConnectionRecord → List ConnectionRecord
update_conn f id [] = []
update_conn f id (r ∷ rows) =
    let rest = update_conn f id rows in (if has_id id r then f r else r) ∷ rest

abbrev pub with_status : ConnectionStatus → ConnectionRecord → ConnectionRecord
with_status s r = record r { status = s }

abbrev pub with_last_message : ℕ → ConnectionRecord → ConnectionRecord
with_last_message at r = record r { last_message_at = some at }

abbrev pub same_revocation : RevocationType → String → Revocation → Bool
same_revocation t id r = same_type r.type t && r.id == id

-- `INSERT INTO revocations … ON CONFLICT (type, id) DO UPDATE`
unfoldable pub insert_revoke : Revocation → List Revocation → List Revocation
insert_revoke r [] = r ∷ []
insert_revoke r (s ∷ rows) =
    let rest = insert_revoke r rows in if same_revocation r.type r.id s then r ∷ rows else s ∷ rest

-- `INSERT INTO connection_spend … ON CONFLICT (connection_id, window_start) DO UPDATE`
unfoldable pub upsert_spend : String → ℕ → ℕ → List SpendRow → List SpendRow
upsert_spend id start cents [] =
    record { connection_id = id; window_start = start; amount_usd_cents = cents } ∷ []
upsert_spend id start cents (s ∷ rows) =
    let rest = upsert_spend id start cents rows in
    if s.connection_id == id && s.window_start == start
    then record s { amount_usd_cents = s.amount_usd_cents + cents } ∷ rows
    else s ∷ rest

unfoldable pub sum_spend : String → ℕ → List SpendRow → ℕ
sum_spend id since [] = 0
sum_spend id since (s ∷ rows) =
    (if s.connection_id == id && leb since s.window_start then s.amount_usd_cents else 0)
    + sum_spend id since rows

-- `ORDER BY created_at DESC`, as an insertion that keeps the rows of equal time in table order
unfoldable pub insert_newest : ConnectionRecord → List ConnectionRecord → List ConnectionRecord
insert_newest r [] = r ∷ []
insert_newest r (s ∷ rows) =
    let rest = insert_newest r rows in
    if leb s.created_at r.created_at then r ∷ s ∷ rows else s ∷ rest

unfoldable pub newest_first : List ConnectionRecord → List ConnectionRecord
newest_first [] = []
newest_first (r ∷ rows) = insert_newest r (newest_first rows)

-- The `WHERE` clause that `listConnections` chooses: an empty `peer_did` is no condition.
abbrev pub matches_peer : Option String → ConnectionRecord → Bool
matches_peer none r = true
matches_peer (some did) r = did == "" || r.peer_did == did

abbrev pub matches_status : Option ConnectionStatus → ConnectionRecord → Bool
matches_status none r = true
matches_status (some s) r = same_status r.status s

abbrev pub unexpired : ℕ → ConnectionRecord → Bool
unexpired now r = elim r.expires_at [ none ↦ true | some t ↦ ltb now t ]

abbrev pub peer_of : ConnectionToken → String → String
peer_of token self_did = if token.audience == self_did then token.subject else token.audience

abbrev pub new_row : (String → Option ℕ) → ℕ → CreateConnectionInput → ConnectionRecord
new_row parse_date now input = record {
  connection_id = input.token.connection_id;
  label = input.label;
  self_did = input.self_did;
  peer_did = peer_of input.token input.self_did;
  purpose = input.token.purpose;
  token_jws = input.token_jws;
  token = or_else input.token_jws input.token;
  cedar_policies = input.token.cedar_policies;
  status = active;
  created_at = now;
  expires_at = parse_date input.token.expires;
  last_message_at = none;
  metadata = input.metadata;
}

unfoldable pub row_to_record : ConnectionRecord → Answer ConnectionRecord
row_to_record r = if is_some r.token_jws then done r else failed unreadable_token

-- `Date.parse`, `none` where it is not finite
module _ (parse_date : String → Option ℕ) where
  unfoldable pub create_connection :
      ℕ → CreateConnectionInput → Registry → Registry × Answer ConnectionRecord
  unfolding row_to_record
  create_connection now input g = elim (select_conn input.token.connection_id g.connections) [
    | some r ↦ (g, failed conflict)
    | none ↦
        let row = new_row parse_date now input in
        (record g { connections = g.connections ++ row ∷ [] }, row_to_record row)
  ]

abbrev found_record : Answer ConnectionRecord → Answer (Option ConnectionRecord)
found_record (done r) = done (some r)
found_record (failed e) = failed e

unfoldable pub get_connection : String → Registry → Answer (Option ConnectionRecord)
unfolding row_to_record
get_connection id g = elim (select_conn id g.connections) [
  | none ↦ done none
  | some r ↦ found_record (row_to_record r)
]

-- the record of an answer, if it has one
abbrev pub record_of : Answer (Option ConnectionRecord) → Option ConnectionRecord
record_of (done o) = o
record_of (failed e) = none

-- the rows that a list shows
unfoldable pub listed_rows : ℕ → ConnectionFilter → Registry → List ConnectionRecord
listed_rows now filter g =
    let rows = newest_first (
      keep (λ r. matches_peer filter.peer_did r && matches_status filter.status r) g.connections) in
    if filter.include_expired then rows else keep (unexpired now) rows

abbrev pub unreadable : ConnectionRecord → Bool
unreadable r = not (is_some r.token_jws)

-- one row that does not parse fails the whole list
unfoldable pub list_connections : ℕ → ConnectionFilter → Registry → Answer (List ConnectionRecord)
unfolding listed_rows
list_connections now filter g =
    let rows = listed_rows now filter g in
    if any unreadable rows then failed unreadable_token else done rows

unfoldable pub update_status : String → ConnectionStatus → Registry → Registry × Answer Unit
update_status id status g = elim (select_conn id g.connections) [
  | none ↦ (g, failed not_found)
  | some r ↦ (record g { connections = update_conn (with_status status) id g.connections }, done tt)
]

-- The transaction: an error leaves both tables as they were.
unfoldable pub revoke_connection : ℕ → String → String → Registry → Registry × Answer Unit
revoke_connection now id reason g = elim (select_conn id g.connections) [
  | none ↦ (g, failed not_found)
  | some r ↦ (
    record g {
      connections = update_conn (with_status revoked) id g.connections;
      revocations =
          insert_revoke
            (record { type = connection; id = id; revoked_at = now; reason = some reason })
            g.revocations;
    },
    done tt,
  )
]

unfoldable pub touch_last_message : ℕ → String → Registry → Registry × Answer Unit
touch_last_message at id g = elim (select_conn id g.connections) [
  | none ↦ (g, failed not_found)
  | some r ↦
      (record g { connections = update_conn (with_last_message at) id g.connections }, done tt)
]

-- an amount as a number that may be negative: `pos n`, or `negsuc n` for -(n + 1)
pub data Cents : Type 0 where
  pos : ℕ → Cents
  negsuc : ℕ → Cents

unfoldable pub record_spend : ℕ → String → Cents → Registry → Registry × Answer Unit
record_spend at id (negsuc n) g = (g, failed invalid_input)
record_spend at id (pos cents) g = elim (select_conn id g.connections) [
  | none ↦ (g, failed not_found)
  | some r ↦ (record g { spend = upsert_spend id (at / 1000) cents g.spend }, done tt)
]

-- The lower bound of the window is negative in the code when the window is longer than the time
-- since 1970; window starts are not, so that it then admits every row, as 0 does.
unfoldable pub get_spend_window : ℕ → String → ℕ → Registry → ℕ
get_spend_window at id window_sec g = sum_spend id (at / 1000 - window_sec) g.spend

unfoldable pub is_revoked : RevocationType → String → Registry → Bool
is_revoked t id g = any (same_revocation t id) g.revocations

unfoldable pub record_revocation : Revocation → Registry → Registry
record_revocation r g = record g { revocations = insert_revoke r g.revocations }

-- a call that may change the registry, with the clock's reading
pub data Call : Type 0 where
  create : ℕ → CreateConnectionInput → Call
  update : String → ConnectionStatus → Call
  revoke : ℕ → String → String → Call
  touch : ℕ → String → Call
  charge : ℕ → String → Cents → Call
  note : Revocation → Call

module _ (parse_date : String → Option ℕ) where
  unfoldable pub perform : Call → Registry → Registry
  perform (create now input) g = (create_connection parse_date now input g).0
  perform (update id status) g = (update_status id status g).0
  perform (revoke now id reason) g = (revoke_connection now id reason g).0
  perform (touch at id) g = (touch_last_message at id g).0
  perform (charge at id cents) g = (record_spend at id cents g).0
  perform (note r) g = record_revocation r g

  unfoldable pub perform_all : List Call → Registry → Registry
  perform_all [] g = g
  perform_all (c ∷ cs) g = perform_all cs (perform c g)
