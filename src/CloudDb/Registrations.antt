-- ===== src/CloudDb/Registrations.antt =====
-- The methods of `withTenant` (packages/cloud-db/src/tenant-db.ts) on the registrations of domains.
-- `lower` is `toLowerCase`.
use Prim.Native.String.{◌++◌}
use arp.Common.{
  ℕ, String, Bool, true, false, not, ◌&&◌, Option, none, some, List, leb, is_some, string_eq, ◌==◌,
  if◌then◌else◌, or_else,
}
use arp.CloudDb.Tables.{TenantId, select, update_where, insert, exists_row}
use arp.CloudDb.Rows.{RegistrationRow, Database}
use arp.CloudDb.Order.{first, order_by, any_row}

pub record NewRegistration : Type 0 where
  pub sld : String
  pub years : ℕ
  pub price_cents : ℕ
  pub currency : Option String
  pub checkout_session : Option String

abbrev registration_row : (String → String) → String → ℕ → NewRegistration → RegistrationRow
registration_row lower id now n = record {
  id = id;
  domain = lower n.sld ++ ".agent";
  sld = lower n.sld;
  status = "pending_payment";
  years = n.years;
  price_cents = n.price_cents;
  currency = or_else n.currency "usd";
  checkout_session = n.checkout_session;
  payment_intent = none;
  headless_domain_id = none;
  headless_order_id = none;
  registered_at = none;
  expiry_at = none;
  grace_ends_at = none;
  owner_label = none;
  error = none;
  subscription = none;
  auto_renew = true;
  current_period_end = none;
  upstream_renewal_status = "none";
  last_reminder_days = none;
  created_at = now;
}

abbrev present_and_equal : String → Option String → Bool
present_and_equal s none = false
present_and_equal s (some s') = s' == s

-- `none`, the null of the column, is equal to nothing
abbrev pub has_session : Option String → RegistrationRow → Bool
has_session none r = false
has_session (some s) r = present_and_equal s r.checkout_session

abbrev has_registration_id : String → RegistrationRow → Bool
has_registration_id id r = r.id == id

-- the checkout session is a key of the whole table
unfoldable pub create_registration :
    (String → String) → TenantId → String → ℕ → NewRegistration → Database → Option Database
create_registration lower t id now n db =
    if exists_row (has_session n.checkout_session) db.registrations
    then none
    else some
        (record db { registrations = insert t (registration_row lower id now n) db.registrations })

unfoldable pub get_registration : TenantId → String → Database → Option RegistrationRow
get_registration t id db = first (select t (has_registration_id id) db.registrations)

abbrev newest_first : RegistrationRow → RegistrationRow → Bool
newest_first r s = leb s.created_at r.created_at

unfoldable pub get_registration_by_domain :
    (String → String) → TenantId → String → Database → Option RegistrationRow
get_registration_by_domain lower t domain db =
    first (order_by newest_first (select t (λ r. r.domain == lower domain) db.registrations))

unfoldable pub list_registrations : TenantId → Database → List RegistrationRow
list_registrations t db = order_by newest_first (select t any_row db.registrations)

-- `none` is a field that the patch leaves out; the time of the update is not kept
pub record RegistrationPatch : Type 0 where
  pub status : Option String
  pub checkout_session : Option (Option String)
  pub payment_intent : Option (Option String)
  pub headless_domain_id : Option (Option String)
  pub headless_order_id : Option (Option String)
  pub registered_at : Option (Option ℕ)
  pub expiry_at : Option (Option ℕ)
  pub grace_ends_at : Option (Option ℕ)
  pub owner_label : Option (Option String)
  pub error : Option (Option String)
  pub subscription : Option (Option String)
  pub auto_renew : Option Bool
  pub current_period_end : Option (Option ℕ)
  pub upstream_renewal_status : Option String
  pub last_reminder_days : Option (Option ℕ)

abbrev patched_registration : RegistrationPatch → RegistrationRow → RegistrationRow
patched_registration p r = record r {
  status = or_else p.status r.status;
  checkout_session = or_else p.checkout_session r.checkout_session;
  payment_intent = or_else p.payment_intent r.payment_intent;
  headless_domain_id = or_else p.headless_domain_id r.headless_domain_id;
  headless_order_id = or_else p.headless_order_id r.headless_order_id;
  registered_at = or_else p.registered_at r.registered_at;
  expiry_at = or_else p.expiry_at r.expiry_at;
  grace_ends_at = or_else p.grace_ends_at r.grace_ends_at;
  owner_label = or_else p.owner_label r.owner_label;
  error = or_else p.error r.error;
  subscription = or_else p.subscription r.subscription;
  auto_renew = or_else p.auto_renew r.auto_renew;
  current_period_end = or_else p.current_period_end r.current_period_end;
  upstream_renewal_status = or_else p.upstream_renewal_status r.upstream_renewal_status;
  last_reminder_days = or_else p.last_reminder_days r.last_reminder_days;
}

abbrev others_session : String → RegistrationPatch → RegistrationRow → Bool
others_session id p r = not (r.id == id) && has_session (or_else p.checkout_session none) r

-- whether the patch gives a row the checkout session of another
abbrev pub session_clash : TenantId → String → RegistrationPatch → Database → Bool
unfolding get_registration
session_clash t id p db =
    is_some (get_registration t id db) && exists_row (others_session id p) db.registrations

-- answers the row after the patch
unfoldable pub update_registration :
    TenantId → String → RegistrationPatch → Database → Option (Database × Option RegistrationRow)
unfolding get_registration
update_registration t id p db =
    let after : Database = record db {
      registrations =
          update_where t (has_registration_id id) (patched_registration p) db.registrations;
    } in
    if session_clash t id p db then none else some (after, get_registration t id after)
