-- ===== src/Manager.antt =====
-- The manager's approval of a gated action: platform/manager-auth.service.ts, with the throttle of
-- platform/attempt-limiter.ts. The counts of the throttle are kept outside every transaction, so
-- that a refusal does not roll them back. `argon2.verify` is the argument `verify`.
pub mod Throttle
mod Tests
use restiq_backend.Base.{
  ℕ, suc, ◌+◌, ◌-◌, ◌*◌, Bool, true, false, not, ◌&&◌, ◌||◌, Option, none, some, List, [], ◌∷◌,
  ◌++◌, String, ltb, leb, ◌==◌, if◌then◌else◌, is_some, find, select, any, all, update_where,
}
use restiq_backend.Store.Rows.{
  Db, StaffUser, AuditEvent, AuditAction, discount_above_threshold, refund_approved,
  void_after_fire, comp_approved, price_override_approved, no_sale_drawer_opened,
}
use restiq_backend.Store.Transaction.{
  Result, ok, err, Error, bad_request, too_many, unauthorized, validation_failed, locked_out,
  invalid_credentials,
}
use restiq_backend.Permissions.{role_has_permission, refunds}

-- What is counted: a staff member's PIN, or a guest's at a table, by address and in all.
pub data AttemptKey : Type 0 where
  manager_pin : ℕ → ℕ → AttemptKey
  guest_join_ip : ℕ → ℕ → ℕ → AttemptKey
  guest_join_table : ℕ → ℕ → AttemptKey

abbrev pub eq_key : AttemptKey → AttemptKey → Bool
eq_key (manager_pin a b) (manager_pin c d) = a == c && b == d
eq_key (guest_join_ip a b i) (guest_join_ip c d j) = a == c && b == d && i == j
eq_key (guest_join_table a b) (guest_join_table c d) = a == c && b == d
eq_key _ _ = false

pub record AttemptRow : Type 0 where
  pub key : AttemptKey
  pub attempts : ℕ
  pub window_started_at : ℕ

pub record AttemptRule : Type 0 where
  pub key : AttemptKey
  pub max : ℕ
  pub window_seconds : ℕ

abbrev pub same_key : AttemptKey → AttemptRow → Bool
same_key key row = eq_key row.key key

-- The window of the count has ended.
abbrev pub is_over : ℕ → AttemptRule → AttemptRow → Bool
is_over now rule row = leb (row.window_started_at + rule.window_seconds * 1000) now

unfoldable pub counted : ℕ → AttemptRule → AttemptRow → AttemptRow
counted now rule row =
    if is_over now rule row
    then record row { attempts = 1; window_started_at = now }
    else record row { attempts = row.attempts + 1 }

-- The upsert of one rule: the row that it returns, and the table.
unfoldable pub count_attempt : ℕ → AttemptRule → List AttemptRow → AttemptRow × List AttemptRow
unfolding counted
count_attempt now rule rows = elim (find (same_key rule.key) rows) [
  | none ↦
      let row : AttemptRow = record { key = rule.key; attempts = 1; window_started_at = now } in
      (row, rows ++ row ∷ [])
  | some row ↦ (counted now rule row, update_where (same_key rule.key) (counted now rule) rows)
]

-- `consume`: every rule in turn, until one is over its limit.
unfoldable pub consume : ℕ → List AttemptRule → List AttemptRow → Bool × List AttemptRow
unfolding count_attempt
consume now [] rows = (true, rows)
consume now (rule ∷ rules) rows =
    let (row, counted_rows) = count_attempt now rule rows in
    let rest = consume now rules counted_rows in
    if ltb rule.max row.attempts then (false, counted_rows) else rest

-- `PURGE_AFTER`
abbrev pub purge_after : ℕ
purge_after = 86400000

-- `refund`: the attempts are given back, and dead rows go.
unfoldable pub refund_attempts : ℕ → List AttemptRule → List AttemptRow → List AttemptRow
refund_attempts now rules rows =
    select (λ row. not (ltb (row.window_started_at + purge_after) now))
      (update_where (λ row. any (λ rule. same_key rule.key row) rules)
        (λ row. record row { attempts = row.attempts - 1 }) rows)

pub data ManagerGatedAction : Type 0 where
  void_sent comp discount price_override refund no_sale_drawer_open : ManagerGatedAction

abbrev pub is_refund : ManagerGatedAction → Bool
is_refund refund = true
is_refund _ = false

pub record AuthRequest : Type 0 where
  pub action_type : ManagerGatedAction
  pub tenant_id : ℕ
  pub outlet_id : ℕ
  pub entered_pin : String
  pub reason : List ℕ
  pub requester_id : ℕ

pub record ManagerApproval : Type 0 where
  pub approver_id : ℕ
  pub approver_name : String
  pub role_name : String
  pub tenant_id : ℕ
  pub action_type : ManagerGatedAction
  pub reason : List ℕ

-- What `trim` takes off.
abbrev pub is_white : ℕ → Bool
is_white c =
    leb 9 c && leb c 13
    || c == 32
    || c == 160
    || c == 5760
    || leb 8192 c && leb c 8202
    || c == 8232
    || c == 8233
    || c == 8239
    || c == 8287
    || c == 12288
    || c == 65279

-- Five wrong PINs for a requester in fifteen minutes.
abbrev pub pin_rules : AuthRequest → List AttemptRule
pin_rules request =
    record {
      key = manager_pin request.tenant_id request.requester_id;
      max = 5;
      window_seconds = 900;
    }
    ∷ []

-- Who may approve: managers, or for a refund whoever has the permission at that outlet.
unfoldable pub is_candidate : AuthRequest → StaffUser → Bool
is_candidate request s =
    s.tenant_id == request.tenant_id
    && is_some s.pin_hash
    && not (is_some s.pin_revoked_at)
    && (if is_refund request.action_type
        then role_has_permission s.role_name refunds
          && (all (λ o. false) s.outlet_ids || any (λ o. o == request.outlet_id) s.outlet_ids)
        else s.is_manager)

abbrev pub pin_matches : (ℕ → String → Bool) → String → StaffUser → Bool
pin_matches verify pin s = elim s.pin_hash [ none ↦ false | some hash ↦ verify hash pin ]

abbrev pub approval_of : AuthRequest → StaffUser → ManagerApproval
approval_of request s = record {
  approver_id = s.id;
  approver_name = s.name;
  role_name = s.role_name;
  tenant_id = request.tenant_id;
  action_type = request.action_type;
  reason = request.reason;
}

-- The first candidate whose PIN it is.
unfoldable pub approver : (ℕ → String → Bool) → AuthRequest → Db → Option StaffUser
unfolding is_candidate
approver verify request db =
    find (pin_matches verify request.entered_pin) (select (is_candidate request) db.staff_users)

unfoldable pub check_pin :
    (ℕ → String → Bool)
    → ℕ
    → AuthRequest
    → Db
    → List AttemptRow
    → Result ManagerApproval × List AttemptRow
unfolding approver
check_pin verify now request db rows = elim (approver verify request db) [
  | none ↦ (err (unauthorized invalid_credentials), rows)
  | some s ↦ (ok (approval_of request s), refund_attempts now (pin_rules request) rows)
]

-- `authorize`
unfoldable pub authorize :
    (ℕ → String → Bool)
    → ℕ
    → AuthRequest
    → Db
    → List AttemptRow
    → Result ManagerApproval × List AttemptRow
authorize verify now request db rows =
    if all is_white request.reason
    then (err (bad_request validation_failed), rows)
    else let (allowed, counted_rows) = consume now (pin_rules request) rows in
      let checked = check_pin verify now request db counted_rows in
      if allowed then checked else (err (too_many locked_out), counted_rows)

abbrev pub audited_as : ManagerGatedAction → AuditAction
audited_as refund = refund_approved
audited_as discount = discount_above_threshold
audited_as void_sent = void_after_fire
audited_as comp = comp_approved
audited_as price_override = price_override_approved
audited_as no_sale_drawer_open = no_sale_drawer_opened

-- `recordApproval`
unfoldable pub record_approval : ManagerApproval → ℕ → ℕ → Db → Db
record_approval approval actor_id now db = record db {
  audit_events =
      db.audit_events
      ++ record {
        tenant_id = approval.tenant_id;
        actor_id = some actor_id;
        approver_id = some approval.approver_id;
        action = audited_as approval.action_type;
        subject_id = none;
        occurred_at = now;
      }
        ∷ [];
}
