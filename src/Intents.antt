-- ===== src/Intents.antt =====
-- Payment intents: pos/payments/intent-core.ts, which turns a provider's confirmation into money on
-- the bill, and pos/payments/intents.service.ts, the handlers of the till and the card terminal.
-- An intent's tender is read from the tenders' table where the source includes it. A row lock
-- orders the transactions and writes nothing.
pub mod Confirm
pub mod Create
pub mod Lifecycle
pub mod Moving
pub mod Serving
mod Tests
use restiq_backend.Base.{
  ℕ, suc, ◌+◌, Bool, true, false, not, ◌&&◌, ◌||◌, Option, none, some, List, [], ◌∷◌, ◌++◌, String,
  ltb, leb, ◌==◌, if◌then◌else◌, is_some, eq_option, find, select, count_where, update_where,
}
use text.Mathlib.Text.{◌==◌ as str_eq}
use restiq_backend.Base.Int.{ℤ, pos, ◌-ℤ◌, ltb_ℤ}
use restiq_backend.Store.Rows.{
  Db, Bill, is_finalized, Tender, TenderMethod, PaymentIntent, PaymentIntentStatus, created,
  pending, succeeded, failed, expired, cancelled, simulated, is_simulated, FailureReason,
  late_capture_refund_due, timed_out, declined, cancelled_by_staff, AuditEvent, late_capture_due,
  terminal,
}
use restiq_backend.Store.Transaction.{
  Tx, ok, err, pure, throw, gets, or_throw, ◌>>=◌, ◌>>◌, throw_if, modify, failure, conflicting,
  bad_request, missing, forbidden_request, outlet_mismatch, simulator_disabled, not_found,
  provider_unavailable, already_finalized, client_key_reused, amount_exceeds_remaining,
  intent_active, no_terminal, already_succeeded, already_terminal,
}
use restiq_backend.Bills.{
  load_bill, bill_total, refresh_open_bill_totals, create_tender_record, TenderParams,
}
use restiq_backend.Settle.{Env, is_active_status, payments_simulator_for, sum_tenders, tenders_of}
use restiq_backend.Devices.{linked_peripheral, queue_for, same_kind}

-- `isIntentActive`
abbrev pub is_intent_active : PaymentIntent → Bool
is_intent_active intent = is_active_status intent.status

-- The statuses that a confirmation flips, `expired` among them.
abbrev pub is_confirmable : PaymentIntentStatus → Bool
is_confirmable created = true
is_confirmable pending = true
is_confirmable expired = true
is_confirmable _ = false

abbrev pub confirmable : ℕ → PaymentIntent → Bool
confirmable intent_id i = i.id == intent_id && is_confirmable i.status

abbrev pub still_active : ℕ → PaymentIntent → Bool
still_active intent_id i = i.id == intent_id && is_active_status i.status

-- `findUniqueOrThrow`
unfoldable pub read_intent : ℕ → Tx PaymentIntent
read_intent intent_id db = elim (find (λ i. i.id == intent_id) db.payment_intents) [
  | none ↦ err failure
  | some intent ↦ ok (intent, db)
]

unfoldable pub read_bill : ℕ → Tx Bill
read_bill bill_id db = elim (find (λ b. b.id == bill_id) db.bills) [
  | none ↦ err failure
  | some bill ↦ ok (bill, db)
]

unfoldable pub update_intents : (PaymentIntent → Bool) → (PaymentIntent → PaymentIntent) → Db → Db
update_intents p f db = record db { payment_intents = update_where p f db.payment_intents }

abbrev pub succeed : Env → PaymentIntent → PaymentIntent
succeed env i = record i { status = succeeded; succeeded_at = some env.now; failure_reason = none }

abbrev pub stop : PaymentIntentStatus → FailureReason → PaymentIntent → PaymentIntent
stop status reason i = record i { status = status; failure_reason = some reason }

abbrev pub pays : ℕ → Tender → Bool
pays intent_id t = eq_option t.payment_intent_id (some intent_id)

-- A capture on a bill that was settled some other way: no tender, and a refund is due.
unfoldable pub flag_late_capture : Env → ℕ → PaymentIntent → Db → Db
unfolding update_intents
flag_late_capture env tenant_id intent db =
    let flagged =
      update_intents (λ i. i.id == intent.id)
        (λ i. record i { failure_reason = some late_capture_refund_due }) db in
    record flagged {
      audit_events =
          flagged.audit_events
          ++ record {
            tenant_id = tenant_id;
            actor_id = none;
            approver_id = none;
            action = late_capture_due;
            subject_id = some intent.id;
            occurred_at = env.now;
          }
            ∷ [];
    }

abbrev pub capture_params : ℕ → PaymentIntent → TenderParams
capture_params tenant_id intent = record {
  tenant_id = tenant_id;
  bill_id = intent.bill_id;
  method = intent.rail;
  amount_minor = intent.amount_minor;
  payment_intent_id = some intent.id;
  risk_acknowledged = none;
  reference = none;
  tendered_minor = none;
}

abbrev pub capture : Bool → (Db → Db) → Tx Tender → Tx (Unit {0})
capture true flag tender = modify flag
capture false flag tender = tender >>= λ t. pure tt

-- The money of an intent that has just been flipped goes on its bill.
unfoldable pub record_capture : Env → ℕ → PaymentIntent → Tx PaymentIntent
unfolding flag_late_capture
record_capture env tenant_id intent = do
  bill ← read_bill intent.bill_id
  capture (is_finalized bill.status) (flag_late_capture env tenant_id intent)
      (create_tender_record (capture_params tenant_id intent))
  read_intent intent.id

-- What `confirmIntent` does once the simulator's guard has passed.
unfoldable pub confirm_checked : Env → ℕ → ℕ → Tx PaymentIntent
confirm_checked env tenant_id intent_id = do
  flipped ← gets (λ db. count_where (confirmable intent_id) db.payment_intents)
  modify (update_intents (confirmable intent_id) (succeed env))
  intent ← read_intent intent_id
  tender ← gets (λ db. find (pays intent_id) db.tenders)
  if flipped == 0 || is_some tender then pure intent else record_capture env tenant_id intent

-- `confirmIntent`
unfoldable pub confirm_intent : Env → ℕ → ℕ → Tx PaymentIntent
confirm_intent env tenant_id intent_id = do
  target ← read_intent intent_id
  simulator ← gets (λ db. payments_simulator_for env db tenant_id)
  throw_if (is_simulated target.provider && not simulator) (conflicting simulator_disabled)
  confirm_checked env tenant_id intent_id

-- `failIntent`
unfoldable pub fail_intent : ℕ → FailureReason → Tx PaymentIntent
fail_intent intent_id reason = do
  modify (update_intents (still_active intent_id) (stop failed reason))
  read_intent intent_id

-- `expireIfDue`
unfoldable pub expire_if_due : Env → PaymentIntent → Tx PaymentIntent
expire_if_due env intent =
    if not (is_intent_active intent) || ltb env.now intent.expires_at
    then pure intent
    else modify (update_intents (still_active intent.id) (stop expired timed_out))
      >> read_intent intent.id

unfoldable pub load_intent : ℕ → ℕ → Tx PaymentIntent
load_intent tenant_id intent_id db = elim (find (λ i. i.id == intent_id) db.payment_intents) [
  | none ↦ err (missing not_found)
  | some intent ↦ if intent.tenant_id == tenant_id then ok (intent, db) else err (missing not_found)
]

pub record Staff : Type 0 where
  pub id : ℕ
  pub tenant_id : ℕ
  pub outlet_id : ℕ
  pub name : String
  pub role : String

pub record CreateIntent : Type 0 where
  pub rail : TenderMethod
  pub amount_minor : ℤ
  pub client_key : String
  pub device_id : Option ℕ

-- `INTENT_TTL_MS`
abbrev pub intent_ttl : ℕ
intent_ttl = 300000

-- What is still due after every tender already on the bill.
abbrev pub remaining_minor : Db → Bill → ℤ
remaining_minor db bill = bill_total bill -ℤ sum_tenders (pos 0) (tenders_of db bill.id)

unfoldable pub outlet_terminals : Db → ℕ → ℕ → ℕ
outlet_terminals db tenant_id outlet_id =
    count_where
      (λ d.
        d.tenant_id == tenant_id
        && d.outlet_id == outlet_id
        && same_kind d.kind terminal
        && d.in_service
        && not (is_some d.paired_pos_id))
      db.devices

abbrev pub active_of_bill : ℕ → PaymentIntent → Bool
active_of_bill bill_id i = i.bill_id == bill_id && is_active_status i.status

abbrev pub refuse_found : Env → Option PaymentIntent → Tx (Unit {0})
refuse_found env none = pure tt
refuse_found env (some intent) = do
  current ← expire_if_due env intent
  throw_if (is_intent_active current) (conflicting intent_active)

-- A stale active intent is expired and blocks no longer.
unfoldable pub refuse_active : Env → ℕ → Tx (Unit {0})
refuse_active env bill_id db =
    refuse_found env (find (active_of_bill bill_id) db.payment_intents) db

unfoldable pub insert_intent : Env → Staff → ℕ → CreateIntent → Option ℕ → Bill → Tx PaymentIntent
insert_intent env staff bill_id dto target bill db =
    let intent : PaymentIntent = record {
      id = db.next_id;
      tenant_id = staff.tenant_id;
      outlet_id = bill.outlet_id;
      bill_id = bill_id;
      rail = dto.rail;
      provider = simulated;
      amount_minor = dto.amount_minor;
      status = pending;
      client_key = dto.client_key;
      failure_reason = none;
      expires_at = env.now + intent_ttl;
      succeeded_at = none;
      created_by_staff_id = some staff.id;
      target_device_id = target;
    } in
    ok (
      intent,
      record db { payment_intents = db.payment_intents ++ intent ∷ []; next_id = suc db.next_id },
    )

-- A new intent of the bill, behind the guards on the amount, the active intent and the terminal.
unfoldable pub queue_intent : Env → Staff → ℕ → CreateIntent → Bill → Tx (PaymentIntent × Bool)
queue_intent env staff bill_id dto bill = do
  remaining ← gets (λ db. remaining_minor db bill)
  throw_if (ltb_ℤ remaining dto.amount_minor) (bad_request amount_exceeds_remaining)
  refuse_active env bill_id
  target ← gets (λ db. linked_peripheral db staff.tenant_id dto.device_id terminal)
  terminals ← gets (λ db. outlet_terminals db staff.tenant_id bill.outlet_id)
  throw_if (not (is_some target) && terminals == 0) (conflicting no_terminal)
  intent ← insert_intent env staff bill_id dto target bill
  pure (intent, true)

abbrev pub has_key : ℕ → String → PaymentIntent → Bool
has_key tenant_id client_key i = i.tenant_id == tenant_id && str_eq i.client_key client_key

-- The key's earlier intent is returned again; a new key queues a new one.
abbrev pub reuse_or_queue :
    Env → Staff → ℕ → CreateIntent → Bill → Option PaymentIntent → Tx (PaymentIntent × Bool)
reuse_or_queue env staff bill_id dto bill none = queue_intent env staff bill_id dto bill
reuse_or_queue env staff bill_id dto bill (some intent) = do
  throw_if (not (intent.bill_id == bill_id)) (conflicting client_key_reused)
  current ← expire_if_due env intent
  pure (current, false)

-- `createIntent`: the intent, and whether it is new. The unique indexes of the table, which a
-- concurrent request would meet, are not modelled.
unfoldable pub create_intent : Env → Staff → ℕ → CreateIntent → Tx (PaymentIntent × Bool)
create_intent env staff bill_id dto = do
  simulator ← gets (λ db. payments_simulator_for env db staff.tenant_id)
  throw_if (not simulator) (conflicting provider_unavailable)
  loaded ← load_bill staff.tenant_id bill_id
  bill ← refresh_open_bill_totals loaded
  throw_if (is_finalized bill.status) (conflicting already_finalized)
  existing ← gets (λ db. find (has_key staff.tenant_id dto.client_key) db.payment_intents)
  reuse_or_queue env staff bill_id dto bill existing

-- `getIntent`
unfoldable pub get_intent : Env → Staff → ℕ → Tx PaymentIntent
get_intent env staff intent_id = load_intent staff.tenant_id intent_id >>= expire_if_due env

abbrev pub is_succeeded : PaymentIntentStatus → Bool
is_succeeded succeeded = true
is_succeeded _ = false

abbrev pub is_failed : PaymentIntentStatus → Bool
is_failed failed = true
is_failed _ = false

abbrev pub is_cancelled : PaymentIntentStatus → Bool
is_cancelled cancelled = true
is_cancelled _ = false

-- `cancelIntent`
unfoldable pub cancel_intent : Env → Staff → ℕ → Tx PaymentIntent
cancel_intent env staff intent_id = do
  loaded ← load_intent staff.tenant_id intent_id
  intent ← expire_if_due env loaded
  throw_if (is_succeeded intent.status) (conflicting already_succeeded)
  (if is_intent_active intent
      then modify (update_intents (still_active intent.id) (stop cancelled cancelled_by_staff))
        >> read_intent intent.id
      else pure intent)

abbrev pub overdue : Env → ℕ → ℕ → PaymentIntent → Bool
overdue env tenant_id outlet_id i =
    i.tenant_id == tenant_id
    && i.outlet_id == outlet_id
    && is_active_status i.status
    && leb i.expires_at env.now

-- `listPendingForOutlet`
unfoldable pub list_pending_for_outlet : Env → Staff → ℕ → Option ℕ → Tx (List PaymentIntent)
list_pending_for_outlet env staff outlet_id device_id = do
  throw_if (not (outlet_id == staff.outlet_id)) (forbidden_request outlet_mismatch)
  modify (update_intents (overdue env staff.tenant_id outlet_id) (stop expired timed_out))
  target ← gets (λ db. queue_for db staff.tenant_id device_id terminal)
  gets (λ db.
      select
        (λ i.
          i.tenant_id == staff.tenant_id
          && i.outlet_id == outlet_id
          && is_active_status i.status
          && eq_option i.target_device_id target)
        db.payment_intents)

pub data SimulatedOutcome : Type 0 where
  success decline : SimulatedOutcome

unfoldable pub simulate_success : Env → Staff → PaymentIntent → Tx PaymentIntent
simulate_success env staff intent =
    if is_succeeded intent.status
    then pure intent
    else throw_if (is_failed intent.status || is_cancelled intent.status)
        (conflicting already_terminal)
      >> confirm_intent env staff.tenant_id intent.id

unfoldable pub simulate_decline : Env → PaymentIntent → Tx PaymentIntent
simulate_decline env intent = do
  current ← expire_if_due env intent
  (if is_failed current.status
      then pure current
      else throw_if (not (is_intent_active current)) (conflicting already_terminal)
        >> fail_intent current.id declined)

-- `simulate`
unfoldable pub simulate : Env → Staff → ℕ → SimulatedOutcome → Tx PaymentIntent
simulate env staff intent_id outcome = do
  intent ← load_intent staff.tenant_id intent_id
  simulator ← gets (λ db. payments_simulator_for env db staff.tenant_id)
  throw_if (not (is_simulated intent.provider && simulator)) (missing not_found)
  elim outcome [
    | success ↦ simulate_success env staff intent
    | decline ↦ simulate_decline env intent
  ]
