-- ===== src/Intents/Moving.antt =====
-- Each handler of pos/payments/intent-core.ts and intents.service.ts moves the stored intents along
-- their lifecycle.
use restiq_backend.Base.{
  ℕ, ◌≡◌, refl, sym, ap, Bool, true, false, not, ◌&&◌, ◌||◌, Option, none, some, ◌==◌, ltb, is_some,
  find, select, eq_option, count_where, arith,
}
use restiq_backend.Base.Int.{ltb_ℤ}
use restiq_backend.Store.Rows.{
  Db, Bill, is_finalized, PaymentIntent, expired, failed, cancelled, timed_out, FailureReason,
  cancelled_by_staff, declined, is_simulated, terminal,
}
use restiq_backend.Store.Transaction.{
  pure, conflicting, missing, not_found, simulator_disabled, bad_request, ok-eq,
  amount_exceeds_remaining, no_terminal, provider_unavailable, already_finalized,
}
use restiq_backend.Bills.{load_bill, refresh_open_bill_totals, create_tender_record}
use restiq_backend.Settle.{Env, is_active_status, payments_simulator_for}
use restiq_backend.Settle.Commit.{load_bill-found}
use restiq_backend.Intents.{
  Staff, CreateIntent, SimulatedOutcome, success, decline, confirmable, still_active, overdue,
  succeed, stop, pays, read_intent, read_bill, load_intent, update_intents, flag_late_capture,
  capture, capture_params, record_capture, confirm_checked, confirm_intent, fail_intent,
  expire_if_due, refuse_found, refuse_active, insert_intent, queue_intent, reuse_or_queue,
  create_intent, get_intent, cancel_intent, list_pending_for_outlet, simulate_success,
  simulate_decline, simulate, is_intent_active, active_of_bill, has_key, remaining_minor,
  outlet_terminals, is_succeeded, is_failed, is_cancelled,
}
use restiq_backend.Intents.Confirm.{read_intent-reads, read_bill-reads}
use restiq_backend.Intents.Create.{insert_intent-adds, refresh-frame}
use restiq_backend.Intents.Lifecycle.{
  here, capturable, declinable, expirable, cancellable, Moves, Moves-same, Moves-insert,
  update_intents-Moves, Moving, Reading-Moving, pure-Moving, gets-Moving, if-Moving, >>=-Moving,
  throw_if-Moving, modify-Moving, read-Moving, guard-Moving, write-Moving,
}
use restiq_backend.Devices.{linked_peripheral, queue_for}

read_intent-Moving : (k : ℕ) → Moving (read_intent k)
read_intent-Moving k =
    Reading-Moving (read_intent k) (λ i db db' e. (read_intent-reads k db db' i e).0)

load_intent-Moving : (t k : ℕ) → Moving (load_intent t k)
unfolding load_intent
load_intent-Moving t k = Reading-Moving (load_intent t k) (λ i db db' e. ground arith)

succeed-Moves :
    (env : Env) (k : ℕ) (db : Db) → Moves db (update_intents (confirmable k) (succeed env) db)
succeed-Moves env k db =
    update_intents-Moves (confirmable k) (succeed env) db (λ x. refl)
      (λ x on. record {
        same_id = refl;
        same_bill = refl;
        same_amount = refl;
        moved = capturable x.status (ground arith);
      })

fail-Moves :
    (k : ℕ) (why : FailureReason) (db : Db)
    → Moves db (update_intents (still_active k) (stop failed why) db)
fail-Moves k why db =
    update_intents-Moves (still_active k) (stop failed why) db (λ x. refl)
      (λ x on. record {
        same_id = refl;
        same_bill = refl;
        same_amount = refl;
        moved = declinable x.status (ground arith);
      })

cancel-Moves :
    (k : ℕ) (why : FailureReason) (db : Db)
    → Moves db (update_intents (still_active k) (stop cancelled why) db)
cancel-Moves k why db =
    update_intents-Moves (still_active k) (stop cancelled why) db (λ x. refl)
      (λ x on. record {
        same_id = refl;
        same_bill = refl;
        same_amount = refl;
        moved = cancellable x.status (ground arith);
      })

expire-Moves :
    (p : PaymentIntent → Bool) (why : FailureReason) (db : Db)
    → ((x : PaymentIntent) → p x ≡ true → is_intent_active x ≡ true)
    → Moves db (update_intents p (stop expired why) db)
expire-Moves p why db act =
    update_intents-Moves p (stop expired why) db (λ x. refl)
      (λ x on. record {
        same_id = refl;
        same_bill = refl;
        same_amount = refl;
        moved = expirable x.status (act x on);
      })

flag-Moves :
    (env : Env) (t : ℕ) (intent : PaymentIntent) (db : Db)
    → Moves db (flag_late_capture env t intent db)
unfolding flag_late_capture
flag-Moves env t intent db =
    update_intents-Moves (λ i. i.id == intent.id) _ db (λ x. refl)
      (λ x on. record { same_id = refl; same_bill = refl; same_amount = refl; moved = here })

create_tender_record-Moving : (params : _) → Moving (create_tender_record params)
unfolding create_tender_record
create_tender_record-Moving params t db db' e =
    Moves-same db db' (ap (λ r. r.1.payment_intents) (sym (ok-eq _ (t, db') e)))

record_capture-Moving :
    (env : Env) (t : ℕ) (intent : PaymentIntent) → Moving (record_capture env t intent)
unfolding record_capture
record_capture-Moving env t intent =
    >>=-Moving (read_bill intent.bill_id) _
      (Reading-Moving (read_bill intent.bill_id) (λ b db db' e. read_bill-reads _ db db' b e))
      (λ b.
        >>=-Moving (capture (is_finalized b.status) _ _) _ (captures (is_finalized b.status))
          (λ _. read_intent-Moving intent.id))
  where
    captures :
        (late : Bool)
        → Moving (
            capture late
              (flag_late_capture env t intent)
              (create_tender_record (capture_params t intent)))
    captures true = modify-Moving (flag_late_capture env t intent) (flag-Moves env t intent)
    captures false =
        >>=-Moving (create_tender_record (capture_params t intent)) _
          (create_tender_record-Moving (capture_params t intent)) (λ _. pure-Moving tt)

confirm_checked-Moving : (env : Env) (t k : ℕ) → Moving (confirm_checked env t k)
unfolding confirm_checked
confirm_checked-Moving env t k =
    read-Moving (λ db. count_where (confirmable k) db.payment_intents) _
      (λ n. write-Moving (update_intents (confirmable k) (succeed env)) _ (succeed-Moves env k) (
        >>=-Moving (read_intent k) _ (read_intent-Moving k) (λ i.
          read-Moving (λ db. find (pays k) db.tenders) _
            (λ r.
              if-Moving (n == 0 || is_some r) (pure i) (record_capture env t i) (pure-Moving i)
                (record_capture-Moving env t i)))))

pub confirm_intent-Moving : (env : Env) (t k : ℕ) → Moving (confirm_intent env t k)
unfolding confirm_intent
confirm_intent-Moving env t k = >>=-Moving (read_intent k) _ (read_intent-Moving k) (λ target.
    read-Moving (λ db. payments_simulator_for env db t) _
      (λ simulator.
        guard-Moving (is_simulated target.provider && not simulator)
          (conflicting simulator_disabled) (confirm_checked env t k)
          (confirm_checked-Moving env t k)))

pub fail_intent-Moving : (k : ℕ) (why : FailureReason) → Moving (fail_intent k why)
unfolding fail_intent
fail_intent-Moving k why =
    write-Moving (update_intents (still_active k) (stop failed why)) _ (fail-Moves k why)
      (read_intent-Moving k)

expire_if_due-Moving : (env : Env) (i : PaymentIntent) → Moving (expire_if_due env i)
unfolding expire_if_due
expire_if_due-Moving env i =
    if-Moving (not (is_intent_active i) || ltb env.now i.expires_at) (pure i) _ (pure-Moving i) (
      write-Moving (update_intents (still_active i.id) (stop expired timed_out)) _
        (λ db. expire-Moves (still_active i.id) timed_out db (λ x on. ground arith))
        (read_intent-Moving i.id))

refuse_found-Moving : (env : Env) (o : Option PaymentIntent) → Moving (refuse_found env o)
refuse_found-Moving env none = pure-Moving tt
refuse_found-Moving env (some i) =
    >>=-Moving (expire_if_due env i) _ (expire_if_due-Moving env i)
      (λ c. throw_if-Moving (is_intent_active c) _)

refuse_active-Moving : (env : Env) (b : ℕ) → Moving (refuse_active env b)
unfolding refuse_active
refuse_active-Moving env b a db db' e =
    refuse_found-Moving env (find (active_of_bill b) db.payment_intents) a db db' e

insert_intent-Moving :
    (env : Env) (staff : Staff) (b : ℕ) (dto : CreateIntent) (target : Option ℕ) (bill : Bill)
    → Moving (insert_intent env staff b dto target bill)
insert_intent-Moving env staff b dto target bill i db db' e =
    Moves-insert db db' i (insert_intent-adds env staff b dto target bill i db db' e).0

queue_intent-Moving :
    (env : Env) (staff : Staff) (b : ℕ) (dto : CreateIntent) (bill : Bill)
    → Moving (queue_intent env staff b dto bill)
unfolding queue_intent
queue_intent-Moving env staff b dto bill =
    read-Moving (λ db. remaining_minor db bill) _
      (λ remaining.
        guard-Moving (ltb_ℤ remaining dto.amount_minor) (bad_request amount_exceeds_remaining) _ (
          >>=-Moving (refuse_active env b) _ (refuse_active-Moving env b) (λ _.
            read-Moving (λ db. linked_peripheral db staff.tenant_id dto.device_id terminal) _
              (λ target.
                read-Moving (λ db. outlet_terminals db staff.tenant_id bill.outlet_id) _
                  (λ n. guard-Moving (not (is_some target) && n == 0) (conflicting no_terminal) _ (
                    >>=-Moving (insert_intent env staff b dto target bill) _
                      (insert_intent-Moving env staff b dto target bill)
                      (λ i. pure-Moving (i, true))))))))

reuse_or_queue-Moving :
    (env : Env) (staff : Staff) (b : ℕ) (dto : CreateIntent) (bill : Bill)
    (o : Option PaymentIntent)
    → Moving (reuse_or_queue env staff b dto bill o)
reuse_or_queue-Moving env staff b dto bill none = queue_intent-Moving env staff b dto bill
reuse_or_queue-Moving env staff b dto bill (some i) =
    guard-Moving (not (i.bill_id == b)) _ _ (
      >>=-Moving (expire_if_due env i) _ (expire_if_due-Moving env i) (λ c. pure-Moving (c, false)))

pub create_intent-Moving :
    (env : Env) (staff : Staff) (b : ℕ) (dto : CreateIntent)
    → Moving (create_intent env staff b dto)
unfolding create_intent
create_intent-Moving env staff b dto =
    read-Moving (λ db. payments_simulator_for env db staff.tenant_id) _
      (λ simulator. guard-Moving (not simulator) (conflicting provider_unavailable) _ (
        >>=-Moving (load_bill staff.tenant_id b) _
          (Reading-Moving (load_bill staff.tenant_id b)
            (λ bill db db' e. (load_bill-found staff.tenant_id b db db' bill e).1))
          (λ loaded.
            >>=-Moving (refresh_open_bill_totals loaded) _
              (λ bill db db' e. Moves-same db db' (refresh-frame loaded bill db db' e).0)
              (λ bill. guard-Moving (is_finalized bill.status) (conflicting already_finalized) _ (
                read-Moving (λ db. find (has_key staff.tenant_id dto.client_key) db.payment_intents)
                  _ (reuse_or_queue-Moving env staff b dto bill))))))

pub get_intent-Moving : (env : Env) (staff : Staff) (k : ℕ) → Moving (get_intent env staff k)
unfolding get_intent
get_intent-Moving env staff k =
    >>=-Moving (load_intent staff.tenant_id k) _ (load_intent-Moving staff.tenant_id k)
      (expire_if_due-Moving env)

pub cancel_intent-Moving : (env : Env) (staff : Staff) (k : ℕ) → Moving (cancel_intent env staff k)
unfolding cancel_intent
cancel_intent-Moving env staff k =
    >>=-Moving (load_intent staff.tenant_id k) _ (load_intent-Moving staff.tenant_id k) (λ loaded.
      >>=-Moving (expire_if_due env loaded) _ (expire_if_due-Moving env loaded) (λ i.
        guard-Moving (is_succeeded i.status) _ _ (
          if-Moving (is_intent_active i) _ (pure i)
            (write-Moving (update_intents (still_active i.id) (stop cancelled cancelled_by_staff)) _
              (cancel-Moves i.id cancelled_by_staff) (read_intent-Moving i.id))
            (pure-Moving i))))

pub list_pending_for_outlet-Moving :
    (env : Env) (staff : Staff) (outlet_id : ℕ) (device_id : Option ℕ)
    → Moving (list_pending_for_outlet env staff outlet_id device_id)
unfolding list_pending_for_outlet
list_pending_for_outlet-Moving env staff outlet_id device_id =
    guard-Moving (not (outlet_id == staff.outlet_id)) _ _ (
      write-Moving (update_intents (overdue env staff.tenant_id outlet_id) (stop expired timed_out))
        _
        (λ db.
          expire-Moves (overdue env staff.tenant_id outlet_id) timed_out db (λ x on. ground arith))
        (read-Moving (λ db. queue_for db staff.tenant_id device_id terminal) _
          (λ target. gets-Moving (λ db.
            select
              (λ i.
                i.tenant_id == staff.tenant_id
                && i.outlet_id == outlet_id
                && is_active_status i.status
                && eq_option i.target_device_id target)
              db.payment_intents))))

simulate_success-Moving :
    (env : Env) (staff : Staff) (i : PaymentIntent) → Moving (simulate_success env staff i)
unfolding simulate_success
simulate_success-Moving env staff i = if-Moving (is_succeeded i.status) (pure i) _ (pure-Moving i) (
    guard-Moving (is_failed i.status || is_cancelled i.status) _ _
      (confirm_intent-Moving env staff.tenant_id i.id))

simulate_decline-Moving : (env : Env) (i : PaymentIntent) → Moving (simulate_decline env i)
unfolding simulate_decline
simulate_decline-Moving env i =
    >>=-Moving (expire_if_due env i) _ (expire_if_due-Moving env i) (λ c.
      if-Moving (is_failed c.status) (pure c) _ (pure-Moving c)
        (guard-Moving (not (is_intent_active c)) _ _ (fail_intent-Moving c.id declined)))

pub simulate-Moving :
    (env : Env) (staff : Staff) (k : ℕ) (outcome : SimulatedOutcome)
    → Moving (simulate env staff k outcome)
unfolding simulate
simulate-Moving env staff k success =
    >>=-Moving (load_intent staff.tenant_id k) _ (load_intent-Moving staff.tenant_id k) (λ i.
      read-Moving (λ db. payments_simulator_for env db staff.tenant_id) _
        (λ simulator.
          guard-Moving (not (is_simulated i.provider && simulator)) (missing not_found) _
            (simulate_success-Moving env staff i)))
simulate-Moving env staff k decline =
    >>=-Moving (load_intent staff.tenant_id k) _ (load_intent-Moving staff.tenant_id k) (λ i.
      read-Moving (λ db. payments_simulator_for env db staff.tenant_id) _
        (λ simulator.
          guard-Moving (not (is_simulated i.provider && simulator)) (missing not_found) _
            (simulate_decline-Moving env i)))
