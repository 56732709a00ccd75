-- ===== src/Shares.antt =====
-- A guest's checkout, guest/bills/bills.service.ts: the shares of a bill, which follow its total,
-- and paying them. What a view shows is left out; a row lock writes nothing.
pub mod Split
mod Tests
use restiq_backend.Base.{
  ℕ, suc, ◌+◌, Bool, true, false, not, ◌&&◌, ◌||◌, Option, none, some, List, [], ◌∷◌, ◌++◌, map,
  String, leb, ◌==◌, if◌then◌else◌, is_some, or_else, eq_option, find, select, any, all,
  count_where, update_where,
}
use restiq_backend.Base.Int.{ℤ, pos, ◌+ℤ◌, ◌-ℤ◌, ◌*ℤ◌, ◌/ℤ◌, ltb_ℤ, eqb_ℤ, sum_ℤ}
use restiq_backend.Store.Rows.{
  Db, Order, Bill, is_open, is_finalized, is_closed, OrderLine, BillShare, BillShareStatus,
  outstanding, paid, is_paid, is_outstanding, Tender, upi_manual, card_terminal, PaymentIntent,
  pending, simulated, TableSession, TableSessionStatus, open_session, settled,
}
use restiq_backend.Store.Transaction.{
  Tx, ok, err, pure, gets, ◌>>=◌, ◌>>◌, throw_if, modify, failure, conflicting, missing, gone,
  not_found, session_closed, provider_unavailable, already_finalized, share_already_paid,
  partial_payment_exists, bill_changed, not_finalized,
}
use restiq_backend.Bills.{
  billed_lines, line_total, load_bill, bill_total, bill_of_order, refresh_open_bill_totals,
  create_or_get_bill_record, create_tender_record,
}
use restiq_backend.Settle.{Env, payments_simulator_for, commit_finalize}
use restiq_backend.Intents.{confirm_intent}

-- What a guest's token says (platform/guest-jwt.ts).
pub record GuestPrincipal : Type 0 where
  pub id : ℕ
  pub session_id : ℕ
  pub tenant_id : ℕ
  pub outlet_id : ℕ
  pub table_id : Option ℕ
  pub name : String

unfoldable pub load_order_for_session : GuestPrincipal → ℕ → Tx Order
load_order_for_session guest order_id db = elim (find (λ o. o.id == order_id) db.orders) [
  | none ↦ err (missing not_found)
  | some order ↦
      if order.tenant_id == guest.tenant_id && eq_option order.session_id (some guest.session_id)
      then ok (order, db)
      else err (missing not_found)
]

abbrev pub is_session_open : TableSessionStatus → Bool
is_session_open open_session = true
is_session_open _ = false

-- `isSessionInactive` of guest/sessions/sessions.service.ts
abbrev pub is_session_inactive : Env → TableSession → Bool
is_session_inactive env session =
    not (is_session_open session.status) || leb session.expires_at env.now

unfoldable pub assert_session_active : Env → GuestPrincipal → Tx TableSession
assert_session_active env guest db = elim (find (λ s. s.id == guest.session_id) db.table_sessions) [
  | none ↦ err (missing not_found)
  | some session ↦
      if not (session.tenant_id == guest.tenant_id)
      then err (missing not_found)
      else if is_session_inactive env session
      then err (gone session_closed)
      else ok (session, db)
]

unfoldable pub assert_guest_payments_available : Env → ℕ → Tx (Unit {0})
assert_guest_payments_available env tenant_id = do
  simulator ← gets (λ db. payments_simulator_for env db tenant_id)
  throw_if (not simulator) (conflicting provider_unavailable)

-- A guest's own lines of an order: the name of the first, and their total.
pub record Weight : Type 0 where
  pub guest_id : ℕ
  pub guest_name : String
  pub total : ℤ

abbrev pub weighs : ℕ → Weight → Bool
weighs guest_id w = w.guest_id == guest_id

unfoldable pub add_weight : ℕ → OrderLine → List Weight → List Weight
add_weight guest_id line ws =
    if any (weighs guest_id) ws
    then update_where (weighs guest_id) (λ w. record w { total = w.total +ℤ line_total line }) ws
    else ws
      ++ record {
        guest_id = guest_id;
        guest_name = or_else line.guest_name "Guest";
        total = line_total line;
      }
        ∷ []

-- `weights`, in the order of the guests' first lines. A line of the staff's has no guest.
unfoldable pub weights_from : List Weight → List OrderLine → List Weight
unfolding add_weight
weights_from ws [] = ws
weights_from ws (line ∷ lines) = elim line.guest_id [
  | none ↦ weights_from ws lines
  | some guest_id ↦ weights_from (add_weight guest_id line ws) lines
]

abbrev pub weight_of : List Weight → ℕ → ℤ
weight_of ws guest_id = elim (find (weighs guest_id) ws) [ none ↦ pos 0 | some w ↦ w.total ]

abbrev pub shares_of : Db → ℕ → List BillShare
shares_of db bill_id = select (λ s. s.bill_id == bill_id) db.bill_shares

-- A guest who has no share yet gets one of nothing.
unfoldable pub add_missing_shares : ℕ → ℕ → List Weight → Db → Db
add_missing_shares tenant_id bill_id [] db = db
add_missing_shares tenant_id bill_id (w ∷ ws) db =
    let share : BillShare = record {
      id = db.next_id;
      tenant_id = tenant_id;
      bill_id = bill_id;
      guest_id = w.guest_id;
      guest_name = w.guest_name;
      amount_minor = pos 0;
      status = outstanding;
      payer_phone = none;
      tender_id = none;
      paid_at = none;
    } in
    add_missing_shares tenant_id bill_id ws (
      if any (λ s. s.guest_id == w.guest_id) (shares_of db bill_id)
      then db
      else record db { bill_shares = db.bill_shares ++ share ∷ []; next_id = suc db.next_id })

abbrev pub amounts : List BillShare → List ℤ
amounts shares = map (λ (s : BillShare). s.amount_minor) shares

abbrev pub paid_minor : List BillShare → ℤ
paid_minor shares = sum_ℤ (amounts (select (λ s. is_paid s.status) shares))

abbrev pub outstanding_of : List BillShare → List BillShare
outstanding_of shares = select (λ s. is_outstanding s.status) shares

-- A share that is not the last: proportional to its weight, towards zero.
unfoldable pub proportion : ℤ → ℤ → ℤ → ℤ
proportion due total_weight weight =
    if eqb_ℤ total_weight (pos 0) then pos 0 else (due *ℤ weight) /ℤ total_weight

-- The amounts of the outstanding shares, by their weights; the last absorbs the remainder.
unfoldable pub split_due : ℤ → ℤ → ℤ → List ℤ → List ℤ
unfolding proportion
split_due due total_weight allocated [] = []
split_due due total_weight allocated (w ∷ []) = (due -ℤ allocated) ∷ []
split_due due total_weight allocated (w ∷ v ∷ ws) =
    proportion due total_weight w
    ∷ split_due due total_weight (allocated +ℤ proportion due total_weight w) (v ∷ ws)

abbrev pub set_amount : ℤ → BillShare → BillShare
set_amount amount s = record s { amount_minor = amount }

-- Writing the amounts that changed.
unfoldable pub write_amounts : List BillShare → List ℤ → Db → Db
write_amounts [] _ db = db
write_amounts (s ∷ ss) [] db = db
write_amounts (s ∷ ss) (a ∷ rest) db =
    let written : Db = record db {
      bill_shares = update_where (λ x. x.id == s.id) (set_amount a) db.bill_shares;
    } in
    write_amounts ss rest (if eqb_ℤ a s.amount_minor then db else written)

unfoldable pub share_weights : List Weight → List BillShare → List ℤ
share_weights ws shares = map (λ (s : BillShare). weight_of ws s.guest_id) shares

-- What is still due, split over the shares that are outstanding.
unfoldable pub allocate_due : List Weight → ℤ → ℕ → Db → Db
unfolding split_due write_amounts share_weights
allocate_due ws due bill_id db =
    let open_shares = outstanding_of (shares_of db bill_id) in
    let weights = share_weights ws open_shares in
    write_amounts open_shares (split_due due (sum_ℤ weights) (pos 0) weights) db

abbrev pub no_shares : List BillShare → Bool
no_shares [] = true
no_shares (_ ∷ _) = false

unfoldable pub sync_open : ℕ → Bill → Tx (Unit {0})
unfolding weights_from allocate_due
sync_open tenant_id bill = do
  ws ← gets (λ db. weights_from [] (billed_lines db bill.order_id))
  modify (add_missing_shares tenant_id bill.id ws)
  shares ← gets (λ db. shares_of db bill.id)
  let due = bill_total bill -ℤ paid_minor shares
  throw_if (ltb_ℤ due (pos 0) || ltb_ℤ (pos 0) due && no_shares (outstanding_of shares))
      (conflicting bill_changed)
  modify (allocate_due ws due bill.id)

-- `syncShares`
unfoldable pub sync_shares : ℕ → Bill → Tx (Unit {0})
sync_shares tenant_id bill = if is_open bill.status then sync_open tenant_id bill else pure tt

-- `createBill`: the bill, and whether it is new. `others` is what a concurrent request has committed
-- between the look-up and the insertion of the bill.
unfoldable pub create_bill : Env → (Db → Db) → GuestPrincipal → ℕ → Tx (Bill × Bool)
create_bill env others guest order_id = do
  session ← assert_session_active env guest
  order ← load_order_for_session guest order_id
  made ← create_or_get_bill_record others (record {
    tenant_id = guest.tenant_id;
    outlet_id = order.outlet_id;
    order_id = order_id;
    created_by_staff_id = none;
    order_closed = is_closed order.status;
  })
  sync_shares guest.tenant_id made.0
  pure made

-- `getBill`
unfoldable pub get_bill : GuestPrincipal → ℕ → Tx Bill
get_bill guest order_id = do
  order ← load_order_for_session guest order_id
  row ← gets (λ db. bill_of_order db order.id)
  elim row [
    | none ↦ λ db. err (missing not_found)
    | some found ↦ (do
      loaded ← load_bill guest.tenant_id found.id
      bill ← refresh_open_bill_totals loaded
      sync_shares guest.tenant_id bill
      pure bill)
  ]

-- The guard of `getInvoice`: the bill whose invoice a guest may see.
unfoldable pub invoiced_bill : GuestPrincipal → ℕ → Tx Bill
invoiced_bill guest bill_id = do
  bill ← load_bill guest.tenant_id bill_id
  order ← load_order_for_session guest bill.order_id
  throw_if (not (is_finalized bill.status)) (conflicting not_finalized)
  pure bill

unfoldable pub settle_session : Env → Option ℕ → Tx (Unit {0})
settle_session env none db = ok (tt, db)
settle_session env (some session_id) db =
    if any (λ s. s.id == session_id) db.table_sessions
    then ok (
      tt,
      record db {
        table_sessions =
            update_where (λ s. s.id == session_id)
              (λ s. record s { status = settled; closed_at = some env.now }) db.table_sessions;
      },
    )
    else err failure

-- `completeBill`
unfoldable pub complete_bill : Env → ℕ → Bill → Order → Tx (Unit {0})
complete_bill env tenant_id bill order = do
  fresh ← load_bill tenant_id bill.id
  final ← commit_finalize env (record {
    tenant_id = tenant_id;
    bill = fresh;
    discount_minor = none;
    discount_reason = none;
    finalized_by_staff_id = none;
  })
  settle_session env order.session_id

pub record SimulatedPayment : Type 0 where
  pub success : Bool
  pub payer_phone : Option String

abbrev pub pay_by : Env → SimulatedPayment → ℕ → BillShare → BillShare
pay_by env dto tender_id s = record s {
  status = paid;
  payer_phone = dto.payer_phone;
  tender_id = some tender_id;
  paid_at = some env.now;
}

abbrev pub share_of_guest : ℕ → ℕ → BillShare → Bool
share_of_guest bill_id guest_id s = s.bill_id == bill_id && s.guest_id == guest_id

unfoldable pub load_share : ℕ → ℕ → ℕ → Tx BillShare
load_share tenant_id bill_id guest_id db =
    elim (find (share_of_guest bill_id guest_id) db.bill_shares) [
      | none ↦ err (missing not_found)
      | some share ↦
          if share.tenant_id == tenant_id then ok (share, db) else err (missing not_found)
    ]

abbrev pub upi_tender : ℕ → ℕ → ℤ → Tx Tender
upi_tender tenant_id bill_id amount = create_tender_record (record {
  tenant_id = tenant_id;
  bill_id = bill_id;
  method = upi_manual;
  amount_minor = amount;
  payment_intent_id = none;
  risk_acknowledged = none;
  reference = none;
  tendered_minor = none;
})

abbrev pub still_outstanding : ℕ → Db → ℕ
still_outstanding bill_id db =
    count_where (λ s. s.bill_id == bill_id && is_outstanding s.status) db.bill_shares

-- The payment of a share that the simulation approved, which completes the bill when it is the last.
unfoldable pub settle_share :
    Env → GuestPrincipal → Bill → Order → BillShare → SimulatedPayment → Tx (Unit {0})
settle_share env guest bill order share dto = do
  tender ← upi_tender guest.tenant_id bill.id share.amount_minor
  modify (λ db. record db {
    bill_shares = update_where (λ s. s.id == share.id) (pay_by env dto tender.id) db.bill_shares;
  })
  left ← gets (still_outstanding bill.id)
  (if left == 0 then complete_bill env guest.tenant_id bill order else pure tt)

-- What both payments check first: the bill with its current totals and its order.
unfoldable pub open_checkout : Env → GuestPrincipal → ℕ → Tx (Bill × Order × TableSession)
open_checkout env guest bill_id = do
  assert_guest_payments_available env guest.tenant_id
  loaded ← load_bill guest.tenant_id bill_id
  bill ← refresh_open_bill_totals loaded
  order ← load_order_for_session guest bill.order_id
  throw_if (is_finalized bill.status) (conflicting already_finalized)
  session ← assert_session_active env guest
  sync_shares guest.tenant_id bill
  pure (bill, order, session)

-- `payShare`: the bill as it is stored afterwards.
unfoldable pub pay_share : Env → GuestPrincipal → ℕ → ℕ → SimulatedPayment → Tx Bill
pay_share env guest bill_id guest_id dto = do
  checkout ← open_checkout env guest bill_id
  share ← load_share guest.tenant_id bill_id guest_id
  throw_if (is_paid share.status) (conflicting share_already_paid)
  (if dto.success then settle_share env guest checkout.0 checkout.1 share dto else pure tt)
  load_bill guest.tenant_id bill_id

-- `payByKioskCard`: the id of the card's tender.
unfoldable pub pay_by_kiosk_card : Env → ℕ → Bill → String → ℤ → Tx ℕ
pay_by_kiosk_card env tenant_id bill client_key amount_minor db =
    let intent : PaymentIntent = record {
      id = db.next_id;
      tenant_id = tenant_id;
      outlet_id = bill.outlet_id;
      bill_id = bill.id;
      rail = card_terminal;
      provider = simulated;
      amount_minor = amount_minor;
      status = pending;
      client_key = client_key;
      failure_reason = none;
      expires_at = env.now + 60000;
      succeeded_at = none;
      created_by_staff_id = none;
      target_device_id = none;
    } in
    let raised : Db = record db {
      payment_intents = db.payment_intents ++ intent ∷ [];
      next_id = suc db.next_id;
    } in
    let confirmed : Tx ℕ = confirm_intent env tenant_id intent.id >>= λ i.
    gets (λ d. find (λ t. eq_option t.payment_intent_id (some i.id)) d.tenders) >>= λ t. elim t [
      | none ↦ λ d. err failure
      | some tender ↦ pure tender.id
    ] in
    if any (λ t. t.id == tenant_id) db.tenants then confirmed raised else err failure

-- A kiosk's session has no table.
abbrev pub pay_whole : Env → GuestPrincipal → Bill → TableSession → String → Tx ℕ
pay_whole env guest bill session client_key =
    if is_some session.table_id
    then upi_tender guest.tenant_id bill.id (bill_total bill) >>= (λ t. pure t.id)
    else pay_by_kiosk_card env guest.tenant_id bill client_key (bill_total bill)

unfoldable pub settle_all :
    Env → GuestPrincipal → Bill → Order → TableSession → String → SimulatedPayment → Tx (Unit {0})
unfolding pay_by_kiosk_card
settle_all env guest bill order session client_key dto = do
  tender_id ← pay_whole env guest bill session client_key
  modify (λ db. record db {
    bill_shares =
        update_where (λ s. s.bill_id == bill.id) (pay_by env dto tender_id) db.bill_shares;
  })
  complete_bill env guest.tenant_id bill order

-- `payAll`. `client_key` is the text `kiosk:` with the bill's id.
unfoldable pub pay_all : Env → GuestPrincipal → ℕ → String → SimulatedPayment → Tx Bill
pay_all env guest bill_id client_key dto = do
  checkout ← open_checkout env guest bill_id
  shares ← gets (λ db. shares_of db bill_id)
  throw_if (any (λ s. is_paid s.status) shares) (conflicting partial_payment_exists)
  (if dto.success
      then settle_all env guest checkout.0 checkout.1 checkout.2 client_key dto
      else pure tt)
  load_bill guest.tenant_id bill_id
