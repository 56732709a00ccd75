-- ===== src/Store/Rows.antt =====
-- Rows, tables and enumerations of prisma/schema.prisma.
use restiq_backend.Base.{ℕ, Bool, true, false, Option, List, String}
use restiq_backend.Base.Int.{ℤ}
use restiq_backend.Pricing.{ItemPrice, ItemOutletOverride}
use restiq_backend.Tax.{TaxCountry, GstSplitRounding, TaxBreakdownLine}

pub data TenantStatus : Type 0 where
  provisioning active inactive : TenantStatus

pub record Tenant : Type 0 where
  pub id : ℕ
  pub country : TaxCountry
  pub status : TenantStatus
  pub live_since : Option ℕ
  pub deleted_at : Option ℕ

pub record TaxRegistration : Type 0 where
  pub tenant_id : ℕ
  pub tax_profile : List ℕ
  pub composition_scheme : Bool
  pub gst_registered : Bool
  pub gst_rate_percent : Option ℕ
  pub gst_split_rounding : GstSplitRounding

pub data OrderStatus : Type 0 where
  opened sent closed : OrderStatus

pub data OrderSource : Type 0 where
  pos_order qr_order kiosk_order : OrderSource

pub record Order : Type 0 where
  pub id : ℕ
  pub tenant_id : ℕ
  pub outlet_id : ℕ
  pub table_id : Option ℕ
  pub owner_id : Option ℕ
  pub status : OrderStatus
  pub source : OrderSource
  pub token_number : Option ℕ
  pub session_id : Option ℕ
  pub created_at : ℕ

pub record OrderLine : Type 0 where
  pub id : ℕ
  pub tenant_id : ℕ
  pub order_id : ℕ
  pub item_id : Option ℕ
  pub variant_id : Option ℕ
  pub combo_id : Option ℕ
  pub parent_line_id : Option ℕ
  pub quantity : ℕ
  pub unit_price_minor : ℤ
  pub modifier_prices : List ℤ
  pub seat_number : Option ℕ
  pub guest_id : Option ℕ
  pub guest_name : Option String
  pub voided_at : Option ℕ

pub data BillStatus : Type 0 where
  open_ finalized : BillStatus

-- What the `tax_breakdown` column holds.
pub record StoredTaxBreakdown : Type 0 where
  pub lines : List TaxBreakdownLine
  pub notes : List String
  pub gst_split_rounding : Option GstSplitRounding

pub record Bill : Type 0 where
  pub id : ℕ
  pub tenant_id : ℕ
  pub outlet_id : ℕ
  pub order_id : ℕ
  pub bill_number : Option ℕ
  pub subtotal_minor : ℤ
  pub tax_minor : ℤ
  pub tax_breakdown : Option StoredTaxBreakdown
  pub prices_include_tax : Bool
  pub discount_minor : Option ℤ
  pub discount_reason : Option (List ℕ)
  pub round_off_minor : Option ℤ
  pub status : BillStatus
  pub created_by_staff_id : Option ℕ
  pub finalized_by_staff_id : Option ℕ
  pub finalized_at : Option ℕ

pub data TenderMethod : Type 0 where
  cash upi_manual upi_intent upi_qr card_online card_terminal external : TenderMethod

pub record Tender : Type 0 where
  pub id : ℕ
  pub tenant_id : ℕ
  pub bill_id : ℕ
  pub method : TenderMethod
  pub amount_minor : ℤ
  pub payment_intent_id : Option ℕ
  pub risk_acknowledged : Bool
  pub reference : Option (List ℕ)
  pub tendered_minor : Option ℤ

pub data PaymentIntentStatus : Type 0 where
  created pending succeeded failed expired cancelled : PaymentIntentStatus

pub data PaymentProviderKind : Type 0 where
  simulated razorpay : PaymentProviderKind

pub data FailureReason : Type 0 where
  late_capture_refund_due timed_out declined cancelled_by_staff : FailureReason

pub record PaymentIntent : Type 0 where
  pub id : ℕ
  pub tenant_id : ℕ
  pub outlet_id : ℕ
  pub bill_id : ℕ
  pub rail : TenderMethod
  pub provider : PaymentProviderKind
  pub amount_minor : ℤ
  pub status : PaymentIntentStatus
  pub client_key : String
  pub failure_reason : Option FailureReason
  pub expires_at : ℕ
  pub succeeded_at : Option ℕ
  pub created_by_staff_id : Option ℕ
  pub target_device_id : Option ℕ

pub data BillShareStatus : Type 0 where
  outstanding paid : BillShareStatus

pub record BillShare : Type 0 where
  pub id : ℕ
  pub tenant_id : ℕ
  pub bill_id : ℕ
  pub guest_id : ℕ
  pub guest_name : String
  pub amount_minor : ℤ
  pub status : BillShareStatus
  pub payer_phone : Option String
  pub tender_id : Option ℕ
  pub paid_at : Option ℕ

pub record BillNumberCounter : Type 0 where
  pub outlet_id : ℕ
  pub last_number : ℕ

pub record CreditNoteLine : Type 0 where
  pub order_line_id : ℕ
  pub quantity : ℕ
  pub unit_price_minor : ℤ
  pub amount_minor : ℤ

pub record CreditNote : Type 0 where
  pub id : ℕ
  pub tenant_id : ℕ
  pub original_bill_id : ℕ
  pub reason : List ℕ
  pub approved_by_staff_id : ℕ
  pub created_by_staff_id : ℕ
  pub subtotal_minor : ℤ
  pub tax_minor : ℤ
  pub method : Option TenderMethod
  pub lines : List CreditNoteLine
  pub created_at : ℕ

pub record Modifier : Type 0 where
  pub id : ℕ
  pub price_minor : ℤ

pub record ModifierGroup : Type 0 where
  pub min_selections : ℕ
  pub max_selections : ℕ
  pub modifiers : List Modifier

-- A row of `menu_items`, with its variants and its modifier groups.
pub record Item : Type 0 where
  pub id : ℕ
  pub tenant_id : ℕ
  pub station_id : Option ℕ
  pub available : Bool
  pub archived_at : Option ℕ
  pub variant_ids : List ℕ
  pub modifier_groups : List ModifierGroup

pub record ComboSlotOption : Type 0 where
  pub id : ℕ
  pub item_id : ℕ
  pub variant_id : Option ℕ
  pub upcharge_minor : ℤ

pub record ComboSlot : Type 0 where
  pub id : ℕ
  pub pick_count : ℕ
  pub options : List ComboSlotOption

pub record Combo : Type 0 where
  pub id : ℕ
  pub tenant_id : ℕ
  pub price_minor : ℤ
  pub available : Bool
  pub archived_at : Option ℕ
  pub slots : List ComboSlot

pub record Station : Type 0 where
  pub id : ℕ
  pub tenant_id : ℕ
  pub outlet_id : ℕ
  pub name : String
  pub deleted_at : Option ℕ

pub data TicketStatus : Type 0 where
  queued bumped : TicketStatus

pub record Ticket : Type 0 where
  pub id : ℕ
  pub tenant_id : ℕ
  pub outlet_id : ℕ
  pub order_id : ℕ
  pub station_id : Option ℕ
  pub status : TicketStatus
  pub recall_count : ℕ
  pub fired_at : ℕ
  pub bumped_at : Option ℕ
  pub recalled_at : Option ℕ

pub record TicketLine : Type 0 where
  pub ticket_id : ℕ
  pub order_line_id : ℕ
  pub quantity : ℕ
  pub add_on_batch : ℕ
  pub voided : Bool

pub data TicketEventType : Type 0 where
  bumped_event recalled_event refired_event add_on_fired : TicketEventType

pub record TicketEvent : Type 0 where
  pub ticket_id : ℕ
  pub kind : TicketEventType
  pub occurred_at : ℕ

pub data TableSessionStatus : Type 0 where
  open_session settled closed_session : TableSessionStatus

pub record TableSession : Type 0 where
  pub id : ℕ
  pub tenant_id : ℕ
  pub outlet_id : ℕ
  pub table_id : Option ℕ
  pub status : TableSessionStatus
  pub session_pin : String
  pub created_at : ℕ
  pub expires_at : ℕ
  pub closed_at : Option ℕ

pub record Guest : Type 0 where
  pub id : ℕ
  pub tenant_id : ℕ
  pub session_id : ℕ
  pub name : String
  pub joined_at : ℕ

-- A line of a table's cart, with the modifiers chosen for it.
pub record CartLine : Type 0 where
  pub id : ℕ
  pub tenant_id : ℕ
  pub session_id : ℕ
  pub guest_id : ℕ
  pub guest_name : String
  pub item_id : Option ℕ
  pub variant_id : Option ℕ
  pub combo_id : Option ℕ
  pub parent_line_id : Option ℕ
  pub combo_option_id : Option ℕ
  pub quantity : ℕ
  pub modifier_ids : List ℕ
  pub created_at : ℕ

pub data CapabilityKey : Type 0 where
  qr_ordering kiosk_ordering : CapabilityKey

pub record OutletCapability : Type 0 where
  pub outlet_id : ℕ
  pub key : CapabilityKey
  pub enabled : Bool

pub data DeviceType : Type 0 where
  pos_device printer terminal kds_device kiosk_device : DeviceType

pub record Device : Type 0 where
  pub id : ℕ
  pub tenant_id : ℕ
  pub outlet_id : ℕ
  pub kind : DeviceType
  pub in_service : Bool
  pub paired_pos_id : Option ℕ

pub record Outlet : Type 0 where
  pub id : ℕ
  pub tenant_id : ℕ
  pub deleted_at : Option ℕ

-- A table, with the outlet of its floor.
pub record DiningTable : Type 0 where
  pub id : ℕ
  pub tenant_id : ℕ
  pub outlet_id : ℕ

pub record TokenNumberCounter : Type 0 where
  pub outlet_id : ℕ
  pub last_number : ℕ

pub record Shift : Type 0 where
  pub id : ℕ
  pub tenant_id : ℕ
  pub outlet_id : ℕ
  pub opened_by_staff_id : ℕ
  pub float_minor : ℤ
  pub opened_at : ℕ
  pub closed_by_staff_id : Option ℕ
  pub closed_at : Option ℕ
  pub counted_minor : Option ℤ
  pub expected_minor : Option ℤ
  pub over_short_minor : Option ℤ

pub data CashMovementType : Type 0 where
  paid_out bank_drop : CashMovementType

pub record CashMovement : Type 0 where
  pub id : ℕ
  pub tenant_id : ℕ
  pub shift_id : ℕ
  pub kind : CashMovementType
  pub amount_minor : ℤ
  pub reason : String
  pub created_by_staff_id : ℕ
  pub created_at : ℕ

pub record StaffUser : Type 0 where
  pub id : ℕ
  pub tenant_id : ℕ
  pub name : String
  pub role_name : String
  pub is_manager : Bool
  pub pin_hash : Option ℕ
  pub pin_revoked_at : Option ℕ
  pub outlet_ids : List ℕ

pub data AuditAction : Type 0 where
  went_live late_capture_due discount_above_threshold refund_approved void_after_fire : AuditAction
  order_discarded ownership_transferred detached_stale_table : AuditAction
  comp_approved price_override_approved no_sale_drawer_opened : AuditAction

pub record AuditEvent : Type 0 where
  pub tenant_id : ℕ
  pub actor_id : Option ℕ
  pub approver_id : Option ℕ
  pub action : AuditAction
  pub subject_id : Option ℕ
  pub occurred_at : ℕ

pub record Db : Type 0 where
  pub tenants : List Tenant
  pub tax_registrations : List TaxRegistration
  pub orders : List Order
  pub order_lines : List OrderLine
  pub bills : List Bill
  pub tenders : List Tender
  pub payment_intents : List PaymentIntent
  pub bill_shares : List BillShare
  pub bill_number_counters : List BillNumberCounter
  pub credit_notes : List CreditNote
  pub items : List Item
  pub item_prices : List ItemPrice
  pub item_outlet_overrides : List ItemOutletOverride
  pub combos : List Combo
  pub stations : List Station
  pub tickets : List Ticket
  pub ticket_lines : List TicketLine
  pub ticket_events : List TicketEvent
  pub table_sessions : List TableSession
  pub guests : List Guest
  pub cart_lines : List CartLine
  pub outlet_capabilities : List OutletCapability
  pub devices : List Device
  pub outlets : List Outlet
  pub dining_tables : List DiningTable
  pub token_number_counters : List TokenNumberCounter
  pub shifts : List Shift
  pub cash_movements : List CashMovement
  pub staff_users : List StaffUser
  pub audit_events : List AuditEvent
  pub next_id : ℕ

abbrev pub is_open : BillStatus → Bool
is_open open_ = true
is_open finalized = false

abbrev pub is_finalized : BillStatus → Bool
is_finalized open_ = false
is_finalized finalized = true

abbrev pub is_closed : OrderStatus → Bool
is_closed closed = true
is_closed _ = false

abbrev pub is_cash : TenderMethod → Bool
is_cash cash = true
is_cash _ = false

abbrev pub is_paid : BillShareStatus → Bool
is_paid paid = true
is_paid outstanding = false

abbrev pub is_outstanding : BillShareStatus → Bool
is_outstanding outstanding = true
is_outstanding paid = false

abbrev pub is_queued : TicketStatus → Bool
is_queued queued = true
is_queued bumped = false

abbrev pub is_bumped : TicketStatus → Bool
is_bumped bumped = true
is_bumped queued = false

abbrev pub is_simulated : PaymentProviderKind → Bool
is_simulated simulated = true
is_simulated razorpay = false
