-- ===== src/Store/Samples.antt =====
-- A small database that the tests run on: one Indian tenant in Test mode, an outlet with two
-- stations, and an order of two lines.
use restiq_backend.Base.{none, some, [], ◌∷◌, true, false}
use restiq_backend.Base.Int.{pos}
use restiq_backend.Pricing.{ItemPrice}
use restiq_backend.Tax.{in_, exact_total}
use restiq_backend.Store.Rows.{
  Db, Tenant, provisioning, TaxRegistration, Order, opened, OrderLine, Bill, open_, Tender, cash,
  Shift, ModifierGroup, Combo, pos_order, qr_ordering, PaymentIntent, pending, card_terminal,
  simulated, Station, Ticket, queued, StaffUser, Device, terminal,
}

abbrev pub tenant : Tenant
tenant = record {
  id = 1;
  country = in_;
  status = provisioning;
  live_since = none;
  deleted_at = none;
}

abbrev pub registration : TaxRegistration
registration = record {
  tenant_id = 1;
  tax_profile = [];
  composition_scheme = false;
  gst_registered = true;
  gst_rate_percent = some 5;
  gst_split_rounding = exact_total;
}

abbrev pub order : Order
order = record {
  id = 10;
  tenant_id = 1;
  outlet_id = 2;
  table_id = none;
  owner_id = some 7;
  status = opened;
  source = pos_order;
  token_number = some 4;
  session_id = none;
  created_at = 0;
}

abbrev pub line : OrderLine
line = record {
  id = 20;
  tenant_id = 1;
  order_id = 10;
  item_id = some 30;
  variant_id = none;
  combo_id = none;
  parent_line_id = none;
  quantity = 2;
  unit_price_minor = pos 100;
  modifier_prices = pos 10 ∷ [];
  seat_number = none;
  guest_id = none;
  guest_name = none;
  voided_at = none;
}

abbrev pub second_line : OrderLine
second_line = record line { id = 21; item_id = some 31; quantity = 1; unit_price_minor = pos 80 }

-- Its totals are those of the two lines: 310, and 5% on top.
abbrev pub bill : Bill
bill = record {
  id = 40;
  tenant_id = 1;
  outlet_id = 2;
  order_id = 10;
  bill_number = none;
  subtotal_minor = pos 310;
  tax_minor = pos 16;
  tax_breakdown = none;
  prices_include_tax = false;
  discount_minor = none;
  discount_reason = none;
  round_off_minor = none;
  status = open_;
  created_by_staff_id = none;
  finalized_by_staff_id = none;
  finalized_at = none;
}

-- Cash, rounded to whole rupees.
abbrev pub cash_tender : Tender
cash_tender = record {
  id = 50;
  tenant_id = 1;
  bill_id = 40;
  method = cash;
  amount_minor = pos 300;
  payment_intent_id = none;
  risk_acknowledged = false;
  reference = none;
  tendered_minor = none;
}

abbrev pub intent : PaymentIntent
intent = record {
  id = 60;
  tenant_id = 1;
  outlet_id = 2;
  bill_id = 40;
  rail = card_terminal;
  provider = simulated;
  amount_minor = pos 326;
  status = pending;
  client_key = "key";
  failure_reason = none;
  expires_at = 1000;
  succeeded_at = none;
  created_by_staff_id = none;
  target_device_id = none;
}

abbrev pub station : Station
station = record { id = 70; tenant_id = 1; outlet_id = 2; name = "Grill"; deleted_at = none }

abbrev pub ticket : Ticket
ticket = record {
  id = 80;
  tenant_id = 1;
  outlet_id = 2;
  order_id = 11;
  station_id = some 70;
  status = queued;
  recall_count = 0;
  fired_at = 5;
  bumped_at = none;
  recalled_at = none;
}

abbrev pub manager : StaffUser
manager = record {
  id = 8;
  tenant_id = 1;
  name = "Mira";
  role_name = "Manager";
  is_manager = true;
  pin_hash = some 99;
  pin_revoked_at = none;
  outlet_ids = [];
}

abbrev pub card_machine : Device
card_machine = record {
  id = 90;
  tenant_id = 1;
  outlet_id = 2;
  kind = terminal;
  in_service = true;
  paired_pos_id = none;
}

abbrev pub shift : Shift
shift = record {
  id = 11;
  tenant_id = 1;
  outlet_id = 2;
  opened_by_staff_id = 8;
  float_minor = pos 500;
  opened_at = 0;
  closed_by_staff_id = none;
  closed_at = none;
  counted_minor = none;
  expected_minor = none;
  over_short_minor = none;
}

-- At most one topping.
abbrev pub toppings : ModifierGroup
toppings = record {
  min_selections = 0;
  max_selections = 1;
  modifiers =
      record { id = 32; price_minor = pos 10 } ∷ record { id = 33; price_minor = pos 15 } ∷ [];
}

abbrev pub dish_price : ItemPrice
dish_price = record {
  tenant_id = 1;
  item_id = 30;
  variant_id = none;
  price = record {
    id = 34;
    outlet_id = none;
    channel = none;
    price_minor = pos 100;
    currency = "INR";
    effective_at = 0;
    created_at = 0;
  };
}

-- Two of the dish at the price of the meal.
abbrev pub meal : Combo
meal = record {
  id = 35;
  tenant_id = 1;
  price_minor = pos 150;
  available = true;
  archived_at = none;
  slots =
      record {
        id = 36;
        pick_count = 2;
        options = record { id = 37; item_id = 30; variant_id = none; upcharge_minor = pos 5 } ∷ [];
      }
      ∷ [];
}

abbrev pub sample : Db
sample = record {
  tenants = tenant ∷ [];
  tax_registrations = registration ∷ [];
  orders = order ∷ [];
  order_lines = line ∷ second_line ∷ [];
  bills = bill ∷ [];
  tenders = [];
  payment_intents = [];
  bill_shares = [];
  bill_number_counters = record { outlet_id = 2; last_number = 6 } ∷ [];
  credit_notes = [];
  items =
      record {
        id = 30;
        tenant_id = 1;
        station_id = some 70;
        available = true;
        archived_at = none;
        variant_ids = [];
        modifier_groups = toppings ∷ [];
      }
      ∷ [];
  item_prices = dish_price ∷ [];
  item_outlet_overrides = [];
  combos = meal ∷ [];
  stations = station ∷ [];
  tickets = ticket ∷ [];
  ticket_lines = [];
  ticket_events = [];
  table_sessions = [];
  guests = [];
  cart_lines = [];
  outlet_capabilities = record { outlet_id = 2; key = qr_ordering; enabled = true } ∷ [];
  devices = card_machine ∷ [];
  outlets = record { id = 2; tenant_id = 1; deleted_at = none } ∷ [];
  dining_tables = record { id = 5; tenant_id = 1; outlet_id = 2 } ∷ [];
  token_number_counters = record { outlet_id = 2; last_number = 3 } ∷ [];
  shifts = shift ∷ [];
  cash_movements = [];
  staff_users = manager ∷ [];
  audit_events = [];
  next_id = 100;
}
