-- ===== src/Orders/Tokens.antt =====
-- Token numbers (platform/token-number.ts).
use restiq_backend.Base.{
  ℕ, ◌<◌, ◌≡◌, none, some, List, [], ◌∷◌, ◌==◌, if◌then◌else◌, or_else, find, All, arith,
}
use restiq_backend.Store.Rows.{Db, Order, TokenNumberCounter}
use restiq_backend.Store.Transaction.{ok}
use restiq_backend.Orders.{highest_token, reserve_token_number}

-- The token of an order at the outlet, 0 where it has none or is elsewhere, is below `n`.
abbrev pub TokenBelow : ℕ → ℕ → Order → Type 0
TokenBelow outlet_id n o = (if o.outlet_id == outlet_id then or_else o.token_number 0 else 0) < n

highest_token-bounds :
    (outlet_id n : ℕ) (os : List Order)
    → highest_token outlet_id os < n
    → All (TokenBelow outlet_id n) os
unfolding highest_token
highest_token-bounds outlet_id n [] h = tt
highest_token-bounds outlet_id n (o ∷ os) h =
    (ground arith, highest_token-bounds outlet_id n os (ground arith))

-- The last token that an outlet's counter has given out, 0 where it has no counter.
abbrev pub last_token : ℕ → Db → ℕ
last_token outlet_id db =
    elim (find (λ (c : TokenNumberCounter). c.outlet_id == outlet_id) db.token_number_counters) [
      | none ↦ 0
      | some c ↦ c.last_number
    ]

-- A reserved token number is above every token in use at the outlet and above the last one that its counter has given out, and no order changes.
pub reserve_token_number_fresh :
    (outlet_id n : ℕ) (db db' : Db)
    → reserve_token_number outlet_id db ≡ ok (n, db')
    → All (TokenBelow outlet_id n) db.orders
      × (last_token outlet_id db < n)
      × (db'.orders ≡ db.orders)
unfolding reserve_token_number
reserve_token_number_fresh outlet_id n db db' e =
    (highest_token-bounds outlet_id n db.orders (ground arith), ground arith, ground arith)
