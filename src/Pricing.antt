-- ===== src/Pricing.antt =====
-- Price resolution, admin/menu/pricing.ts. Ids and times are numbers. The price table is the list
-- of its rows.
pub mod Choice
mod Tests
use restiq_backend.Base.{
  ℕ, ◌+◌, Bool, true, false, not, ◌&&◌, ◌||◌, Option, none, some, List, [], ◌∷◌, String, ltb, leb,
  ◌==◌, eq_option, if◌then◌else◌, is_some, select, find, or_else,
}
use restiq_backend.Base.Int.{ℤ, pos, negsuc, ltb_ℤ, eqb_ℤ}

pub data PriceChannel : Type 0 where
  dine_in takeaway delivery qr aggregator : PriceChannel

abbrev pub eq_channel : PriceChannel → PriceChannel → Bool
eq_channel dine_in dine_in = true
eq_channel takeaway takeaway = true
eq_channel delivery delivery = true
eq_channel qr qr = true
eq_channel aggregator aggregator = true
eq_channel _ _ = false

pub record PriceCandidate : Type 0 where
  pub id : ℕ
  pub outlet_id : Option ℕ
  pub channel : Option PriceChannel
  pub price_minor : ℤ
  pub currency : String
  pub effective_at : ℕ
  pub created_at : ℕ

pub record PriceTarget : Type 0 where
  pub channel : PriceChannel
  pub outlet_id : Option ℕ

-- The variables of the loop, `best` and `bestScore`.
pub record Best : Type 0 where
  pub best : Option PriceCandidate
  pub score : ℤ

-- The three `continue` lines let a row through.
unfoldable pub eligible : PriceTarget → ℕ → PriceCandidate → Bool
eligible target as_of row =
    not (ltb as_of row.effective_at)
    && (not (is_some row.outlet_id) || eq_option row.outlet_id target.outlet_id)
    && elim row.channel [ none ↦ true | some c ↦ eq_channel c target.channel ]

unfoldable pub row_score : PriceCandidate → ℕ
row_score row = (if is_some row.outlet_id then 2 else 0) + (if is_some row.channel then 1 else 0)

-- The condition on which a row replaces the best one.
unfoldable pub replaces : PriceCandidate → Best → Bool
replaces row s =
    ltb_ℤ s.score (pos (row_score row))
    || (eqb_ℤ (pos (row_score row)) s.score && elim s.best [
      | none ↦ false
      | some b ↦
          ltb b.effective_at row.effective_at
          || (row.effective_at == b.effective_at && ltb b.created_at row.created_at)
    ])

-- One round of the loop.
unfoldable pub consider : PriceTarget → ℕ → PriceCandidate → Best → Best
unfolding eligible replaces row_score
consider target as_of row s =
    if eligible target as_of row
    then (if replaces row s then record { best = some row; score = pos (row_score row) } else s)
    else s

unfoldable pub consider_all : PriceTarget → ℕ → List PriceCandidate → Best → Best
unfolding consider
consider_all target as_of [] s = s
consider_all target as_of (row ∷ rows) s =
    consider_all target as_of rows (consider target as_of row s)

abbrev pub no_best : Best
no_best = record { best = none; score = negsuc 0 }

unfoldable pub pick_current_price : List PriceCandidate → PriceTarget → ℕ → Option PriceCandidate
pick_current_price candidates target as_of = (consider_all target as_of candidates no_best).best

-- A row of `item_prices`.
pub record ItemPrice : Type 0 where
  pub tenant_id : ℕ
  pub item_id : ℕ
  pub variant_id : Option ℕ
  pub price : PriceCandidate

pub record PriceQuery : Type 0 where
  pub tenant_id : ℕ
  pub item_id : ℕ
  pub variant_id : Option ℕ
  pub channel : PriceChannel
  pub outlet_id : Option ℕ
  pub as_of : Option ℕ

abbrev pub matches_query : PriceQuery → ℕ → ItemPrice → Bool
matches_query q as_of row =
    row.tenant_id == q.tenant_id
    && row.item_id == q.item_id
    && eq_option row.variant_id q.variant_id
    && leb row.price.effective_at as_of

abbrev candidates_of : List ItemPrice → List PriceCandidate
candidates_of [] = []
candidates_of (row ∷ rows) = row.price ∷ candidates_of rows

-- `now` is the clock's time, for a query with no time of its own.
unfoldable pub resolve_current_price : List ItemPrice → PriceQuery → ℕ → Option PriceCandidate
resolve_current_price table q now =
    let as_of = or_else q.as_of now in
    pick_current_price (candidates_of (select (matches_query q as_of) table))
      (record { channel = q.channel; outlet_id = q.outlet_id }) as_of

-- A row of `item_outlet_overrides`.
pub record ItemOutletOverride : Type 0 where
  pub item_id : ℕ
  pub outlet_id : ℕ
  pub available : Bool

-- `assertItemAvailable` returns: `false` stands for its refusal `item_unavailable`.
unfoldable pub item_available : List ItemOutletOverride → ℕ → ℕ → Bool → Bool
item_available overrides outlet_id item_id available =
    if not available
    then false
    else elim (find (λ o. o.item_id == item_id && o.outlet_id == outlet_id) overrides) [
      | none ↦ true
      | some o ↦ o.available
    ]
