-- ===== src/Store/Transaction.antt =====
-- A transaction body: it reads and writes the database, or throws. Prisma's `$transaction` rolls
-- back what a body that throws has written, so an error carries no database.
use restiq_backend.Base.{◌≡◌, refl, ap, Bool, true, false, Option, none, some, List, [], ◌∷◌}
use restiq_backend.Store.Rows.{Db}

-- The `code` of an HTTP exception.
pub data Code : Type 0 where
  not_found validation_failed conflict already_finalized payment_pending simulated_tender : Code
  tender_mismatch manager_pin_required shift_not_open forbidden bill_not_finalized : Code
  nothing_to_refund combo_refund_whole over_refund bill_changed session_closed : Code
  provider_unavailable share_already_paid partial_payment_exists simulator_disabled : Code
  client_key_reused amount_exceeds_remaining intent_active no_terminal already_succeeded : Code
  already_terminal invalid_transition not_owner order_not_empty has_payments : Code
  invalid_credentials locked_out not_finalized outlet_mismatch : Code
  combo_locked line_sent line_not_sent bill_has_payments : Code
  unauthorized_session shift_already_open shift_already_closed : Code
  qr_ordering_disabled kiosk_disabled session_already_open table_has_active_order : Code
  no_open_session invalid_pin empty_cart no_price item_unavailable : Code
  modifier_selection_invalid combo_selection_invalid : Code

-- The class of the exception, with its code. `failure` is an error that no handler maps.
pub data Error : Type 0 where
  bad_request unauthorized forbidden_request missing conflicting gone too_many : Code → Error
  failure : Error

pub data Result {ℓ} (A : Type ℓ) : Type ℓ where
  ok : A → Result A
  err : Error → Result A

abbrev pub Tx : Type 0 → Type 0
Tx A = Db → Result (A × Db)

module _ {A : Type 0} where
  abbrev pub pure : A → Tx A
  pure a db = ok (a, db)

  abbrev pub throw : Error → Tx A
  throw e db = err e

  -- A read.
  abbrev pub gets : (Db → A) → Tx A
  gets f db = ok (f db, db)

  abbrev pub or_throw : Option A → Error → Tx A
  or_throw none e = throw e
  or_throw (some a) e = pure a

infixl 5 ◌>>=◌ ◌>>◌
abbrev pub ◌>>=◌ : {A B : Type 0} → Tx A → (A → Tx B) → Tx B
◌>>=◌ m f db = elim (m db) [ err e ↦ err e | ok (a, db') ↦ f a db' ]

abbrev pub ◌>>◌ : {A B : Type 0} → Tx A → Tx B → Tx B
m >> k = m >>= λ _. k

abbrev pub throw_if : Bool → Error → Tx (Unit {0})
throw_if true e = throw e
throw_if false e = pure tt

-- A write.
abbrev pub modify : (Db → Db) → Tx (Unit {0})
modify f db = ok (tt, f db)

-- What a body that returns has gone through.
pub >>=-eq-ok :
    {A B : Type 0} (m : Tx A) (f : A → Tx B) (db : Db) {r : B × Db}
    → (m >>= f) db ≡ ok r
    → (a : A) × (db' : Db) × (m db ≡ ok (a, db')) × (f a db' ≡ ok r)
>>=-eq-ok {A} {B} m f db {r} h = go (m db) refl h
  where
    next : Result (A × Db) → Result (B × Db)
    next x = elim x [ err e ↦ err e | ok (a, db') ↦ f a db' ]

    go :
        (x : Result (A × Db))
        → m db ≡ x
        → next x ≡ ok r
        → (a : A) × (db' : Db) × (m db ≡ ok (a, db')) × (f a db' ≡ ok r)
    go (ok (a, db')) e h = (a, db', e, h)
    go (err x) e h = cc

-- What follows a body that returns.
pub >>=-at :
    {A B : Type 0} (m : Tx A) (f : A → Tx B) (db db' : Db) (a : A)
    → m db ≡ ok (a, db')
    → (m >>= f) db ≡ f a db'
>>=-at {A} {B} m f db db' a h = ap next h
  where
    next : Result (A × Db) → Result (B × Db)
    next x = elim x [ err e ↦ err e | ok (a, db') ↦ f a db' ]

-- What a run has returned, or else `a` on `db`.
abbrev pub returned : {A : Type 0} → A → Db → Result (A × Db) → A × Db
returned a db (ok r) = r
returned a db (err e) = (a, db)

value_or {ℓ} : {A : Type ℓ} → A → Result A → A
value_or d (ok a) = a
value_or d (err e) = d

pub ok-eq {ℓ} : {A : Type ℓ} (a b : A) → ok a ≡ ok b → a ≡ b
unfolding value_or
ok-eq a b h = ap (value_or a) h

-- What a request leaves of the database: one that throws is rolled back.
abbrev pub kept : {A : Type 0} → Db → Result (A × Db) → Db
kept db (ok (a, db')) = db'
kept db (err e) = db

-- Requests, one after another, in the order in which their transactions commit.
unfoldable pub serve_all : {R A : Type 0} → (R → Tx A) → Db → List R → Db
serve_all handle db [] = db
serve_all handle db (r ∷ rs) = serve_all handle (kept db (handle r db)) rs

-- What every request that returns keeps, they all keep, those that throw among them.
pub serve_all-keeps :
    {R A : Type 0} (handle : R → Tx A) (P : Db → Type 0)
    → ((r : R) (db db' : Db) (a : A) → P db → handle r db ≡ ok (a, db') → P db')
    → (rs : List R) (db : Db) → P db
    → P (serve_all handle db rs)
unfolding serve_all
serve_all-keeps handle P keep [] db h = h
serve_all-keeps {R} {A} handle P keep (r ∷ rs) db h =
    serve_all-keeps handle P keep rs (kept db (handle r db)) (go (handle r db) refl)
  where
    go : (x : Result (A × Db)) → handle r db ≡ x → P (kept db x)
    go (ok (a, db')) e = keep r db db' a h e
    go (err x) e = h
