-- ===== src/Intents/Serving.antt =====
-- The till's and the terminal's requests on payment intents, one after another, each in a
-- transaction that is rolled back when it throws (pos/payments/intents.service.ts).
use restiq_backend.Base.{ℕ, ◌≡◌, true, Option, some, List, [], ◌∷◌}
use restiq_backend.Store.Rows.{Db, PaymentIntent, FailureReason}
use restiq_backend.Store.Transaction.{Tx, pure, ◌>>=◌, serve_all, serve_all-keeps}
use restiq_backend.Settle.{Env}
use restiq_backend.Intents.{
  Staff, CreateIntent, SimulatedOutcome, confirm_intent, fail_intent, create_intent, get_intent,
  cancel_intent, list_pending_for_outlet, simulate,
}
use restiq_backend.Intents.Confirm.{intent_in}
use restiq_backend.Intents.Lifecycle.{
  is_terminal, terminal_ends, Moves, Moves-refl, Moves-trans, Moving, pure-Moving, >>=-Moving,
}
use restiq_backend.Intents.Moving.{
  confirm_intent-Moving, fail_intent-Moving, create_intent-Moving, get_intent-Moving,
  cancel_intent-Moving, list_pending_for_outlet-Moving, simulate-Moving,
}

-- A request of the till or the terminal, or a provider's answer.
pub data Request : Type 0 where
  create_one : ℕ → CreateIntent → Request
  get_one cancel_one confirm_one : ℕ → Request
  fail_one : ℕ → FailureReason → Request
  list_pending : ℕ → Option ℕ → Request
  simulate_one : ℕ → SimulatedOutcome → Request

-- The intents that a request answers with.
pub handle : Env → Staff → Request → Tx (List PaymentIntent)
handle env staff (create_one b dto) = create_intent env staff b dto >>= λ r. pure (r.0 ∷ [])
handle env staff (get_one k) = get_intent env staff k >>= λ i. pure (i ∷ [])
handle env staff (cancel_one k) = cancel_intent env staff k >>= λ i. pure (i ∷ [])
handle env staff (confirm_one k) = confirm_intent env staff.tenant_id k >>= λ i. pure (i ∷ [])
handle env staff (fail_one k why) = fail_intent k why >>= λ i. pure (i ∷ [])
handle env staff (list_pending outlet_id device_id) =
    list_pending_for_outlet env staff outlet_id device_id
handle env staff (simulate_one k outcome) = simulate env staff k outcome >>= λ i. pure (i ∷ [])

-- A request comes with its clock and its staff.
abbrev pub handle_one : Env × Staff × Request → Tx (List PaymentIntent)
handle_one (env, staff, r) = handle env staff r

-- The requests in the order in which their transactions commit.
abbrev pub serve : Db → List (Env × Staff × Request) → Db
serve db rs = serve_all handle_one db rs

one-Moving : (m : Tx PaymentIntent) → Moving m → Moving (m >>= λ i. pure (i ∷ []))
one-Moving m h = >>=-Moving m (λ i. pure (i ∷ [])) h (λ i. pure-Moving (i ∷ []))

handle-Moving : (env : Env) (staff : Staff) (r : Request) → Moving (handle env staff r)
unfolding handle
handle-Moving env staff (create_one b dto) =
    >>=-Moving (create_intent env staff b dto) (λ r. pure (r.0 ∷ []))
      (create_intent-Moving env staff b dto) (λ r. pure-Moving (r.0 ∷ []))
handle-Moving env staff (get_one k) =
    one-Moving (get_intent env staff k) (get_intent-Moving env staff k)
handle-Moving env staff (cancel_one k) =
    one-Moving (cancel_intent env staff k) (cancel_intent-Moving env staff k)
handle-Moving env staff (confirm_one k) =
    one-Moving (confirm_intent env staff.tenant_id k) (confirm_intent-Moving env staff.tenant_id k)
handle-Moving env staff (fail_one k why) = one-Moving (fail_intent k why) (fail_intent-Moving k why)
handle-Moving env staff (list_pending outlet_id device_id) =
    list_pending_for_outlet-Moving env staff outlet_id device_id
handle-Moving env staff (simulate_one k outcome) =
    one-Moving (simulate env staff k outcome) (simulate-Moving env staff k outcome)

-- Whatever requests of the till, the terminal and the provider are served, in whatever order and at whatever times, and whether each of them returns or throws, every stored payment intent is still stored, with its bill and its amount, and its status has only moved along the lifecycle.
pub serve-Moves : (rs : List (Env × Staff × Request)) (db : Db) → Moves db (serve db rs)
serve-Moves rs db =
    serve_all-keeps handle_one (Moves db)
      (λ r d d' a m e. Moves-trans db d d' m (handle-Moving r.0 r.1 r.2 a d d' e)) rs db
      (Moves-refl db)

-- A payment intent that has succeeded, failed or been cancelled keeps that status through any later requests, with its amount.
pub serve-terminal :
    (rs : List (Env × Staff × Request)) (db : Db) (k : ℕ) (i : PaymentIntent)
    → intent_in k db ≡ some i
    → is_terminal i.status ≡ true
    → (i' : PaymentIntent) × (intent_in k (serve db rs) ≡ some i')
      × (i'.status ≡ i.status)
      × (i'.amount_minor ≡ i.amount_minor)
serve-terminal rs db k i stored over =
    let (i', stored', f) = serve-Moves rs db k i stored in
    (i', stored', terminal_ends f.moved over, f.same_amount)
