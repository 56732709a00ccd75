-- ===== src/Settle/Tenders.antt =====
-- What the validation of `commitFinalize` lets through (pos/bills/bill-core.ts).
use restiq_backend.Base.{
  ℕ, ◌≡◌, refl, sym, ◌∙◌, ap, subst, Bool, true, false, not, ◌&&◌, ◌||◌, Option, none, some, List,
  [], ◌∷◌, map, ltb, or_else, Bool-cases, inl, inr, arith,
}
use restiq_backend.Base.Int.{ℤ, pos, ◌+ℤ◌, ◌-ℤ◌, ◌≤ℤ◌, ltb_ℤ, eqb_ℤ, eqb_ℤ-eq, sum_ℤ, int_laws}
use restiq_backend.Tax.{TaxCountry, TaxResult}
use restiq_backend.Store.Rows.{Db, open_, finalized, is_finalized, BillStatus, Tender}
use restiq_backend.Store.Transaction.{
  Tx, Error, ok, pure, ok-eq, >>=-eq-ok, ◌>>◌, throw_if, bad_request, tender_mismatch,
}
use restiq_backend.Bills.{compute_tax_on, load_tenant_tax_profile}
use restiq_backend.Settle.{
  Env, CommitFinalizeParams, pending_intents, simulated_tenders, payments_simulator_for, tenders_of,
  sum_tenders, sum_cash, cash_country, cash_adjustment, settle_round_off, discounted_tax,
  discount_of, total_of, validate,
}

pub sum_tenders-sum :
    (acc : ℤ) (ts : List Tender)
    → sum_tenders acc ts ≡ acc +ℤ sum_ℤ (map (λ (t : Tender). t.amount_minor) ts)
unfolding sum_tenders
sum_tenders-sum acc [] = omega int_laws
sum_tenders-sum acc (t ∷ ts) = sum_tenders-sum (acc +ℤ t.amount_minor) ts ∙ omega int_laws

-- The total that the tenders of a bill cover.
abbrev pub paid_in : Db → ℕ → ℤ
paid_in db bill_id = sum_tenders (pos 0) (tenders_of db bill_id)

pub throw_if-passes :
    (c : Bool) (x : Error) (db db' : Db) (u : Unit {0})
    → throw_if c x db ≡ ok (u, db')
    → (c ≡ false) × (db ≡ db')
throw_if-passes true x db db' u e = cc
throw_if-passes false x db db' u e =
    (refl, ap (λ (p : Unit {0} × Db). p.1) (ok-eq (tt, db) (u, db') e))

-- A guard that has let a body through is off, and the rest ran on the same database.
pub guarded :
    {B : Type 0} (c : Bool) (x : Error) (m : Tx B) (db : Db) {r : B × Db}
    → (throw_if c x >> m) db ≡ ok r
    → (c ≡ false) × (m db ≡ ok r)
guarded true x m db e = cc
guarded false x m db e = (refl, e)

cash_country-reads :
    (tenant_id : ℕ) (cash : ℤ) (db db' : Db) (c : Option TaxCountry)
    → cash_country tenant_id cash db ≡ ok (c, db')
    → db' ≡ db
unfolding cash_country
cash_country-reads tenant_id cash db db' c e = ground arith

-- With the round-off that it returns the tenders cover the total.
pub settle_round_off-covers :
    (tenant_id : ℕ) (total tendered cash : ℤ) (db db' : Db) (r : Option ℤ)
    → settle_round_off tenant_id total tendered cash db ≡ ok (r, db')
    → (db' ≡ db) × (tendered ≡ total +ℤ or_else r (pos 0))
unfolding settle_round_off
settle_round_off-covers tenant_id total tendered cash db db' r e =
    elim (Bool-cases (eqb_ℤ tendered total)) [
      | inl exact ↦
          subst (λ (p : Option ℤ × Db). (p.1 ≡ db) × (tendered ≡ total +ℤ or_else p.0 (pos 0)))
            (ok-eq (none, db) (r, db') (rw (exact, settle_round_off) at e))
            (refl, eqb_ℤ-eq tendered total exact ∙ omega int_laws)
      | inr rounded ↦
          let (country, db1, read, rest) =
            >>=-eq-ok (cash_country tenant_id cash) _ db (rw (rounded, settle_round_off) at e) in
          let off = cash_adjustment country (total -ℤ (tendered -ℤ cash)) in
          let (passed, last) =
            guarded (eqb_ℤ off (pos 0) || not (eqb_ℤ tendered (total +ℤ off)))
              (bad_request tender_mismatch) (pure (some off)) db1 rest in
          subst (λ (p : Option ℤ × Db). (p.1 ≡ db) × (tendered ≡ total +ℤ or_else p.0 (pos 0)))
            (ok-eq (some off, db1) (r, db') last)
            (
              cash_country-reads tenant_id cash db db1 country read,
              eqb_ℤ-eq tendered (total +ℤ off) (ground arith),
            )
    ]

compute_tax_on-reads :
    (tenant_id : ℕ) (taxable : ℤ) (db db' : Db) (t : TaxResult)
    → compute_tax_on tenant_id taxable db ≡ ok (t, db')
    → db' ≡ db
unfolding compute_tax_on load_tenant_tax_profile
compute_tax_on-reads tenant_id taxable db db' t e = ground arith

discounted_tax-reads :
    (params : CommitFinalizeParams) (discount : ℤ) (db db' : Db) (t : Option TaxResult)
    → discounted_tax params discount db ≡ ok (t, db')
    → db' ≡ db
unfolding discounted_tax compute_tax_on load_tenant_tax_profile
discounted_tax-reads params discount db db' t e = ground arith

-- What has passed the validation: nothing is written, the bill was open, no payment of it is
-- pending, the discount is within the subtotal, and the tenders cover the total.
pub record Validated (env : Env) (params : CommitFinalizeParams) (db : Db) (tax : Option TaxResult)
    (round_off : Option ℤ) : Type 0 where
  pub was_open : params.bill.status ≡ open_
  pub none_pending : pending_intents env db params.bill.id ≡ 0
  pub real_money :
      (not (payments_simulator_for env db params.bill.tenant_id)
        && ltb 0 (simulated_tenders db params.bill.id))
      ≡ false
  pub within : discount_of params ≤ℤ params.bill.subtotal_minor
  pub covered : paid_in db params.bill.id ≡ total_of params tax +ℤ or_else round_off (pos 0)

pub validate-Validated :
    (env : Env) (params : CommitFinalizeParams) (db db' : Db) (tax : Option TaxResult)
    (round_off : Option ℤ)
    → validate env params db ≡ ok ((tax, round_off), db')
    → (db' ≡ db) × Validated env params db tax round_off
unfolding validate
validate-Validated env params db db' tax round_off e =
    let (g1, e1) = guarded (is_finalized params.bill.status) _ _ db e in
    let (g2, e2) = guarded (ltb 0 (pending_intents env db params.bill.id)) _ _ db e1 in
    let simulator = payments_simulator_for env db params.bill.tenant_id in
    let (g3, e3) =
      guarded (not simulator && ltb 0 (simulated_tenders db params.bill.id)) _ _ db e2 in
    let (g4, e4) = guarded (ltb_ℤ params.bill.subtotal_minor (discount_of params)) _ _ db e3 in
    let (tax1, db1, taxed, e5) = >>=-eq-ok (discounted_tax params (discount_of params)) _ db e4 in
    let (off1, db2, settled, e6) =
      >>=-eq-ok
        (settle_round_off params.tenant_id (total_of params tax1) (paid_in db1 params.bill.id)
          (sum_cash (pos 0) (tenders_of db1 params.bill.id)))
        _ db1 e5 in
    let same1 = discounted_tax-reads params (discount_of params) db db1 tax1 taxed in
    let (same2, covered) = settle_round_off-covers _ _ _ _ db1 db2 off1 settled in
    let paid = ap (λ (d : Db). paid_in d params.bill.id) same1 in
    subst
      (λ (p : (Option TaxResult × Option ℤ) × Db). (p.1 ≡ db) × Validated env params db p.0.0 p.0.1)
      (ok-eq ((tax1, off1), db2) ((tax, round_off), db') e6)
      (
        same2 ∙ same1,
        record {
          was_open = open_if_not params.bill.status g1;
          none_pending = ground arith;
          real_money = g3;
          within = ground arith;
          covered = sym paid ∙ covered;
        },
      )
  where
    open_if_not : (s : BillStatus) → is_finalized s ≡ false → s ≡ open_
    open_if_not open_ h = refl
    open_if_not finalized h = cc
