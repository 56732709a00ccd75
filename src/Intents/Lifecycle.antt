-- ===== src/Intents/Lifecycle.antt =====
-- The states of a payment intent (pos/payments/intent-core.ts and intents.service.ts), against the
-- lifecycle that prisma/schema.prisma's PaymentIntentStatus names.
use restiq_backend.Base.{
  find-append, ℕ, ◌≡◌, refl, sym, ◌∙◌, ap, subst, Bool, true, false, some, List, [], ◌∷◌, ◌++◌,
  ◌==◌, if◌then◌else◌, find, find-update_other, Bool-cases, inl, inr,
}
use restiq_backend.Store.Rows.{
  Db, PaymentIntent, PaymentIntentStatus, created, pending, succeeded, failed, expired, cancelled,
}
use restiq_backend.Store.Transaction.{
  Tx, ok, Error, ok-eq, >>=-eq-ok, pure, throw, gets, ◌>>=◌, ◌>>◌, throw_if, modify,
}
use restiq_backend.Settle.{is_active_status}
use restiq_backend.Settle.Tenders.{throw_if-passes}
use restiq_backend.Intents.{update_intents, is_confirmable}
use restiq_backend.Intents.Confirm.{intent_in}

infix 40 ◌⟶◌ ◌⟶*◌
-- One step of an intent's life. A capture that arrives after the expiry still counts.
pub data ◌⟶◌ : PaymentIntentStatus → PaymentIntentStatus → Type 0 where
  captured : created ⟶ succeeded
  captured_pending : pending ⟶ succeeded
  captured_late : expired ⟶ succeeded
  refused : created ⟶ failed
  refused_pending : pending ⟶ failed
  lapsed : created ⟶ expired
  lapsed_pending : pending ⟶ expired
  withdrawn : created ⟶ cancelled
  withdrawn_pending : pending ⟶ cancelled

pub data ◌⟶*◌ : PaymentIntentStatus → PaymentIntentStatus → Type 0 where
  here : {s : PaymentIntentStatus} → s ⟶* s
  next : {s t u : PaymentIntentStatus} → s ⟶ t → t ⟶* u → s ⟶* u

pub trans : {s t u : PaymentIntentStatus} → s ⟶* t → t ⟶* u → s ⟶* u
trans here r = r
trans (next e q) r = next e (trans q r)

-- No step leaves these.
abbrev pub is_terminal : PaymentIntentStatus → Bool
is_terminal succeeded = true
is_terminal failed = true
is_terminal cancelled = true
is_terminal _ = false

terminal_step : {s t : PaymentIntentStatus} → s ⟶ t → is_terminal s ≡ false
terminal_step captured = refl
terminal_step captured_pending = refl
terminal_step captured_late = refl
terminal_step refused = refl
terminal_step refused_pending = refl
terminal_step lapsed = refl
terminal_step lapsed_pending = refl
terminal_step withdrawn = refl
terminal_step withdrawn_pending = refl

pub terminal_ends : {s t : PaymentIntentStatus} → s ⟶* t → is_terminal s ≡ true → t ≡ s
terminal_ends here h = refl
terminal_ends (next e r) h = let off = terminal_step e in cc

pub capturable : (s : PaymentIntentStatus) → is_confirmable s ≡ true → s ⟶* succeeded
capturable created h = next captured here
capturable pending h = next captured_pending here
capturable expired h = next captured_late here
capturable succeeded h = cc
capturable failed h = cc
capturable cancelled h = cc

pub declinable : (s : PaymentIntentStatus) → is_active_status s ≡ true → s ⟶* failed
declinable created h = next refused here
declinable pending h = next refused_pending here
declinable expired h = cc
declinable succeeded h = cc
declinable failed h = cc
declinable cancelled h = cc

pub expirable : (s : PaymentIntentStatus) → is_active_status s ≡ true → s ⟶* expired
expirable created h = next lapsed here
expirable pending h = next lapsed_pending here
expirable expired h = cc
expirable succeeded h = cc
expirable failed h = cc
expirable cancelled h = cc

pub cancellable : (s : PaymentIntentStatus) → is_active_status s ≡ true → s ⟶* cancelled
cancellable created h = next withdrawn here
cancellable pending h = next withdrawn_pending here
cancellable expired h = cc
cancellable succeeded h = cc
cancellable failed h = cc
cancellable cancelled h = cc

-- A later row of the same intent: the same money on the same bill, further along its life.
pub record Follows (i i' : PaymentIntent) : Type 0 where
  pub same_id : i'.id ≡ i.id
  pub same_bill : i'.bill_id ≡ i.bill_id
  pub same_amount : i'.amount_minor ≡ i.amount_minor
  pub moved : i.status ⟶* i'.status

pub Follows-refl : (i : PaymentIntent) → Follows i i
Follows-refl i = record { same_id = refl; same_bill = refl; same_amount = refl; moved = here }

pub Follows-trans : (i j k : PaymentIntent) → Follows i j → Follows j k → Follows i k
Follows-trans i j k f g = record {
  same_id = g.same_id ∙ f.same_id;
  same_bill = g.same_bill ∙ f.same_bill;
  same_amount = g.same_amount ∙ f.same_amount;
  moved = trans f.moved g.moved;
}

-- Every stored intent is still stored, and its row follows the earlier one.
abbrev pub Moves : Db → Db → Type 0
Moves db db' =
    (k : ℕ) (i : PaymentIntent)
    → intent_in k db ≡ some i
    → (i' : PaymentIntent) × (intent_in k db' ≡ some i') × Follows i i'

pub Moves-refl : (db : Db) → Moves db db
Moves-refl db k i h = (i, h, Follows-refl i)

pub Moves-trans : (db db1 db2 : Db) → Moves db db1 → Moves db1 db2 → Moves db db2
Moves-trans db db1 db2 m n k i h =
    let (i1, h1, f1) = m k i h in
    let (i2, h2, f2) = n k i1 h1 in (i2, h2, Follows-trans i i1 i2 f1 f2)

pub Moves-same : (db db' : Db) → db'.payment_intents ≡ db.payment_intents → Moves db db'
Moves-same db db' same k i h = (
  i,
  ap (λ (ps : List PaymentIntent). find (λ (x : PaymentIntent). x.id == k) ps) same ∙ h,
  Follows-refl i,
)

pub Moves-insert :
    (db db' : Db) (row : PaymentIntent)
    → db'.payment_intents ≡ db.payment_intents ++ row ∷ []
    → Moves db db'
Moves-insert db db' row added k i h = (
  i,
  ap (λ (ps : List PaymentIntent). find (λ (x : PaymentIntent). x.id == k) ps) added
      ∙ find-append (λ (x : PaymentIntent). x.id == k) db.payment_intents row i h,
  Follows-refl i,
)

-- An update that moves each row it hits.
pub update_intents-Moves :
    (p : PaymentIntent → Bool) (f : PaymentIntent → PaymentIntent) (db : Db)
    → ((x : PaymentIntent) → (f x).id ≡ x.id)
    → ((x : PaymentIntent) → p x ≡ true → Follows x (f x))
    → Moves db (update_intents p f db)
unfolding update_intents
update_intents-Moves p f db keep move k i h =
    let hit =
      find-update_other (λ (x : PaymentIntent). x.id == k) p f db.payment_intents i
        (λ x. ap (λ (n : ℕ). n == k) (keep x)) h in
    elim (Bool-cases (p i)) [
      | inl on ↦ (f i, rw on at hit, move i on)
      | inr off ↦ (i, rw off at hit, Follows-refl i)
    ]

-- A transaction that moves the stored intents, whenever it returns.
abbrev pub Moving : {A : Type 0} → Tx A → Type 0
Moving {A} m = (a : A) (db db' : Db) → m db ≡ ok (a, db') → Moves db db'

module _ {A : Type 0} where
  -- A transaction that writes nothing.
  abbrev pub Reading : Tx A → Type 0
  Reading m = (a : A) (db db' : Db) → m db ≡ ok (a, db') → db' ≡ db

  pub Reading-Moving : (m : Tx A) → Reading m → Moving m
  Reading-Moving m h a db db' e =
      Moves-same db db' (ap (λ (d : Db). d.payment_intents) (h a db db' e))

  pub pure-Moving : (x : A) → Moving (pure x)
  pure-Moving x a db db' e =
      Moves-same db db' (ap (λ (r : A × Db). r.1.payment_intents) (sym (ok-eq (x, db) (a, db') e)))

  pub throw-Moving : (x : Error) → Moving (throw {A = A} x)
  throw-Moving x a db db' e = cc

  pub gets-Moving : (f : Db → A) → Moving (gets f)
  gets-Moving f a db db' e =
      Moves-same db db'
        (ap (λ (r : A × Db). r.1.payment_intents) (sym (ok-eq (f db, db) (a, db') e)))

  pub if-Moving : (b : Bool) (m n : Tx A) → Moving m → Moving n → Moving (if b then m else n)
  if-Moving true m n h k = h
  if-Moving false m n h k = k

pub >>=-Moving :
    {A B : Type 0} (m : Tx A) (f : A → Tx B)
    → Moving m
    → ((a : A) → Moving (f a))
    → Moving (m >>= f)
>>=-Moving m f h k b db db' e =
    let (a, db1, first, rest) = >>=-eq-ok m f db e in
    Moves-trans db db1 db' (h a db db1 first) (k a b db1 db' rest)

pub throw_if-Moving : (c : Bool) (x : Error) → Moving (throw_if c x)
throw_if-Moving c x a db db' e =
    Moves-same db db' (ap (λ (d : Db). d.payment_intents) (sym (throw_if-passes c x db db' a e).1))

pub modify-Moving : (f : Db → Db) → ((db : Db) → Moves db (f db)) → Moving (modify f)
modify-Moving f h a db db' e =
    subst (λ (r : Unit {0} × Db). Moves db r.1) (ok-eq (tt, f db) (a, db') e) (h db)

-- What a body that starts with a read, or with a guard, asks of the rest.
pub read-Moving :
    {A B : Type 0} (f : Db → A) (k : A → Tx B) → ((a : A) → Moving (k a)) → Moving (gets f >>= k)
read-Moving f k h = >>=-Moving (gets f) k (gets-Moving f) h

pub guard-Moving :
    {B : Type 0} (c : Bool) (x : Error) (m : Tx B) → Moving m → Moving (throw_if c x >> m)
guard-Moving c x m h = >>=-Moving (throw_if c x) (λ _. m) (throw_if-Moving c x) (λ _. h)

pub write-Moving :
    {B : Type 0} (f : Db → Db) (m : Tx B)
    → ((db : Db) → Moves db (f db))
    → Moving m
    → Moving (modify f >> m)
write-Moving f m h k = >>=-Moving (modify f) (λ _. m) (modify-Moving f h) (λ _. k)
