-- ===== src/Shifts/Refunds.antt =====
-- What the credit notes took out of the drawer (`computeCashRefundsMinor` of
-- pos/shifts/shifts.service.ts).
use restiq_backend.Base.{
  ℕ, ◌≡◌, refl, ◌∙◌, ap, Bool, true, false, Option, none, List, [], ◌∷◌, leb, ==_refl,
  if◌then◌else◌, or_else, All, Bool-cases, inl, inr, arith, ◌⊎◌,
}
use restiq_backend.Base.Int.{ℤ, pos, ◌+ℤ◌, ◌-ℤ◌, ◌≤ℤ◌, ltb_ℤ, int_laws}
use restiq_backend.Store.Rows.{Db, CreditNote, TenderMethod}
use restiq_backend.Shifts.{cash_of_bill, note_total, note_cash, set_left, walk_refunds}

abbrev pub smaller : ℤ → ℤ → ℤ
smaller a b = if ltb_ℤ a b then a else b

-- What the notes gave back, in whatever way.
pub totals : Db → List CreditNote → ℤ
totals db [] = pos 0
totals db (n ∷ ns) = note_total db n +ℤ totals db ns

-- A note of the bill, from before the method was recorded, in the shift.
abbrev pub Legacy : Db → ℕ → ℕ → CreditNote → Type 0
Legacy db since bill_id n =
    (n.method ≡ none)
    × (n.original_bill_id ≡ bill_id)
    × (pos 0 ≤ℤ note_total db n)
    × (leb since n.created_at ≡ true)

totals-nonneg :
    (db : Db) (since bill_id : ℕ) (ns : List CreditNote)
    → All (Legacy db since bill_id) ns
    → pos 0 ≤ℤ totals db ns
unfolding totals
totals-nonneg db since bill_id [] h = omega arith
totals-nonneg db since bill_id (n ∷ ns) ((m, b, t, c), h) =
    omega (int_laws, totals-nonneg db since bill_id ns h)

-- The two numbers are equal.
abbrev Same : ℤ → ℤ → Type 0
Same a b = (a ≤ℤ b) × (b ≤ℤ a)

smaller-cases : (a b : ℤ) → Same (smaller a b) a × (a ≤ℤ b) ⊎ Same (smaller a b) b × (b ≤ℤ a)
smaller-cases a b = ground arith

not_less : (a b : ℤ) → ltb_ℤ a b ≡ false → b ≤ℤ a
not_less a b h = ground arith

left_after_lem :
    (taken left : ℤ)
    → taken ≤ℤ left
    → (if ltb_ℤ taken left then left -ℤ taken else pos 0) ≡ left -ℤ taken
left_after_lem taken left h = elim (Bool-cases (ltb_ℤ taken left)) [
  | inl some_left ↦ rw some_left
  | inr none_left ↦ let all_taken = not_less taken left none_left in rw none_left (omega int_laws)
]

round_lem :
    (refunded total rest left : ℤ)
    → pos 0 ≤ℤ rest
    → refunded +ℤ smaller total left +ℤ smaller rest (left -ℤ smaller total left)
      ≡ refunded +ℤ smaller (total +ℤ rest) left
round_lem refunded total rest left r =
    let t = smaller total left in
    elim (smaller-cases total left) [
      | inl ((t1, t2), t3) ↦ elim (smaller-cases rest (left -ℤ t)) [
        | inl ((m1, m2), m3) ↦ elim (smaller-cases (total +ℤ rest) left) [
          | inl ((n1, n2), n3) ↦ omega int_laws
          | inr ((n1, n2), n3) ↦ omega int_laws
        ]
        | inr ((m1, m2), m3) ↦ elim (smaller-cases (total +ℤ rest) left) [
          | inl ((n1, n2), n3) ↦ omega int_laws
          | inr ((n1, n2), n3) ↦ omega int_laws
        ]
      ]
      | inr ((t1, t2), t3) ↦ elim (smaller-cases rest (left -ℤ t)) [
        | inl ((m1, m2), m3) ↦ elim (smaller-cases (total +ℤ rest) left) [
          | inl ((n1, n2), n3) ↦ omega int_laws
          | inr ((n1, n2), n3) ↦ omega int_laws
        ]
        | inr ((m1, m2), m3) ↦ elim (smaller-cases (total +ℤ rest) left) [
          | inl ((n1, n2), n3) ↦ omega int_laws
          | inr ((n1, n2), n3) ↦ omega int_laws
        ]
      ]
    ]

smaller-within : (a b : ℤ) → smaller a b ≤ℤ b
smaller-within a b = ground arith

nothing_left : (refunded left : ℤ) → pos 0 ≤ℤ left → refunded ≡ refunded +ℤ smaller (pos 0) left
nothing_left refunded left l = elim (smaller-cases (pos 0) left) [
  | inl ((a, b), c) ↦ omega int_laws
  | inr ((a, b), c) ↦ omega int_laws
]

-- The rest of the loop, after a note with this bill, method, total and cash left.
abbrev after_note :
    Db → ℕ → (ℕ → Option ℤ) → ℤ → List CreditNote → ℤ → ℕ → Option TenderMethod → ℤ → Bool → ℤ
after_note db since cash_left refunded ns total k method left counted =
    let taken = note_cash method total left in
    walk_refunds db since (set_left k (if ltb_ℤ taken left then left -ℤ taken else pos 0) cash_left)
      (if counted then refunded +ℤ taken else refunded) ns

walk-Legacy :
    (db : Db) (since bill_id : ℕ) (cash_left : ℕ → Option ℤ) (refunded left : ℤ)
    (ns : List CreditNote)
    → All (Legacy db since bill_id) ns
    → pos 0 ≤ℤ left
    → or_else (cash_left bill_id) (cash_of_bill db bill_id) ≡ left
    → walk_refunds db since cash_left refunded ns ≡ refunded +ℤ smaller (totals db ns) left
unfolding walk_refunds totals
walk-Legacy db since bill_id cash_left refunded left [] h l is = nothing_left refunded left l
walk-Legacy db since bill_id cash_left refunded left (n ∷ ns) ((m, b, t, c), h) l is =
    let total = note_total db n in
    let taken = smaller total left in
    let left' = (if ltb_ℤ taken left then left -ℤ taken else pos 0) in
    let same = left_after_lem taken left (smaller-within total left) in
    let within = smaller-within total left in
    let l' : pos 0 ≤ℤ left -ℤ taken = omega int_laws in
    let next = after_note db since cash_left refunded ns total in
    let left_of = λ (k : ℕ). or_else (cash_left k) (cash_of_bill db k) in
    ap (λ (k : ℕ). next k n.method (left_of k) (leb since n.created_at)) b
    ∙ ap (λ (o : Option TenderMethod). next bill_id o (left_of bill_id) (leb since n.created_at)) m
    ∙ ap (λ (x : ℤ). next bill_id none x (leb since n.created_at)) is
    ∙ ap (λ (y : Bool). next bill_id none left y) c
    ∙ walk-Legacy db since bill_id (set_left bill_id left' cash_left) (refunded +ℤ taken)
        (left -ℤ taken) ns h l' (set_hit bill_id left' cash_left ∙ same)
    ∙ round_lem refunded total (totals db ns) left (totals-nonneg db since bill_id ns h)
  where
    set_hit :
        (k : ℕ) (x : ℤ) (f : ℕ → Option ℤ) → or_else (set_left k x f k) (cash_of_bill db k) ≡ x
    set_hit k x f = rw (==_refl k)

-- The credit notes of one bill that say no method, issued since the shift opened with totals that are not negative, take out of the drawer their sum or, where that is less, the cash that the bill was paid with: never more than that cash, in whatever amounts they are issued.
pub walk_refunds-Legacy :
    (db : Db) (since bill_id : ℕ) (ns : List CreditNote)
    → All (Legacy db since bill_id) ns
    → pos 0 ≤ℤ cash_of_bill db bill_id
    → walk_refunds db since (λ k. none) (pos 0) ns
      ≡ smaller (totals db ns) (cash_of_bill db bill_id)
walk_refunds-Legacy db since bill_id ns h l =
    walk-Legacy db since bill_id (λ k. none) (pos 0) (cash_of_bill db bill_id) ns h l refl
    ∙ omega int_laws
