-- ===== src/Refund/Tests.antt =====
-- The properties of Refund at one input each.
use restiq_backend.Base.{◌≡◌, [], ◌∷◌, arith}
use restiq_backend.Base.Int.{pos, sum_ℤ, ◌+ℤ◌, ◌-ℤ◌, ◌≤ℤ◌}
use restiq_backend.Store.Rows.{CreditNoteLine}
use restiq_backend.Refund.{allot, share_out}
use restiq_backend.Refund.Amounts.{allot_within, allot_whole, share_out-total, line_amounts}

abbrev note_line : CreditNoteLine
note_line = record {
  order_line_id = 1;
  quantity = 1;
  unit_price_minor = pos 100;
  amount_minor = pos 100;
}

share_out-total_example :
    sum_ℤ (line_amounts (share_out (pos 181) (pos 200) (pos 0) (note_line ∷ note_line ∷ [])))
    ≡ pos 181 -ℤ pos 0
share_out-total_example = share_out-total (pos 181) (pos 200) (pos 0) note_line (note_line ∷ [])

allot_within_example : pos 90 +ℤ allot (pos 200) (pos 150) (pos 181) (pos 90) ≤ℤ pos 181
allot_within_example = allot_within 200 150 181 90 (omega arith) (omega arith) (omega arith)

allot_whole_example : pos 90 +ℤ allot (pos 200) (pos 200) (pos 181) (pos 90) ≡ pos 181
allot_whole_example = allot_whole 200 181 90 (omega arith) (omega arith)
