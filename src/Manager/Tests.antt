-- ===== src/Manager/Tests.antt =====
-- The properties of Manager at one input each.
use restiq_backend.Base.{ℕ, ◌≡◌, refl, Bool, true, [], ◌∷◌, String, arith}
use restiq_backend.Store.Transaction.{err, too_many, locked_out}
use restiq_backend.Store.Samples.{sample}
use restiq_backend.Manager.{manager_pin, AttemptRow, AuthRequest, discount, authorize}
use restiq_backend.Manager.Throttle.{authorize_locked}

abbrev asking : AuthRequest
asking = record {
  action_type = discount;
  tenant_id = 1;
  outlet_id = 2;
  entered_pin = "1234";
  reason = b'o' ∷ b'k' ∷ [];
  requester_id = 7;
}

abbrev any_pin : ℕ → String → Bool
any_pin hash pin = true

abbrev spent_row : AttemptRow
spent_row = record { key = manager_pin 1 7; attempts = 5; window_started_at = 1000 }

authorize_locked_example :
    (authorize any_pin 2000 asking sample (spent_row ∷ [])).0 ≡ err (too_many locked_out)
authorize_locked_example =
    authorize_locked any_pin 2000 asking sample (spent_row ∷ []) spent_row refl refl (omega arith)
      (omega arith)
