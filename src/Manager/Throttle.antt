-- ===== src/Manager/Throttle.antt =====
-- Wrong PINs are counted, and a requester over the limit is refused whatever PIN is entered.
use restiq_backend.Base.{
  ℕ, ◌+◌, ◌≤◌, ◌<◌, ◌≡◌, Bool, true, false, some, List, [], String, find, all, is_some, In, ◌⊎◌,
  arith,
}
use restiq_backend.Store.Rows.{Db, StaffUser}
use restiq_backend.Store.Transaction.{err, too_many, locked_out}
use restiq_backend.Permissions.{role_has_permission, refunds}
use restiq_backend.Manager.{
  is_refund, manager_pin, AttemptRow, same_key, counted, count_attempt, consume, AuthRequest,
  authorize, is_white,
}

-- A requester who has used up the attempts of a window that still runs is refused, whatever the PIN is and whatever `verify` answers, when a reason is given.
pub authorize_locked :
    (verify : ℕ → String → Bool) (now : ℕ) (request : AuthRequest) (db : Db)
    (rows : List AttemptRow) (row : AttemptRow)
    → all is_white request.reason ≡ false
    → find (same_key (manager_pin request.tenant_id request.requester_id)) rows ≡ some row
    → 5 ≤ row.attempts
    → now < row.window_started_at + 900000
    → (authorize verify now request db rows).0 ≡ err (too_many locked_out)
unfolding authorize consume count_attempt counted
authorize_locked verify now request db rows row reason found spent running = ground (arith, found)

-- A stored staff member of the tenant with a PIN that still holds and that was verified, who is a manager or, for a refund, has the permission at the outlet.
pub record Approver (verify : ℕ → String → Bool) (request : AuthRequest) (db : Db) (s : StaffUser)
    : Type 0 where
  pub stored : In s db.staff_users
  pub verified : (hash : ℕ) × (s.pin_hash ≡ some hash) × (verify hash request.entered_pin ≡ true)
  pub own : s.tenant_id ≡ request.tenant_id
  pub holds : is_some s.pin_revoked_at ≡ false
  pub manages : is_refund request.action_type ≡ false → s.is_manager ≡ true
  pub refunder :
      is_refund request.action_type ≡ true
      → (role_has_permission s.role_name refunds ≡ true)
        × ((s.outlet_ids ≡ []) ⊎ In request.outlet_id s.outlet_ids)
