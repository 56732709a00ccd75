-- ===== src/Permissions.antt =====
-- The permissions of a role, platform/permissions.ts. Roles go by their name.
use restiq_backend.Base.{Bool, true, false, if◌then◌else◌, List, [], ◌∷◌, String, any}
use text.Mathlib.Text.{◌==◌ as str_eq}

pub data Permission : Type 0 where
  take_orders fire_kitchen settle_bills discounts void_lines refunds z_report : Permission
  manage_menu manage_staff : Permission

abbrev pub same_permission : Permission → Permission → Bool
same_permission take_orders take_orders = true
same_permission fire_kitchen fire_kitchen = true
same_permission settle_bills settle_bills = true
same_permission discounts discounts = true
same_permission void_lines void_lines = true
same_permission refunds refunds = true
same_permission z_report z_report = true
same_permission manage_menu manage_menu = true
same_permission manage_staff manage_staff = true
same_permission _ _ = false

-- `PERMISSIONS`
abbrev pub permissions : List Permission
permissions =
    take_orders ∷ fire_kitchen ∷ settle_bills ∷ discounts ∷ void_lines ∷ refunds ∷ z_report
    ∷ manage_menu ∷ manage_staff ∷ []

-- `permissionsFor`, with the table `ROLE_PERMISSIONS`.
unfoldable pub permissions_for : String → List Permission
permissions_for role =
    if str_eq role "Owner"
    then permissions
    else if str_eq role "Manager"
    then permissions
    else if str_eq role "Cashier"
    then take_orders ∷ fire_kitchen ∷ settle_bills ∷ discounts ∷ []
    else if str_eq role "Waiter"
    then take_orders ∷ fire_kitchen ∷ []
    else if str_eq role "Kitchen"
    then fire_kitchen ∷ []
    else if str_eq role "Accountant"
    then settle_bills ∷ z_report ∷ []
    else []

unfoldable pub role_has_permission : String → Permission → Bool
unfolding permissions_for
role_has_permission role permission = any (same_permission permission) (permissions_for role)
