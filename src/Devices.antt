-- ===== src/Devices.antt =====
-- Where the work of a till goes, pos/device-routing.ts: a printer or card terminal linked to a POS
-- serves only that POS, the others the whole outlet.
use restiq_backend.Base.{
  ℕ, Bool, true, false, ◌&&◌, Option, none, some, ◌==◌, is_some, eq_option, find, any,
}
use restiq_backend.Store.Rows.{
  Db, Device, DeviceType, pos_device, printer, terminal, kds_device, kiosk_device,
}

abbrev pub same_kind : DeviceType → DeviceType → Bool
same_kind printer printer = true
same_kind terminal terminal = true
same_kind pos_device pos_device = true
same_kind kds_device kds_device = true
same_kind kiosk_device kiosk_device = true
same_kind _ _ = false

abbrev pub id_of : Option Device → Option ℕ
id_of none = none
id_of (some device) = some device.id

-- The peripheral is linked to this POS, which is itself in service.
unfoldable pub is_linked : Db → ℕ → ℕ → DeviceType → Device → Bool
is_linked db tenant_id pos_id kind device =
    device.tenant_id == tenant_id
    && same_kind device.kind kind
    && device.in_service
    && eq_option device.paired_pos_id (some pos_id)
    && any (λ p. p.id == pos_id && p.in_service && same_kind p.kind pos_device) db.devices

-- `linkedPeripheral`
unfoldable pub linked_peripheral : Db → ℕ → Option ℕ → DeviceType → Option ℕ
unfolding is_linked
linked_peripheral db tenant_id none kind = none
linked_peripheral db tenant_id (some pos_id) kind =
    id_of (find (is_linked db tenant_id pos_id kind) db.devices)

-- `queueFor`
unfoldable pub queue_for : Db → ℕ → Option ℕ → DeviceType → Option ℕ
queue_for db tenant_id none kind = none
queue_for db tenant_id (some device_id) kind = id_of (
    find
      (λ d.
        d.id == device_id
        && d.tenant_id == tenant_id
        && same_kind d.kind kind
        && d.in_service
        && is_some d.paired_pos_id)
      db.devices)
