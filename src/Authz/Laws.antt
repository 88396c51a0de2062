-- ===== src/Authz/Laws.antt =====
-- What the checks of internal/authz/actions.go guarantee.
use arandu_whatsapp.Errors.{ok}
use arandu_whatsapp.Prelude.{==_iff, ◌≡◌, ◌≢◌, false, none, arith, String-eq}
use arandu_whatsapp.Authz.Security.{
  runtime, connection_pair, runtime_discover, message_send, Security, writes,
}
use arandu_whatsapp.Authz.Checks.{
  check_webhook_lookup, check_message_by_key, check_message_by_id, runtime_grant_from_pair, refusal,
  check_instance_lookup, check_instance_status, check_connection_state, check_connection_lock,
  check_clear_device, check_message_content_update, check_address_resolution, check_device_store,
  check_message_create,
}

module _ (security : Security) where
  open security use {
    Grant, action, tenant, check, system_grant, check_exact, action-system_grant,
    tenant-system_grant, check-system_grant,
  }

  -- The sets of the lifecycle checks are nested: a Grant that may clear the device may change the
  -- connection state, one that may do that owns the lock, one that owns the lock may change the
  -- status and open the device store, and one that may change the status may load the instance.
  pub lifecycle_nesting :
      (g : Grant)
      → (check_clear_device security g ≡ none → check_connection_state security g ≡ none)
        × (check_connection_state security g ≡ none → check_connection_lock security g ≡ none)
        × (check_connection_lock security g ≡ none → check_instance_status security g ≡ none)
        × (check_connection_lock security g ≡ none → check_device_store security g ≡ none)
        × (check_instance_status security g ≡ none → check_instance_lookup security g ≡ none)
  unfolding check_clear_device check_connection_state check_connection_lock check_instance_status
      check_device_store check_instance_lookup refusal
  lifecycle_nesting g = ground arith

  -- A Grant of an action that only reads passes none of the checks of an operation that writes.
  pub reads-refused :
      (g : Grant)
      → writes (action g) ≡ false
      → (check_instance_status security g ≢ none)
        × (check_connection_state security g ≢ none)
        × (check_connection_lock security g ≢ none)
        × (check_clear_device security g ≢ none)
        × (check_message_create security g ≢ none)
        × (check_message_content_update security g ≢ none)
        × (check_address_resolution security g ≢ none)
        × (check_device_store security g ≢ none)
  unfolding writes check_instance_status check_connection_state check_connection_lock
      check_clear_device check_message_create check_message_content_update check_address_resolution
      check_device_store refusal
  reads-refused g = ground (arith, check_exact g message_send)

  -- A discovery Grant, which reads across tenants, passes none of the checks of a tenant's data.
  pub discover-refused :
      (g : Grant)
      → action g ≡ runtime_discover
      → (check_instance_lookup security g ≢ none)
        × (check_message_by_id security g ≢ none)
        × (check_message_by_key security g ≢ none)
        × (check_webhook_lookup security g ≢ none)
        × (check_message_create security g ≢ none)
        × (check_message_content_update security g ≢ none)
        × (check_address_resolution security g ≢ none)
        × (check_device_store security g ≢ none)
  unfolding check_instance_lookup check_message_by_id check_message_by_key check_webhook_lookup
      check_message_create check_message_content_update check_address_resolution check_device_store
      refusal
  discover-refused g = ground (arith, check_exact g message_send)

  -- The authority that pairing hands to the callbacks: it is given only to a Grant issued for
  -- pairing, in a tenant; it is a runtime Grant of the same tenant, it may change the connection
  -- state and clear the device, and it may not create messages.
  pub runtime_grant_from_pair_lem :
      (g r : Grant)
      → runtime_grant_from_pair security g ≡ ok r
      → (action g ≡ connection_pair)
        × (tenant g ≢ "")
        × (action r ≡ runtime)
        × (tenant r ≡ tenant g)
        × (check_connection_state security r ≡ none)
        × (check_clear_device security r ≡ none)
        × (check_message_create security r ≢ none)
  unfolding runtime_grant_from_pair check_connection_state check_clear_device check_message_create
  runtime_grant_from_pair_lem g r h = ground (
    arith,
    check_exact g connection_pair,
    check_exact r message_send,
    ==_iff (tenant g) "",
    action-system_grant runtime (tenant g),
    tenant-system_grant runtime (tenant g),
    check-system_grant runtime (tenant g),
  )
