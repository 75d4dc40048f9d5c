-- ===== src/Status/Tests.antt =====
-- Runs of the status tables.
use sip_server.Prelude.{◌≡◌, refl}
use sip_server.Stats.{success}
use sip_server.Status.{room_deleted, termination_from_room_disconnect}

room_deleted_success : (termination_from_room_disconnect room_deleted).result ≡ success
unfolding termination_from_room_disconnect
room_deleted_success = refl
