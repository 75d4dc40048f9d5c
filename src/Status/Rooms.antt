-- ===== src/Status/Rooms.antt =====
-- How a call that ends with its room is reported.
use sip_server.Prelude.{◌≡◌, arith}
use sip_server.Stats.{success}
use sip_server.Status.{
  DisconnectReason, client_initiated, room_closed, room_deleted, participant_removed,
  termination_from_room_disconnect,
}

-- The reasons that are an orderly end of the room or of the participant.
pub data IsOrderly : DisconnectReason → Type 0 where
  by_client : IsOrderly client_initiated
  by_close : IsOrderly room_closed
  by_delete : IsOrderly room_deleted
  by_removal : IsOrderly participant_removed

-- A call that ends with its room counts as a success only for an orderly end of the room.
pub room_success-IsOrderly :
    (r : DisconnectReason) → (termination_from_room_disconnect r).result ≡ success → IsOrderly r
unfolding termination_from_room_disconnect
room_success-IsOrderly client_initiated h = by_client
room_success-IsOrderly room_closed h = by_close
room_success-IsOrderly room_deleted h = by_delete
room_success-IsOrderly participant_removed h = by_removal
room_success-IsOrderly _ h = ground arith
