-- ===== src/Broker/Registration.antt =====
-- src/broker/broker_class.cpp: `RSF_Broker::get_registration` and `add_dealer`, for a message of
-- three frames, the envelope of a REQ socket. Its first two frames are sent back as they came.
pub mod Early
use reliable_service_framewo.Prelude.{
  ℕ, Bool, false, not, ◌&&◌, ◌||◌, List, [], ◌∷◌, ◌==◌, if◌then◌else◌, Outcome, ok, ◌>>=◌,
}
use reliable_service_framewo.Wire.{ByteOrder, Envelope, RegistrationModule, heartbeat_interval}
use reliable_service_framewo.Time.{TimeSpec, time_add_ms}
use reliable_service_framewo.Database.{Registered, push_registration, append}
use reliable_service_framewo.Broker.{Broker, Output, to_registrant}

-- The loop that sets `already_registered`.
unfoldable pub contains : ℕ → List ℕ → Bool
contains service [] = false
contains service (s ∷ ss) = s == service || contains service ss

-- Binding a socket for a port.
unfoldable pub add_dealer : ℕ → Broker → Broker
add_dealer port b = record b { dealers = append b.dealers port }

-- `if (ready && !already_registered)`: the service is made available, with a timeout from `armed`.
unfoldable pub make_available : ℕ → Registered → TimeSpec → Broker → Broker
unfolding add_dealer
make_available service reg armed b =
    if reg.ready && not (contains service b.available_services)
    then record (add_dealer reg.port b) {
      available_services = append b.available_services service;
      timeouts = append b.timeouts (time_add_ms armed heartbeat_interval);
    }
    else b

module _ (bo : ByteOrder) where
  open bo use {ntohl, htons}

  unfoldable pub get_registration :
      Envelope RegistrationModule → TimeSpec → Broker → Outcome (Broker × List Output)
  get_registration e armed b = do
    let rm = record (e.data_frame) { service = ntohl e.data_frame.service }
    reg ← push_registration rm b.available_dealer_port b.db
    let b' = record b { db = reg.db; available_dealer_port = reg.next_socket }
    ok (make_available rm.service reg armed b', to_registrant e.id_frame (htons reg.port) ∷ [])
