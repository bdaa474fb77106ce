-- ===== src/Broker.antt =====
-- include/broker_class.hpp and src/broker/broker_class.cpp: the state of `RSF_Broker`, what it sends,
-- and the operations that several handlers share. A handler takes what it receives and the readings
-- of the clock, and returns the new state with the messages that it sends, in their order. Sockets
-- are left to ZeroMQ: `dealers` holds the ports that `add_dealer` has bound, and the poll set, which
-- follows it, has no field.
pub mod Request
pub mod Registration
pub mod Response
pub mod Heartbeat
pub mod Pending
pub mod Step
pub mod Ballots
pub mod Steady
use reliable_service_framewo.Prelude.{
  ℕ, suc, List, [], ◌∷◌, ltb, ◌==◌, if◌then◌else◌, length, set, Outcome, ok, ◌>>=◌, ◌>>◌, in_bounds,
}
use reliable_service_framewo.Wire.{
  IdFrame, Envelope, ResponseModule, ServiceModule, heartbeat_interval,
}
use reliable_service_framewo.Time.{TimeSpec, time_add_ms}
use reliable_service_framewo.Database
use reliable_service_framewo.Database.{Database}

pub record Broker : Type 0 where
  pub nmr : ℕ
  pub available_dealer_port : ℕ
  pub dealers : List ℕ
  pub db : Database
  pub available_services : List ℕ
  pub timeouts : List TimeSpec

abbrev pub dealer_start_port : ℕ
dealer_start_port = 6000

-- The constructor. The router's option ROUTER_MANDATORY is left out: a send to a client does not fail.
unfoldable pub create : ℕ → Broker
create nmr = record {
  nmr = nmr;
  available_dealer_port = dealer_start_port;
  dealers = [];
  db = Database.create nmr;
  available_services = [];
  timeouts = [];
}

-- A message on one of the sockets. `to_server i` goes out on `dealer[i]`.
pub data Output : Type 0 where
  to_client : Envelope ResponseModule → Output
  to_server : ℕ → Envelope ServiceModule → Output
  to_registrant : IdFrame → ℕ → Output
  to_health_checker : Output

-- The first index that holds the service, or the size.
unfoldable pub index_of : ℕ → List ℕ → ℕ
index_of service [] = 0
index_of service (s ∷ ss) = if s == service then 0 else suc (index_of service ss)

-- `now` is the reading of the clock.
unfoldable pub update_timeout : TimeSpec → ℕ → Broker → Outcome Broker
update_timeout now service b = do
  let i = index_of service b.available_services
  in_bounds (ltb i (length b.timeouts))
  ok (record b { timeouts = set b.timeouts i (time_add_ms now heartbeat_interval) })
