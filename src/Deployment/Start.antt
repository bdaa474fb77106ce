-- ===== src/Deployment/Start.antt =====
-- The main programs start (src/broker/broker_test.cpp, src/server/server_test.cpp and those of the
-- health checkers).
use reliable_service_framewo.Prelude.{
  ℕ, suc, zero, ◌≤◌, ◌<◌, ◌≡◌, refl, [], ◌∷◌, Outcome, ok, ltb, arith, false,
}
use reliable_service_framewo.Prelude.Int.{ℤ, pos}
use reliable_service_framewo.Time.{TimeSpec}
use reliable_service_framewo.Sockets.{Socket}
use reliable_service_framewo.Broker
use reliable_service_framewo.HealthChecker
use reliable_service_framewo.Server
use reliable_service_framewo.Server.{Server, hc_item}
use reliable_service_framewo.Service.{get_service_body}
use reliable_service_framewo.Deployment.{health_checker_server}
use reliable_service_framewo.Deployment.Programs.{
  broker_program, server_program, health_checker_broker, default_nmr,
}
use reliable_service_framewo.Deployment.Endpoints.{
  router, registration, broker_pong, server_pong, registrator, broker_checker, server_checker,
  bound_socket, connected_socket, client, Peer, IsUsed, endpoint_of, connected_socket-bound_socket,
}

get_service_body-ok :
    (service : ℕ) → service < 3 → (body : ℤ → Outcome ℤ) × (get_service_body service ≡ ok body)
unfolding get_service_body
get_service_body-ok zero h = (_, refl)
get_service_body-ok (suc zero) h = (_, refl)
get_service_body-ok (suc (suc zero)) h = (_, refl)
get_service_body-ok (suc (suc (suc n))) h = absurd (omega arith)

-- The sockets that the broker opens.
abbrev pub BrokerStarts : Type 0
BrokerStarts =
    (r : Socket) × (g : Socket) × (c : Socket) × (broker_program
      ≡ ok (Broker.create default_nmr, r ∷ g ∷ c ∷ []))
    × (bound_socket router ≡ ok r)
    × (bound_socket registration ≡ ok g)
    × (bound_socket broker_pong ≡ ok c)

-- Those of a server.
abbrev pub ServerStarts : ℕ → ℕ → TimeSpec → Type 0
ServerStarts service id uninit =
    (server : Server) × (g : Socket) × (c : Socket) × (server_program service id uninit
      ≡ ok (server, g ∷ c ∷ []))
    × (server.service_type ≡ service)
    × (server.id ≡ id)
    × (connected_socket registrator ≡ ok g)
    × (bound_socket (server_pong service id) ≡ ok c)

-- Those of the health checkers.
abbrev pub CheckersStart : ℕ → ℕ → ℕ → ℕ → Type 0
CheckersStart argc pid service id =
    (c : Socket) × (d : Socket) × (health_checker_broker pid ≡ ok (HealthChecker.create pid, c))
    × (connected_socket broker_checker ≡ ok c)
    × (health_checker_server argc service id ≡ ok (record { service = service; id = id }, d))
    × (connected_socket (server_checker service id) ≡ ok d)

binds : (p : Peer) → IsUsed (endpoint_of p) → (s : Socket) × (bound_socket (endpoint_of p) ≡ ok s)
binds p u = let (port, h, s, e, e', c, c', d, d') = connected_socket-bound_socket p u in (s, e')

connects : (p : Peer) → IsUsed (endpoint_of p) → (h : Socket) × (connected_socket p ≡ ok h)
connects p u = let (port, h, s, e, e', c, c', d, d') = connected_socket-bound_socket p u in (h, e)

broker-Starts : BrokerStarts
unfolding broker_program bound_socket
broker-Starts =
    let (r, er) = binds client tt in
    let (g, eg) = binds registrator tt in
    let (c, ec) = binds broker_checker tt in (r, g, c, rw (er, eg, ec) refl, er, eg, ec)

-- The server that the constructor makes.
abbrev new_server : ℕ → ℕ → (ℤ → Outcome ℤ) → TimeSpec → Server
new_server service id body uninit = record {
  id = id;
  service_type = service;
  service = body;
  ping_id = 0;
  request_id = 0;
  broker_port = pos 0;
  items = hc_item ∷ [];
  reg_ok = false;
  ping_loss = 0;
  deadline = uninit;
  send_reg = false;
}

server-Starts :
    (service id : ℕ) (uninit : TimeSpec) → service < 3 → id < 5 → ServerStarts service id uninit
unfolding server_program Server.create bound_socket connected_socket
server-Starts service id uninit hs hi =
    let (body, serves) = get_service_body-ok service hs in
    let (g, eg) = connects registrator tt in
    let (c, ec) = binds (server_checker service id) (omega arith, hi) in
    (new_server service id body uninit, g, c, rw (serves, eg, ec) refl, refl, refl, eg, ec)

checkers-Start :
    (argc pid service id : ℕ) → 2 ≤ argc → service < 3 → id < 5 → CheckersStart argc pid service id
unfolding health_checker_broker health_checker_server connected_socket
checkers-Start argc pid service id long hs hi =
    let (c, ec) = connects broker_checker tt in
    let (d, ed) = connects (server_checker service id) (omega arith, hi) in
    let given : ltb argc 2 ≡ false = ground arith in (c, d, rw ec refl, ec, rw (given, ed) refl, ed)

-- The programs of the broker and of its health checker, and those of a server, of a service below
-- 3 and a copy below `MAX_NMR`, and of its health checker, given two arguments, all open their
-- sockets: the broker is the new one with redundancy 3 and its three bound sockets, the server is
-- of that service and copy, connected to the registration of the broker and bound for its health
-- checker, and each health checker is connected as the peer of what it watches.
pub programs_start :
    (argc pid service id : ℕ) (uninit : TimeSpec)
    → 2 ≤ argc
    → service < 3
    → id < 5
    → BrokerStarts × ServerStarts service id uninit × CheckersStart argc pid service id
programs_start argc pid service id uninit long hs hi = (
  broker-Starts,
  server-Starts service id uninit hs hi,
  checkers-Start argc pid service id long hs hi,
)
