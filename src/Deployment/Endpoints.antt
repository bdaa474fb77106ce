-- ===== src/Deployment/Endpoints.antt =====
-- Who binds and who connects in a deployment (the main programs and the constructors that they call).
use reliable_service_framewo.Prelude.{
  ℕ, ◌^◌, ◌≤◌, ◌<◌, ◌≡◌, ◌≢◌, refl, ap, ◌∙◌, true, false, List, ◌++◌, Outcome, ok, arith,
}
use reliable_service_framewo.Prelude.Int.{pos}
use reliable_service_framewo.Prelude.Text.{codes}
use reliable_service_framewo.Params.{to_string}
use reliable_service_framewo.Sockets.{
  Socket, SocketType, add_socket, tcp_protocol, bind, connect, zmq_rep, zmq_req, zmq_router,
  zmq_dealer,
}
use reliable_service_framewo.Sockets.Laws.{tcp_socket, add_socket_tcp, add_socket-ne}
use reliable_service_framewo.Deployment.{pong_port, server_socket, health_checker_socket}
use reliable_service_framewo.Deployment.Programs.{
  reg_port_broker, router_port_broker, broker_pong_port, router_socket, reg_socket, hc_socket,
  dealer_socket, registrator_socket, reply_socket, client_socket, any_address,
}

-- The sockets that are bound: those of the broker, and that of each server for its health checker.
pub data Endpoint : Type 0 where
  router registration broker_pong : Endpoint
  dealer : ℕ → Endpoint
  server_pong : ℕ → ℕ → Endpoint

unfoldable pub bound_socket : Endpoint → Outcome Socket
bound_socket router = router_socket router_port_broker
bound_socket registration = reg_socket reg_port_broker
bound_socket broker_pong = hc_socket
bound_socket (dealer port) = dealer_socket port
bound_socket (server_pong service id) = server_socket id service

-- Up to a thousand dealers and two hundred services.
abbrev pub IsUsed : Endpoint → Type 0
IsUsed router = Unit
IsUsed registration = Unit
IsUsed broker_pong = Unit
IsUsed (dealer port) = (6000 ≤ port) × (port < 7000)
IsUsed (server_pong service id) = (service < 200) × (id < 5)

abbrev port_of : Endpoint → ℕ
port_of router = 5559
port_of registration = 5555
port_of broker_pong = 8000
port_of (dealer port) = port
port_of (server_pong service id) = pong_port id service

abbrev type_of : Endpoint → SocketType
type_of router = zmq_router
type_of registration = zmq_router
type_of broker_pong = zmq_rep
type_of (dealer port) = zmq_dealer
type_of (server_pong service id) = zmq_rep

bound_socket_lem :
    (d : Endpoint) → bound_socket d ≡ add_socket any_address (port_of d) (type_of d) bind
unfolding bound_socket router_socket reg_socket hc_socket dealer_socket server_socket
bound_socket_lem router = refl
bound_socket_lem registration = refl
bound_socket_lem broker_pong = refl
bound_socket_lem (dealer port) = refl
bound_socket_lem (server_pong service id) = refl

-- No two of them share a port.
port_of-injective : (d d' : Endpoint) → IsUsed d → IsUsed d' → port_of d ≡ port_of d' → d ≡ d'
port_of-injective router router u u' e = refl
port_of-injective router registration u u' e = absurd (omega (arith, e))
port_of-injective router broker_pong u u' e = absurd (omega (arith, e))
port_of-injective router (dealer port') u u' e = absurd (omega (arith, e, u'))
port_of-injective router (server_pong service' id') u u' e = absurd (omega (arith, e, u'))
port_of-injective registration router u u' e = absurd (omega (arith, e))
port_of-injective registration registration u u' e = refl
port_of-injective registration broker_pong u u' e = absurd (omega (arith, e))
port_of-injective registration (dealer port') u u' e = absurd (omega (arith, e, u'))
port_of-injective registration (server_pong service' id') u u' e = absurd (omega (arith, e, u'))
port_of-injective broker_pong router u u' e = absurd (omega (arith, e))
port_of-injective broker_pong registration u u' e = absurd (omega (arith, e))
port_of-injective broker_pong broker_pong u u' e = refl
port_of-injective broker_pong (dealer port') u u' e = absurd (omega (arith, e, u'))
port_of-injective broker_pong (server_pong service' id') u u' e = absurd (omega (arith, e, u'))
port_of-injective (dealer port) router u u' e = absurd (omega (arith, e, u))
port_of-injective (dealer port) registration u u' e = absurd (omega (arith, e, u))
port_of-injective (dealer port) broker_pong u u' e = absurd (omega (arith, e, u))
port_of-injective (dealer port) (dealer port') u u' e = ap dealer e
port_of-injective (dealer port) (server_pong service' id') u u' e = absurd (omega (arith, e, u, u'))
port_of-injective (server_pong service id) router u u' e = absurd (omega (arith, e, u))
port_of-injective (server_pong service id) registration u u' e = absurd (omega (arith, e, u))
port_of-injective (server_pong service id) broker_pong u u' e = absurd (omega (arith, e, u))
port_of-injective (server_pong service id) (dealer port') u u' e = absurd (omega (arith, e, u, u'))
port_of-injective (server_pong service id) (server_pong service' id') (hs, hi) (hs', hi') e =
    let s : service ≡ service' = omega arith in let i : id ≡ id' = omega arith in rw (s, i) refl

port_of-range : (d : Endpoint) → IsUsed d → (0 < port_of d) × (port_of d < 2 ^ 16)
port_of-range router u = (omega arith, omega arith)
port_of-range registration u = (omega arith, omega arith)
port_of-range broker_pong u = (omega arith, omega arith)
port_of-range (dealer port) u = (omega (arith, u), omega (arith, u))
port_of-range (server_pong service id) u = (omega (arith, u), omega (arith, u))

-- No two sockets that are bound in a deployment get the same endpoint: the three of the broker,
-- those of its dealers, on ports from 6000 to 6999, and those of the servers, of services below
-- 200 and copies below `MAX_NMR`.
pub bound_socket-ne :
    (d d' : Endpoint)
    → IsUsed d
    → IsUsed d'
    → d ≢ d'
    → (s : Socket) × (t : Socket) × (bound_socket d ≡ ok s)
      × (bound_socket d' ≡ ok t)
      × (s.conf ≢ t.conf)
bound_socket-ne d d' u u' ne =
    let (s, t, e, e', other) =
      add_socket-ne any_address (port_of d) (port_of d') bind bind (type_of d) (type_of d')
        (port_of-range d u) (port_of-range d' u') (λ e. ne (port_of-injective d d' u u' e)) in
    (s, t, bound_socket_lem d ∙ e, bound_socket_lem d' ∙ e', other)

-- The sockets that connect: those of the clients, of the servers, and of the health checkers.
pub data Peer : Type 0 where
  client registrator broker_checker : Peer
  -- A server that has registered, and got the port.
  server : ℕ → Peer
  server_checker : ℕ → ℕ → Peer

unfoldable pub connected_socket : Peer → Outcome Socket
connected_socket client = client_socket (codes "127.0.0.1") 5559
connected_socket registrator = registrator_socket (codes "localhost") reg_port_broker
connected_socket broker_checker = health_checker_socket broker_pong_port
connected_socket (server port) = reply_socket (codes "localhost") port
connected_socket (server_checker service id) = health_checker_socket (pong_port id service)

-- Whom it is to meet.
abbrev pub endpoint_of : Peer → Endpoint
endpoint_of client = router
endpoint_of registrator = registration
endpoint_of broker_checker = broker_pong
endpoint_of (server port) = dealer port
endpoint_of (server_checker service id) = server_pong service id

abbrev pub address_of : Peer → List ℕ
address_of client = codes "127.0.0.1"
address_of _ = codes "localhost"

abbrev peer_type : Peer → SocketType
peer_type (server port) = zmq_rep
peer_type _ = zmq_req

connected_socket_lem :
    (p : Peer)
    → connected_socket p ≡ add_socket (address_of p) (port_of (endpoint_of p)) (peer_type p) connect
unfolding connected_socket client_socket registrator_socket reply_socket health_checker_socket
connected_socket_lem client = refl
connected_socket_lem registrator = refl
connected_socket_lem broker_checker = refl
connected_socket_lem (server port) = refl
connected_socket_lem (server_checker service id) = refl

-- Each socket that connects has the port of the socket that it is to meet, which is bound: a
-- client and the router of the broker, the registrator of a server and the registration, the
-- health checker of the broker and its pong socket, a server that was given the port of a dealer
-- and this dealer, and the health checker of a server and the pong socket of that server, with
-- ports of dealers from 6000 to 6999, services below 200 and copies below `MAX_NMR`.
pub connected_socket-bound_socket :
    (p : Peer)
    → IsUsed (endpoint_of p)
    → (port : ℕ) × (h : Socket) × (s : Socket) × (connected_socket p ≡ ok h)
      × (bound_socket (endpoint_of p) ≡ ok s)
      × (h.conf ≡ tcp_protocol ++ address_of p ++ codes ":" ++ to_string (pos port))
      × (s.conf ≡ tcp_protocol ++ any_address ++ codes ":" ++ to_string (pos port))
      × (h.bound ≡ false)
      × (s.bound ≡ true)
connected_socket-bound_socket p u =
    let d = endpoint_of p in
    let (some_port, small) = port_of-range d u in
    (
      port_of d,
      tcp_socket (address_of p) (port_of d) (peer_type p) connect,
      tcp_socket any_address (port_of d) (type_of d) bind,
      connected_socket_lem p
          ∙ add_socket_tcp (address_of p) (port_of d) (peer_type p) connect some_port small,
      bound_socket_lem d ∙ add_socket_tcp any_address (port_of d) (type_of d) bind some_port small,
      refl,
      refl,
      refl,
      refl,
    )
