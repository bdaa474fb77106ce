-- ===== src/Deployment/Programs.antt =====
-- The main programs of the broker, the server, the client and the health checker of the broker
-- (src/broker/broker_test.cpp, src/server/server_test.cpp, src/client/client_test.cpp,
-- src/health_checker_broker/health_checker_broker.cpp), up to the loop that each enters, and the
-- sockets of the constructors that they call. Ports are those of include/test.hpp.
use reliable_service_framewo.Prelude.{ℕ, List, [], ◌∷◌, Outcome, ok, ◌>>=◌}
use reliable_service_framewo.Prelude.Int.{ℤ}
use reliable_service_framewo.Prelude.Text.{codes}
use reliable_service_framewo.Time.{TimeSpec}
use reliable_service_framewo.Arguments.{CommandOption, get_service_arg}
use reliable_service_framewo.Sockets.{
  Socket, add_socket, bind, connect, zmq_rep, zmq_req, zmq_router, zmq_dealer,
}
use reliable_service_framewo.Broker
use reliable_service_framewo.Broker.{Broker}
use reliable_service_framewo.Server
use reliable_service_framewo.Server.{Server}
use reliable_service_framewo.HealthChecker
use reliable_service_framewo.HealthChecker.{HealthChecker, Action}
use reliable_service_framewo.Deployment.{server_socket, health_checker_socket}

abbrev pub reg_port_broker : ℕ
reg_port_broker = 5555

abbrev pub router_port_broker : ℕ
router_port_broker = 5559

abbrev pub broker_pong_port : ℕ
broker_pong_port = 8000

abbrev pub default_nmr : ℕ
default_nmr = 3

abbrev pub any_address : List ℕ
any_address = codes "*"

-- The sockets of the constructor of `RSF_Broker`.
unfoldable pub router_socket : ℕ → Outcome Socket
router_socket port_router = add_socket any_address port_router zmq_router bind

unfoldable pub reg_socket : ℕ → Outcome Socket
reg_socket port_reg = add_socket any_address port_reg zmq_router bind

unfoldable pub hc_socket : Outcome Socket
hc_socket = add_socket any_address broker_pong_port zmq_rep bind

-- The socket that `add_dealer` binds.
unfoldable pub dealer_socket : ℕ → Outcome Socket
dealer_socket dealer_port = add_socket any_address dealer_port zmq_dealer bind

-- `main` of the broker: the object, and its sockets.
unfoldable pub broker_program : Outcome (Broker × List Socket)
unfolding router_socket reg_socket hc_socket
broker_program = do
  router ← router_socket router_port_broker
  reg ← reg_socket reg_port_broker
  hc ← hc_socket
  ok (Broker.create default_nmr, router ∷ reg ∷ hc ∷ [])

-- The socket of the constructor of `Registrator`.
unfoldable pub registrator_socket : List ℕ → ℕ → Outcome Socket
registrator_socket broker_address reg_port = add_socket broker_address reg_port zmq_req connect

-- The socket for requests, which `step` of the server connects once it is registered.
unfoldable pub reply_socket : List ℕ → ℕ → Outcome Socket
reply_socket broker_address broker_port = add_socket broker_address broker_port zmq_rep connect

-- `main` of the server, given the bytes of its two arguments.
unfoldable pub server_program : ℕ → ℕ → TimeSpec → Outcome (Server × List Socket)
unfolding registrator_socket
server_program service id uninit = do
  server ← Server.create id service uninit
  reg ← registrator_socket (codes "localhost") reg_port_broker
  hc_pong ← server_socket id service
  ok (server, reg ∷ hc_pong ∷ [])

-- The socket of the constructor of `RSF_Client`.
unfoldable pub client_socket : List ℕ → ℕ → Outcome Socket
client_socket addr port = add_socket addr port zmq_req connect

-- `main` of the client up to its loop: the socket, and the service that it asks for. `service` is what
-- the variable holds before.
unfoldable pub client_program : ℕ → List CommandOption → ℤ → Outcome (Socket × ℤ)
unfolding client_socket
client_program argc os service = do
  socket ← client_socket (codes "127.0.0.1") 5559
  asked ← get_service_arg argc os service 1
  ok (socket, asked)

-- `main` of the health checker of the broker, which has started the broker as the process `pid`.
unfoldable pub health_checker_broker : ℕ → Outcome ((HealthChecker × List Action) × Socket)
health_checker_broker pid = do
  socket ← health_checker_socket broker_pong_port
  ok (HealthChecker.create pid, socket)
