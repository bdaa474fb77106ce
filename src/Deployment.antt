-- ===== src/Deployment.antt =====
-- src/deployment_unit/deployment_unit.cpp, and the main programs that it leads to: those of the health
-- checker and of the server. `fork` and `execlp` are taken to succeed; of its arguments a program
-- reads the first byte each.
pub mod Wiring
pub mod Programs
pub mod Endpoints
pub mod Start
use reliable_service_framewo.Prelude.{
  ℕ, zero, suc, ◌+◌, ◌*◌, ◌%◌, ◌^◌, Option, none, some, List, [], ◌∷◌, ltb, ◌==◌, if◌then◌else◌,
  Outcome, ok, exits, ◌>>=◌,
}
use reliable_service_framewo.Prelude.Text.{codes}
use reliable_service_framewo.Sockets.{Socket, add_socket, bind, connect, zmq_rep, zmq_req}
use reliable_service_framewo.Arguments.{CommandOption, get_arg}

abbrev pub num_options : ℕ
num_options = 2

abbrev pub num_min_nmr : ℕ
num_min_nmr = 1

abbrev pub hb_args : ℕ
hb_args = 2

abbrev pub server_pong_port : ℕ
server_pong_port = 7000

abbrev pub max_nmr : ℕ
max_nmr = 5

-- A process that was forked, with what it reads of its two arguments.
pub record Child : Type 0 where
  pub service : ℕ
  pub id : ℕ

-- The loop of `deployment` from the counter `i` on: the health checkers that are started before the
-- unit waits for them, and then does so for ever. The first argument is the rounds that are left.
unfoldable pub deployment_loop : ℕ → ℕ → ℕ → ℕ → Option (List Child)
deployment_loop zero service num_copy_server i = none
deployment_loop (suc f) service num_copy_server i =
    let rest = deployment_loop f service num_copy_server ((i + 1) % 2 ^ 8) in
    let started : Option (List Child) = elim rest [
      | none ↦ none
      | some children ↦ some (record { service = service; id = i } ∷ children)
    ] in
    if i == num_copy_server then some [] else started

unfoldable pub deployment : ℕ → ℕ → Option (List Child)
unfolding deployment_loop
deployment service num_copy_server = deployment_loop (2 ^ 8) service num_copy_server 0

-- `main` of the deployment unit, with what its two variables hold before `get_arg`.
unfoldable pub deploy : ℕ → List CommandOption → ℕ → ℕ → Outcome (Option (List Child))
deploy argc os num_copy_server service = do
  args ← get_arg argc os num_copy_server service num_options
  if ltb args.0 num_min_nmr then exits else ok (deployment args.1 args.0)

-- The port, as it is converted to a `uint16_t`.
abbrev pub pong_port : ℕ → ℕ → ℕ
pong_port id service = (server_pong_port + id + service * max_nmr) % 2 ^ 16

-- The socket of the pongs that the constructor of `RSF_Server` binds.
unfoldable pub server_socket : ℕ → ℕ → Outcome Socket
server_socket id service = add_socket (codes "*") (pong_port id service) zmq_rep bind

-- The socket of the pings that `context_init` connects.
unfoldable pub health_checker_socket : ℕ → Outcome Socket
health_checker_socket port = add_socket (codes "localhost") port zmq_req connect

-- `main` of the health checker of a server: the server process that it starts, and its socket.
unfoldable pub health_checker_server : ℕ → ℕ → ℕ → Outcome (Child × Socket)
unfolding health_checker_socket
health_checker_server argc srv_service srv_id = if ltb argc hb_args then exits else (do
  socket ← health_checker_socket (pong_port srv_id srv_service)
  ok (record { service = srv_service; id = srv_id }, socket))
