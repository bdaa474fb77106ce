-- ===== src/Deployment/Wiring.antt =====
-- What a deployment starts, and that each health checker meets its server
-- (src/deployment_unit/deployment_unit.cpp and the main programs).
use reliable_service_framewo.Prelude.{
  ℕ, zero, suc, ◌+◌, ◌%◌, ◌^◌, ◌≤◌, ◌<◌, ◌≡◌, ◌≢◌, ◌⊎◌, refl, ap, true, false, some, List, [], ◌∷◌,
  ◌++◌, ltb, ◌==◌, ok, arith,
}
use reliable_service_framewo.Prelude.Int.{pos}
use reliable_service_framewo.Prelude.Text.{codes}
use reliable_service_framewo.Params.{to_string}
use reliable_service_framewo.Arguments.{CommandOption, get_arg}
use reliable_service_framewo.Arguments.Laws.{option, get_arg-option}
use reliable_service_framewo.Sockets.{
  Socket, add_socket, tcp_protocol, bind, connect, zmq_rep, zmq_req,
}
use reliable_service_framewo.Sockets.Laws.{tcp_socket, add_socket_tcp, add_socket-ne}
use reliable_service_framewo.Deployment.{
  Child, deployment_loop, deployment, deploy, pong_port, server_socket, health_checker_server,
}

-- The health checkers of `n` copies from the copy `i` on.
abbrev pub copies_from : ℕ → ℕ → ℕ → List Child
copies_from service zero i = []
copies_from service (suc n) i = record { service = service; id = i } ∷ copies_from service n (i + 1)

deployment_loop_lem :
    (n f service num i : ℕ)
    → i + n ≡ num
    → num < 256
    → n < f
    → deployment_loop f service num i ≡ some (copies_from service n i)
unfolding deployment_loop
deployment_loop_lem n zero service num i e small h = absurd (omega arith)
deployment_loop_lem zero (suc f) service num i e small h =
    let last : (i == num) ≡ true = ground arith in rw last refl
deployment_loop_lem (suc n) (suc f) service num i e small h =
    let more : (i == num) ≡ false = ground arith in
    let next : (i + 1) % 2 ^ 8 ≡ i + 1 = omega arith in
    let rest = deployment_loop_lem n f service num (i + 1) (omega arith) small (omega arith) in
    rw more (rw next (rw rest refl))

module _ (argc num service n s : ℕ) (some_copies : 0 < num) (hn : num < 256) where
  deploy-parsed :
      (os : List CommandOption)
      → get_arg argc os n s 2 ≡ ok (num, service)
      → deploy argc os n s ≡ ok (some (copies_from service num 0))
  unfolding deploy deployment
  deploy-parsed os parsed =
      let enough : ltb num 1 ≡ false = ground arith in
      rw (parsed, enough)
        (ap ok (deployment_loop_lem num (2 ^ 8) service num 0 (omega arith) hn (omega arith)))

-- Called with the options for `num` copies, 1 to 255, and for a service, at most 255, in either
-- order, and at least two arguments, the deployment unit starts exactly their health checkers, one
-- for each copy, from the copy 0 to the copy `num - 1`, and then waits.
pub deploy-copies_from :
    (argc num service n s : ℕ)
    → 3 ≤ argc
    → 0 < num
    → num < 256
    → service < 256
    → (deploy argc (option b'n' num ∷ option b's' service ∷ []) n s
        ≡ ok (some (copies_from service num 0)))
      × (deploy argc (option b's' service ∷ option b'n' num ∷ []) n s
          ≡ ok (some (copies_from service num 0)))
deploy-copies_from argc num service n s long some_copies hn hs =
    let (parsed, parsed') = get_arg-option argc num service n s long hn hs in
    (
      deploy-parsed argc num service n s some_copies hn _ parsed,
      deploy-parsed argc num service n s some_copies hn _ parsed',
    )

-- The health checker of a server, given its two arguments, starts the server of its own service
-- and copy (each a byte), and connects to the port that this server binds.
pub health_checker-server_socket :
    (argc service id : ℕ)
    → 2 ≤ argc
    → service < 256
    → id < 256
    → (port : ℕ) × (h : Socket) × (s : Socket) × (health_checker_server argc service id
        ≡ ok (record { service = service; id = id }, h))
      × (server_socket id service ≡ ok s)
      × (h.conf ≡ tcp_protocol ++ codes "localhost" ++ codes ":" ++ to_string (pos port))
      × (s.conf ≡ tcp_protocol ++ codes "*" ++ codes ":" ++ to_string (pos port))
      × (h.bound ≡ false)
      × (s.bound ≡ true)
unfolding health_checker_server server_socket
health_checker-server_socket argc service id long hs hi =
    let port = pong_port id service in
    let given : ltb argc 2 ≡ false = ground arith in
    let client =
      add_socket_tcp (codes "localhost") port zmq_req connect (omega arith) (omega arith) in
    let server = add_socket_tcp (codes "*") port zmq_rep bind (omega arith) (omega arith) in
    (
      port,
      tcp_socket (codes "localhost") port zmq_req connect,
      tcp_socket (codes "*") port zmq_rep bind,
      rw (given, client) refl,
      server,
      refl,
      refl,
      refl,
      refl,
    )

-- Servers of two services (each a byte), or two copies of one service, bind different endpoints,
-- when the copies are below `MAX_NMR`.
pub server_socket-ne :
    (service id service' id' : ℕ)
    → (service < 256) × (service' < 256)
    → (id < 5) × (id' < 5)
    → (service ≢ service') ⊎ (id ≢ id')
    → (s : Socket) × (t : Socket) × (server_socket id service ≡ ok s)
      × (server_socket id' service' ≡ ok t)
      × (s.conf ≢ t.conf)
unfolding server_socket
server_socket-ne service id service' id' (hs, hs') (hi, hi') other =
    add_socket-ne (codes "*") (pong_port id service) (pong_port id' service') bind bind zmq_rep
      zmq_rep (omega arith, omega arith) (omega arith, omega arith) (omega arith)

-- The copy `MAX_NMR + k` of a service binds the endpoint of the copy `k` of the next service.
pub server_socket_collision :
    (service k : ℕ) → server_socket (5 + k) service ≡ server_socket k (service + 1)
unfolding server_socket
server_socket_collision service k = ap (λ p. add_socket (codes "*") p zmq_rep bind) (omega arith)
