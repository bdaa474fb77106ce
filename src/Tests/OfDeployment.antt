-- ===== src/Tests/OfDeployment.antt =====
-- src/deployment_unit/deployment_unit.cpp, src/utilities/util.cpp: three copies of INCREMENT.
use reliable_service_framewo.Prelude.{
  ℕ, ◌+◌, ◌*◌, ◌≤◌, ◌<◌, ◌≡◌, ◌≢◌, [], ◌∷◌, ◌++◌, true, false, some, ok, arith,
}
use reliable_service_framewo.Prelude.Int.{pos}
use reliable_service_framewo.Prelude.Text.{codes}
use reliable_service_framewo.Params.{to_string}
use reliable_service_framewo.Time.{TimeSpec}
use reliable_service_framewo.Time.Laws.{nanos}
use reliable_service_framewo.Time.Wait.{busy_wait, busy_wait_ends}
use reliable_service_framewo.Sockets.{Socket, tcp_protocol}
use reliable_service_framewo.Arguments.{get_arg}
use reliable_service_framewo.Arguments.Laws.{option, get_arg_twice}
use reliable_service_framewo.Deployment.{deploy}
use reliable_service_framewo.Deployment.Endpoints.{
  dealer, server_pong, server_checker, bound_socket, connected_socket, bound_socket-ne,
  connected_socket-bound_socket,
}
use reliable_service_framewo.Deployment.Start.{
  BrokerStarts, ServerStarts, CheckersStart, programs_start,
}
use reliable_service_framewo.Deployment.Wiring.{copies_from, deploy-copies_from}

deploy-copies_from_example :
    (deploy 5 (option b'n' 3 ∷ option b's' 1 ∷ []) 0 0 ≡ ok (some (copies_from 1 3 0)))
    × (deploy 5 (option b's' 1 ∷ option b'n' 3 ∷ []) 0 0 ≡ ok (some (copies_from 1 3 0)))
deploy-copies_from_example =
    deploy-copies_from 5 3 1 0 0 (omega arith) (omega arith) (omega arith) (omega arith)

get_arg_twice_example : get_arg 5 (option b'n' 3 ∷ option b'n' 4 ∷ []) 0 77 2 ≡ ok (4, 77)
get_arg_twice_example = get_arg_twice 5 3 4 0 77 (omega arith) (omega arith) (omega arith)

-- A reading at each second.
abbrev seconds : ℕ → TimeSpec
seconds k = record { tv_sec = k; tv_nsec = 7 }

busy_wait_ends_example :
    (i : ℕ) × (busy_wait 5 2500 (seconds 0) seconds ≡ some i)
    × (i ≤ 4)
    × (nanos (seconds 0) + 2500 * 1_000_000 ≤ nanos (seconds i))
    × ((j : ℕ) → j < i → nanos (seconds j) < nanos (seconds 0) + 2500 * 1_000_000)
busy_wait_ends_example =
    busy_wait_ends 2500 (seconds 0) seconds (omega arith) (λ k. omega arith) 4 (omega arith)

dealer-ne : dealer 6999 ≢ server_pong 0 0
dealer-ne e = cc

bound_socket-ne_example :
    (s : Socket) × (t : Socket) × (bound_socket (dealer 6999) ≡ ok s)
    × (bound_socket (server_pong 0 0) ≡ ok t)
    × (s.conf ≢ t.conf)
bound_socket-ne_example =
    bound_socket-ne (dealer 6999) (server_pong 0 0) (omega arith, omega arith)
      (omega arith, omega arith) dealer-ne

connected_socket-bound_socket_example :
    (port : ℕ) × (h : Socket) × (s : Socket) × (connected_socket (server_checker 1 2) ≡ ok h)
    × (bound_socket (server_pong 1 2) ≡ ok s)
    × (h.conf ≡ tcp_protocol ++ codes "localhost" ++ codes ":" ++ to_string (pos port))
    × (s.conf ≡ tcp_protocol ++ codes "*" ++ codes ":" ++ to_string (pos port))
    × (h.bound ≡ false)
    × (s.bound ≡ true)
connected_socket-bound_socket_example =
    connected_socket-bound_socket (server_checker 1 2) (omega arith, omega arith)

programs_start_example : BrokerStarts × ServerStarts 2 4 (seconds 0) × CheckersStart 2 100 2 4
programs_start_example =
    programs_start 2 100 2 4 (seconds 0) (omega arith) (omega arith) (omega arith)
