-- ===== src/Tests/OfServer.antt =====
-- src/server/server_class.cpp and the client's side: requests, pings and their losses.
use reliable_service_framewo.Prelude.{
  ℕ, ◌≡◌, refl, inr, true, false, none, some, List, [], ◌∷◌, ok, arith,
}
use reliable_service_framewo.Prelude.Int.{pos, negsuc, ◌+ℤ◌, to_uint32}
use reliable_service_framewo.Wire.{ServiceModule, RequestModule, c_string}
use reliable_service_framewo.Time.{is_later, time_cmp, time_add_ms}
use reliable_service_framewo.Service.{increment, multiply2, get_service_body}
use reliable_service_framewo.Params.{serialize, deserialize}
use reliable_service_framewo.Params.RoundTrip.{deserialize-serialize}
use reliable_service_framewo.Client.{make_request}
use reliable_service_framewo.Server.Task.{task}
use reliable_service_framewo.Server.Task.Served.{task-make_request}
use reliable_service_framewo.Registrator.{signature, registration, register_service}
use reliable_service_framewo.Server
use reliable_service_framewo.Server.{
  Server, Action, send_reply, spawn, send_registration, connect, hc_item, reply_item, Uninit, Round,
  on_request, on_ping, on_message, duplicated_reply, pong_broker, check_broker, erase_last, receive,
  register, register_if_needed, step,
}
use reliable_service_framewo.Server.Sequence.{
  Request, on_requests, on_requests_consecutive, on_requests_stuck,
}
use reliable_service_framewo.Server.Liveness.{
  IsPolling, on_messages, run, run-IsPolling, losses_add_up,
}
use reliable_service_framewo.Tests.Data.{little, swap16, swap32, at_time}

abbrev unset : Uninit
unset = record { result = 77; duplicated = true }

-- A request with the text "4".
abbrev numbered : ℕ → Request
numbered n = record { received_id = n; parameters = b'4' ∷ 0 ∷ []; text = b'4' ∷ [] }

text_of_four : c_string (b'4' ∷ 0 ∷ []) ≡ ok (b'4' ∷ [])
unfolding c_string
text_of_four = refl

-- A registered server that has lost two pings, and expects this request.
abbrev server : ℕ → Server
server request_id = record {
  id = 1;
  service_type = 2;
  service = multiply2;
  ping_id = 5;
  request_id = request_id;
  broker_port = pos 6000;
  items = hc_item ∷ reply_item ∷ [];
  reg_ok = true;
  ping_loss = 2;
  deadline = at_time 4;
  send_reg = false;
}

on_requests_consecutive_example :
    on_requests little unset (numbered 8 ∷ numbered 9 ∷ numbered 10 ∷ []) (server 8)
    ≡ ok (server 11, spawn (b'4' ∷ []) ∷ spawn (b'4' ∷ []) ∷ spawn (b'4' ∷ []) ∷ [])
on_requests_consecutive_example =
    on_requests_consecutive little unset 8 (numbered 8) (numbered 9 ∷ numbered 10 ∷ []) (server 8)
      (inr refl) (refl, text_of_four, (refl, text_of_four, (refl, text_of_four, tt))) (omega arith)

on_requests_stuck_example :
    on_requests little unset (numbered 9 ∷ numbered 10 ∷ []) (server 8)
    ≡ ok (
      server 8,
      send_reply (duplicated_reply little unset (server 8))
          ∷ send_reply (duplicated_reply little unset (server 8))
          ∷ [],
    )
on_requests_stuck_example =
    on_requests_stuck little unset (numbered 9 ∷ numbered 10 ∷ []) (server 8) (omega arith)
      ((omega arith, text_of_four), ((omega arith, text_of_four), tt))

-- The registration socket delivers port 6000.
abbrev registering : Round
registering = record {
  message = none;
  hc_ping = false;
  received = some (swap16 6000);
  polled = at_time 1;
  handled = at_time 1;
  registered = at_time 1;
  expired = at_time 1;
  uninit = unset;
}

abbrev registered : Server
registered = record {
  id = 1;
  service_type = 2;
  service = multiply2;
  ping_id = 0;
  request_id = 0;
  broker_port = pos 6000;
  items = hc_item ∷ reply_item ∷ [];
  reg_ok = true;
  ping_loss = 0;
  deadline = record { tv_sec = 3; tv_nsec = 500_000_005 };
  send_reg = false;
}

abbrev done : List Action
done =
    send_registration (record { signature = signature; service = swap32 2 })
    ∷ connect (pos 6000)
    ∷ []

-- The server before its loop.
abbrev new_server : Server
new_server = record registered {
  broker_port = pos 0;
  items = hc_item ∷ [];
  reg_ok = false;
  deadline = at_time 0;
}

created : Server.create 1 2 (at_time 0) ≡ ok new_server
unfolding Server.create get_service_body
created = refl

run-registering : run little (registering ∷ []) new_server ≡ ok (registered, done)
unfolding run step receive register_if_needed register registration register_service check_broker
    is_later time_cmp time_add_ms
run-registering = refl

run-IsPolling_example : IsPolling registered
run-IsPolling_example =
    run-IsPolling little 1 2 (at_time 0) (registering ∷ []) created run-registering

abbrev a_ping : ServiceModule
a_ping = record { heartbeat = true; seq_id = swap32 5; parameters = [] }

-- The server behind that ping.
abbrev pinged : Server
pinged = record (server 8) { ping_id = 6; deadline = record { tv_sec = 5; tv_nsec = 500_000_005 } }

answered :
    on_messages little ((a_ping, at_time 3) ∷ []) unset (server 8)
    ≡ ok (pinged, send_reply (pong_broker little unset (server 8)) ∷ [])
unfolding on_messages on_message on_ping pong_broker time_add_ms
answered = refl

overdue : is_later (at_time 6) pinged.deadline ≡ true
unfolding is_later time_cmp
overdue = refl

losses_add_up_example :
    ((check_broker (at_time 6) (at_time 6) pinged).reg_ok ≡ false)
    × ((check_broker (at_time 6) (at_time 6) pinged).items ≡ erase_last (server 8).items)
losses_add_up_example =
    losses_add_up little ((a_ping, at_time 3) ∷ []) unset (at_time 6) (at_time 6) (server 8) refl
      refl answered overdue

doubled : multiply2 (negsuc 20) ≡ ok (negsuc 41)
unfolding multiply2 ◌+ℤ◌
doubled = refl

deserialize-serialize_example :
    deserialize 2 (serialize (pos 40 ∷ negsuc 2 ∷ [])) ≡ some (pos 40 ∷ negsuc 2 ∷ [])
deserialize-serialize_example =
    deserialize-serialize (pos 40 ∷ negsuc 2 ∷ []) (omega arith, (omega arith, tt))

incremented : increment (negsuc 0) ≡ ok (pos 0)
unfolding increment ◌+ℤ◌
incremented = refl

task-make_request_example :
    (rm : RequestModule) × (text : List ℕ) × (make_request little 2 (negsuc 20 ∷ []) (7 ∷ 7 ∷ [])
      ≡ ok rm)
    × (rm.service ≡ swap32 2)
    × (c_string rm.parameters ≡ ok text)
    × (task little 1 2 multiply2 text (pos 0)
        ≡ ok (record {
          heartbeat = false;
          duplicated = false;
          result = swap32 (to_uint32 (negsuc 41));
          service = swap32 2;
          id = 1;
        }))
task-make_request_example =
    task-make_request little 1 2 multiply2 (negsuc 20) (negsuc 41) (pos 0) (7 ∷ 7 ∷ [])
      (omega arith) doubled
