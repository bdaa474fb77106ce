-- ===== src/Tests/OfSystem.antt =====
-- `request_service` of include/rsf_api.hpp: client 7 asks for DECREMENT of 4 at three copies.
use reliable_service_framewo.Prelude.{
  none, ℕ, ◌≡◌, refl, inl, inr, List, [], ◌∷◌, map, replicate, true, false, Option, some, Outcome,
  ok, arith,
}
use reliable_service_framewo.Prelude.Int.{ℤ, pos, negsuc, ◌+ℤ◌}
use reliable_service_framewo.Prelude.Map.{lookup, insert}
use reliable_service_framewo.Broker.{Broker, index_of}
use reliable_service_framewo.Broker.Request.Accepted.{IsServing}
use reliable_service_framewo.Broker.Response.Collect.{Settled}
use reliable_service_framewo.Service.{increment, decrement}
use reliable_service_framewo.Server.{hc_item, reply_item}
use reliable_service_framewo.System.{Readings, Copy, Call, call_all, Part, running, request_service}
use reliable_service_framewo.System.Masking.{request_service_masks_faults, request_service_refuses}
use reliable_service_framewo.Database.{find}
use reliable_service_framewo.System.Unavailable.{request_service_unavailable}
use reliable_service_framewo.System.Ready.{Ready}
use reliable_service_framewo.System.Replies.{next_copy}
use reliable_service_framewo.System.Trials.{Trial, copies_in}
use reliable_service_framewo.System.Session.{call_all_masks_faults}
use reliable_service_framewo.Tests.Data.{little, at_time, a_client, broker, three_copies}

-- A copy of DECREMENT, that runs some function, and expects this request.
abbrev copy : ℕ → (ℤ → Outcome ℤ) → ℕ → Part
copy id service request_id = (
  running (record {
    id = id;
    service_type = 1;
    service = service;
    ping_id = 5;
    request_id = request_id;
    broker_port = pos 6000;
    items = hc_item ∷ reply_item ∷ [];
    reg_ok = true;
    ping_loss = 0;
    deadline = at_time 4;
    send_reg = false;
  }),
  record {
    handled = at_time 3;
    uninit = record { result = 0; duplicated = true };
    unread = pos 0;
    result = pos 99;
  },
)

serving : IsServing 1 (broker 1 [])
unfolding lookup insert index_of
serving = record {
  entry = three_copies [];
  found = refl;
  dealer = omega arith;
  timed = omega arith;
}

decremented : decrement (pos 4) ≡ ok (pos 3)
unfolding decrement ◌+ℤ◌
decremented = refl

incremented : increment (pos 4) ≡ ok (pos 5)
unfolding increment ◌+ℤ◌
incremented = refl

-- The second copy computes something else, and the third has restarted.
abbrev one_faulty : List (Part × Option ℤ)
one_faulty =
    (copy 0 decrement 11, some (pos 3))
    ∷ (copy 1 increment 11, some (pos 5))
    ∷ (copy 2 decrement 0, some (pos 3))
    ∷ []

request_service_masks_faults_example :
    (b' : Broker) × (request_service little a_client []
        (at_time 1)
        (at_time 2)
        0
        1
        (pos 4 ∷ [])
        (pos 77)
        (map (λ p. p.0) one_faulty)
        (broker 1 [])
      ≡ ok (b', map (next_copy 11) one_faulty, (true, pos 3)))
    × Settled 1 7 b'
    × Ready 1 12 3 3 b'
unfolding serving
request_service_masks_faults_example =
    request_service_masks_faults little a_client 1 (pos 4) [] (omega arith) (omega arith)
      (at_time 1) (at_time 2) 0 (pos 77) (broker 1 []) serving 12 one_faulty (pos 3) refl
      (omega arith) (omega arith) refl (omega arith) (omega arith)
      (
        (refl, inr refl, omega arith, decremented),
        (
          (refl, inr refl, omega arith, incremented),
          ((refl, inl refl, omega arith, decremented), tt),
        ),
      )
      (omega arith) (omega arith)

abbrev fails : ℤ → Outcome ℤ
fails x = ok (negsuc 0)

abbrev all_differ : List (Part × Option ℤ)
all_differ =
    (copy 0 decrement 11, some (pos 3))
    ∷ (copy 1 increment 11, some (pos 5))
    ∷ (copy 2 fails 11, some (negsuc 0))
    ∷ []

request_service_refuses_example :
    (b' : Broker) × (request_service little a_client []
        (at_time 1)
        (at_time 2)
        0
        1
        (pos 4 ∷ [])
        (pos 77)
        (map (λ p. p.0) all_differ)
        (broker 1 [])
      ≡ ok (b', map (next_copy 11) all_differ, (false, pos 77)))
    × Settled 1 7 b'
unfolding serving
request_service_refuses_example =
    request_service_refuses little a_client 1 (pos 4) [] (omega arith) (omega arith) (at_time 1)
      (at_time 2) 0 (pos 77) (broker 1 []) serving 12 all_differ refl (omega arith) (omega arith)
      refl refl (omega arith) (omega arith)
      (
        (refl, inr refl, omega arith, decremented),
        ((refl, inr refl, omega arith, incremented), ((refl, inr refl, omega arith, refl), tt)),
      )
      (λ v. ground arith)

-- Copies, with what they return.
abbrev in_session : List Trial
in_session = map (λ (p, w). (p.0, w)) one_faulty

abbrev readings_of : ℕ → Readings
readings_of i = record {
  handled = at_time i;
  uninit = record { result = i; duplicated = true };
  unread = pos i;
  result = pos 99;
}

abbrev at_second : ℕ → Call
at_second n = record {
  uninit_parameters = n ∷ [];
  pushed = at_time n;
  postponed = at_time n;
  uninit = n;
  readings = readings_of;
}

-- The five calls of the client.
abbrev five_calls : List Call
five_calls = at_second 1 ∷ at_second 2 ∷ at_second 3 ∷ at_second 4 ∷ at_second 5 ∷ []

ready : Ready 1 11 3 3 (broker 1 [])
unfolding serving
ready = record { serving = serving; numbered = refl; reliable = refl; redundancy = refl }

nothing_pending : Settled 1 7 (broker 1 [])
unfolding lookup insert
nothing_pending = record { entry = three_copies []; found = refl; gone = refl }

call_all_masks_faults_example :
    (b' : Broker) × (copies' : List Copy) × (call_all little a_client 1
        (pos 4 ∷ [])
        five_calls
        (pos 77)
        (copies_in in_session)
        (broker 1 [])
      ≡ ok (b', copies', replicate 5 (true, pos 3)))
    × Ready 1 16 3 3 b'
call_all_masks_faults_example =
    call_all_masks_faults little a_client 1 (pos 4) (pos 3) 3 16 (omega arith) (omega arith)
      (omega arith) (omega arith) (omega arith) five_calls 11 in_session (pos 77) (broker 1 [])
      ready nothing_pending (omega arith) (omega arith)
      (
        (refl, inr refl, omega arith, decremented),
        (
          (refl, inr refl, omega arith, incremented),
          ((refl, inl refl, omega arith, decremented), tt),
        ),
      )
      (omega arith)

increment_unknown : find 0 (broker 1 []).db ≡ none
unfolding lookup insert
increment_unknown = refl

request_service_unavailable_example :
    request_service little a_client []
      (at_time 1)
      (at_time 2)
      0
      0
      (pos 4 ∷ [])
      (pos 77)
      (copy 0 increment 11 ∷ [])
      (broker 1 [])
    ≡ ok (broker 1 [], map (λ p. p.0) (copy 0 increment 11 ∷ []), (false, pos 77))
request_service_unavailable_example =
    request_service_unavailable little a_client [] (at_time 1) (at_time 2) 0 0 (pos 4) (pos 77)
      (copy 0 increment 11 ∷ []) (broker 1 []) (omega arith) increment_unknown
