-- ===== src/Tests/OfBallots.antt =====
-- src/broker/broker_class.cpp: two clients ask for INCREMENT and DECREMENT at a broker with three
-- copies of the second.
use mathlib.Core.Path.{subst}
use reliable_service_framewo.Prelude.{
  true, ℕ, ◌≡◌, refl, sym, ◌∙◌, List, [], ◌∷◌, none, some, ok, arith, ◌<◌, Bool-cases, inl, inr,
  ◌==◌, length,
}
use reliable_service_framewo.Prelude.Int.{pos}
use reliable_service_framewo.Prelude.Map.{lookup, insert, lookup-insert}
use reliable_service_framewo.Wire.{IdFrame, RequestModule}
use reliable_service_framewo.Database.{ServiceRecord, find, results_of_client}
use reliable_service_framewo.Broker.{Broker, Output, index_of}
use reliable_service_framewo.Broker.Ballots
use reliable_service_framewo.Broker.Ballots.{available, not_available, leader}
use reliable_service_framewo.Broker.Ballots.Queue.{IsFair, ballot_of}
use reliable_service_framewo.Broker.Ballots.View.{election_of, IsRunning, heard}
use reliable_service_framewo.Broker.Ballots.Events.{
  Event, request, reply, pong, refused, handle_all, elect, elect_all, ArePlausible,
}
use reliable_service_framewo.Broker.Ballots.Refinement.{handle_all_refines}
use reliable_service_framewo.Broker.Ballots.Late.{late_reply, late_reply_decides}
use reliable_service_framewo.Tests.Data.{little, swap32, at_time, broker, three_copies}

abbrev idle_broker : Broker
idle_broker = broker 1 []

abbrev client : ℕ → IdFrame
client c = record { lead = 0; client_id = c }

only_entry :
    (s : ℕ) (r : ServiceRecord) → find s idle_broker.db ≡ some r → (s ≡ 1) × (three_copies [] ≡ r)
unfolding lookup
only_entry s r e =
    let stored = sym (lookup-insert 1 s (three_copies []) []) ∙ e in
    elim (Bool-cases (1 == s)) [
      | inl same ↦ let q : some (three_copies []) ≡ some r = rw same at stored in (ground arith, cc)
      | inr other ↦ let q : none ≡ some r = rw other at stored in absurd (cc)
    ]

no_requests-IsFair : IsFair 3 []
unfolding results_of_client
no_requests-IsFair = record {
  once = λ c. omega arith;
  missing = λ c. omega arith;
  int32 = λ c. tt;
  undecided = λ c v. omega arith;
}

idle_broker-IsRunning : IsRunning idle_broker
unfolding index_of
idle_broker-IsRunning = record {
  some_copies = omega arith;
  few_copies = omega arith;
  dealt = λ s r e.
      subst (λ (q : ServiceRecord). q.dealer_skt_index < 1) (only_entry s r e).1 (omega arith);
  timed =
      λ s r e. subst (λ (k : ℕ). index_of k (1 ∷ []) < 1) (sym (only_entry s r e).0) (omega arith);
  pongs = λ s r e. subst (λ (q : ServiceRecord). length q.new_pong ≡ 3) (only_entry s r e).1 refl;
  fair = λ s r e.
      subst (λ (q : ServiceRecord). IsFair 3 q.request_records) (only_entry s r e).1
        no_requests-IsFair;
}

abbrev asks : ℕ → ℕ → Event
asks c service =
    request
      (record {
        id_frame = client c;
        data_frame = record { service = swap32 service; parameters = b'4' ∷ b' ' ∷ 0 ∷ [] };
      })
      (at_time 1) (at_time 2) 0

abbrev returns : ℕ → ℕ → ℕ → Event
returns c id n = reply (client c) 1 id (pos n) (pos 0)

-- The copy 1 is wrong, the reply of the copy 0 to the client 9 comes in between, and the last reply is
-- void.
abbrev traffic : List Event
traffic =
    asks 7 0
    ∷ asks 7 1
    ∷ asks 9 1
    ∷ returns 7 1 12
    ∷ pong (client 0) 1 2 true 5 (pos 0)
    ∷ returns 9 0 5
    ∷ refused (client 9) 1 2 6 (pos 0)
    ∷ returns 7 0 3
    ∷ returns 7 2 3
    ∷ returns 7 2 3
    ∷ []

traffic-ArePlausible : ArePlausible little 3 (election_of idle_broker.db) traffic
unfolding lookup insert elect Ballots.ask Ballots.cast Ballots.decide leader
traffic-ArePlausible = (
  tt,
  (
    refl,
    (
      refl,
      (
        (omega arith, omega arith, tt),
        (
          (omega arith, omega arith, tt),
          (
            (omega arith, omega arith, tt),
            (
              tt,
              (
                (omega arith, omega arith, tt),
                ((omega arith, omega arith, tt), ((omega arith, omega arith, tt), tt)),
              ),
            ),
          ),
        ),
      ),
    ),
  ),
)

traffic_answers :
    (elect_all little 3 traffic (election_of idle_broker.db)).1
    ≡ (client 7, not_available) ∷ (client 7, available (pos 3)) ∷ []
unfolding elect_all lookup insert elect Ballots.ask Ballots.cast Ballots.decide leader
traffic_answers = refl

handle_all_refines_example :
    (b' : Broker) × (sent : List Output) × (handle_all little traffic idle_broker ≡ ok (b', sent))
    × (election_of b'.db ≡ (elect_all little 3 traffic (election_of idle_broker.db)).0)
    × (heard little sent ≡ (elect_all little 3 traffic (election_of idle_broker.db)).1)
    × IsRunning b'
handle_all_refines_example =
    handle_all_refines little traffic idle_broker idle_broker-IsRunning traffic-ArePlausible

abbrev increment_four : RequestModule
increment_four = record { service = swap32 1; parameters = b'4' ∷ b' ' ∷ 0 ∷ [] }

-- The copies 0 and 1 return 3, and the copy 2 returns 5.
abbrev late_traffic : List Event
late_traffic =
    late_reply little 1 (client 7) at_time (λ n. n) (λ n. pos n) increment_four increment_four 0 1 2
      (pos 3) (pos 5)

no_votes : election_of idle_broker.db 1 ≡ some (ballot_of [])
unfolding lookup insert
no_votes = refl

late_reply_decides_example :
    (b' : Broker) × (sent : List Output) × (handle_all little late_traffic idle_broker
      ≡ ok (b', sent))
    × (heard little sent ≡ (client 7, available (pos 3)) ∷ (client 7, available (pos 5)) ∷ [])
late_reply_decides_example =
    late_reply_decides little idle_broker 1 0 1 2 (client 7) increment_four increment_four at_time
      (λ n. n) (λ n. pos n) (pos 3) (pos 5) (ballot_of []) idle_broker-IsRunning refl (omega arith)
      (omega arith) (omega arith) (refl, refl) no_votes refl
