-- ===== src/Tests/OfSteady.antt =====
-- src/broker/broker_class.cpp: rounds of a broker with three copies of INCREMENT, for which two
-- clients wait.
use mathlib.Core.Path.{subst}
use reliable_service_framewo.Prelude.{
  true, false, ℕ, ◌+◌, ◌<◌, ◌≡◌, refl, sym, ◌∙◌, List, [], ◌∷◌, none, some, ok, arith, Bool-cases,
  inl, inr, ◌==◌, length, All, Ensures-always,
}
use reliable_service_framewo.Prelude.Int.{pos, IsInt32}
use reliable_service_framewo.Prelude.Map.{lookup, insert, lookup-insert}
use reliable_service_framewo.Wire.{ServerReply, Envelope}
use reliable_service_framewo.Database.{ServiceRecord, RequestRecord, find, results_of_client}
use reliable_service_framewo.Broker.{Broker, Output, index_of}
use reliable_service_framewo.Broker.Step.{Round, step, run}
use reliable_service_framewo.Broker.Pending.{check_pending_requests}
use reliable_service_framewo.Broker.Ballots.Queue.{IsFair, votes_of}
use reliable_service_framewo.Broker.Ballots.View.{IsRunning, heard}
use reliable_service_framewo.Broker.Steady.{IsSteady, Lasts}
use reliable_service_framewo.Broker.Steady.Tally.{answers}
use reliable_service_framewo.Broker.Steady.Accounts.{pending}
use reliable_service_framewo.Broker.Steady.Sweeping.{
  without_late, all_refused, check_pending_requests_lem,
}
use reliable_service_framewo.Broker.Steady.Rounds.{IsPlausibleRound, NoneLate}
use reliable_service_framewo.Broker.Steady.Runs.{
  ArePlausibleRounds, all_asked, step-NoneLate, run_balances,
}
use reliable_service_framewo.Tests.Data.{little, swap32, at_time, broker, three_copies, waiting}

-- One copy has replied to client 8.
abbrev queue : List RequestRecord
queue = waiting 8 (pos 4 ∷ []) ∷ waiting 7 [] ∷ []

abbrev busy : Broker
busy = broker 0 queue

only_entry :
    (s : ℕ) (r : ServiceRecord) → find s busy.db ≡ some r → (s ≡ 0) × (three_copies queue ≡ r)
unfolding lookup
only_entry s r e =
    let stored = sym (lookup-insert 0 s (three_copies queue) []) ∙ e in
    elim (Bool-cases (0 == s)) [
      | inl same ↦
          let q : some (three_copies queue) ≡ some r = rw same at stored in (ground arith, cc)
      | inr other ↦ let q : none ≡ some r = rw other at stored in absurd (cc)
    ]

queue-IsInt32 : (c : ℕ) → All IsInt32 (votes_of queue c)
unfolding results_of_client
queue-IsInt32 c = elim (Bool-cases (7 == c)) [
  | inl seven ↦ rw seven tt
  | inr other ↦ elim (Bool-cases (8 == c)) [
    | inl eight ↦ rw (other, eight) (omega arith, tt)
    | inr neither ↦ rw (other, neither) tt
  ]
]

queue-IsFair : IsFair 3 queue
unfolding results_of_client
queue-IsFair = record {
  once = λ c. ground arith;
  missing = λ c. ground arith;
  int32 = queue-IsInt32;
  undecided = λ c v. ground arith;
}

busy-IsRunning : IsRunning busy
unfolding index_of
busy-IsRunning = record {
  some_copies = omega arith;
  few_copies = omega arith;
  dealt = λ s r e.
      subst (λ (q : ServiceRecord). q.dealer_skt_index < 1) (only_entry s r e).1 (omega arith);
  timed =
      λ s r e. subst (λ (k : ℕ). index_of k (0 ∷ []) < 1) (sym (only_entry s r e).0) (omega arith);
  pongs = λ s r e. subst (λ (q : ServiceRecord). length q.new_pong ≡ 3) (only_entry s r e).1 refl;
  fair = λ s r e.
      subst (λ (q : ServiceRecord). IsFair 3 q.request_records) (only_entry s r e).1 queue-IsFair;
}

busy-IsSteady : IsSteady busy
unfolding lookup insert
busy-IsSteady = record {
  running = busy-IsRunning;
  consistent = record { dealers_match = refl; timeouts_match = refl; nmr_match = refl };
  numbered = (refl, tt);
  known = (tt, tt);
  losses = λ s r e. subst (λ (q : ServiceRecord). length q.lost_pong ≡ 3) (only_entry s r e).1 refl;
}

check_pending_requests_lem_example :
    (b' : Broker) × (sent : List Output) × (check_pending_requests little (at_time 20) (pos 0) busy
      ≡ ok (b', sent))
    × ((s : ℕ) → find s b'.db ≡ without_late (at_time 20) (find s busy.db))
    × (heard little sent ≡ all_refused (at_time 20) (0 ∷ []) busy.db)
    × Lasts busy b'
check_pending_requests_lem_example =
    check_pending_requests_lem little (at_time 20) (pos 0) busy busy-IsSteady

-- A health checker pings, a fourth copy registers, client 9 asks, a copy replies to client 8 and
-- another one sends a pong, the heartbeat timeout has passed, and that of the requests.
abbrev pub reply_from : ℕ → ℕ → Envelope ServerReply
reply_from c n = record {
  id_frame = record { lead = 0; client_id = c };
  data_frame = record {
    heartbeat = false;
    duplicated = false;
    result = swap32 n;
    service = 0;
    id = 1;
  };
}

abbrev full_round : Round
full_round = record {
  ping = true;
  registration = some (record {
    id_frame = record { lead = 0; client_id = 3 };
    data_frame = record { signature = b's' ∷ 0 ∷ []; service = 0 };
  });
  request = some (record {
    id_frame = record { lead = 0; client_id = 9 };
    data_frame = record { service = 0; parameters = b'4' ∷ b' ' ∷ 0 ∷ [] };
  });
  replies = some (reply_from 8 4) ∷ [];
  now = at_time 8;
  armed = at_time 8;
  pushed = at_time 8;
  postponed = at_time 8;
  rearmed = at_time 8;
  checked = at_time 10;
  uninit = pos 0;
  uninit_parameters = [];
}

abbrev pub empty_round : Round
empty_round = record (full_round) {
  ping = false;
  registration = none;
  request = none;
  replies = [];
  checked = at_time 20;
}

full_round-IsPlausible : IsPlausibleRound little full_round busy
unfolding lookup insert results_of_client
full_round-IsPlausible = record {
  registration = tt;
  request = refl;
  replies = ((omega arith, omega arith, λ beat. absurd (cc), tt), tt);
}

step-NoneLate_example :
    (b' : Broker) × (sent : List Output) × (step little full_round busy ≡ ok (b', sent))
    × IsSteady b'
    × NoneLate (at_time 10) b'
step-NoneLate_example = step-NoneLate little full_round busy busy-IsSteady full_round-IsPlausible

pub empty-ArePlausible : (b : Broker) → ArePlausibleRounds little (empty_round ∷ []) b
empty-ArePlausible b = (
  record { registration = tt; request = tt; replies = tt },
  Ensures-always (step little empty_round b) λ p. tt,
)

both-ArePlausible : ArePlausibleRounds little (full_round ∷ empty_round ∷ []) busy
both-ArePlausible = (
  full_round-IsPlausible,
  Ensures-always (step little full_round busy) λ p. empty-ArePlausible p.0,
)

run_balances_example :
    (b' : Broker) × (sent : List Output) × (run little (full_round ∷ empty_round ∷ []) busy
      ≡ ok (b', sent))
    × IsSteady b'
    × ((c : ℕ)
        → answers c (heard little sent) + pending c b'
          ≡ pending c busy + all_asked little (full_round ∷ empty_round ∷ []) c)
run_balances_example =
    run_balances little (full_round ∷ empty_round ∷ []) busy busy-IsSteady both-ArePlausible
