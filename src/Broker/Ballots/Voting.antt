-- ===== src/Broker/Ballots/Voting.antt =====
-- A reply to a client that waits (`get_response` of src/broker/broker_class.cpp) is a vote.
use reliable_service_framewo.Prelude.{
  ℕ, ◌^◌, ◌≤◌, ◌<◌, ◌≡◌, refl, ap, ◌∙◌, none, some, List, [], ◌∷◌, ◌==◌, length, length-append,
  arith, Bool-cases, Option-cases, inl, inr, Outcome, ok,
}
use reliable_service_framewo.Prelude.Int.{ℤ, pos, negsuc, IsInt32}
use reliable_service_framewo.Prelude.Map.{lookup-insert_self, insert_twice}
use reliable_service_framewo.Wire.{ByteOrder, IdFrame, service_available, service_not_reliable}
use reliable_service_framewo.Database.{
  ServiceRecord, RequestRecord, find, put, push_result, get_result, delete_request, delete_client,
}
use reliable_service_framewo.Database.Queue.Results.{push_to_client-results, push_to_client-count}
use reliable_service_framewo.Vote.Majority.{IsOpen}
use reliable_service_framewo.Broker.{Broker, Output}
use reliable_service_framewo.Broker.Response.{get_response, decide, answer, response}
use reliable_service_framewo.Broker.Response.Collect.{
  reply_of, get_response_lem, get_result_lem, decide_majority, decide_open,
}
use reliable_service_framewo.Broker.Ballots
use reliable_service_framewo.Broker.Ballots.{
  Answer, Election, Ballot, update, winner, winner-more, winner-none, leader-All, ask, cast, close,
  cast_asked, cast_void, decide_won, decide_all, decide-some, available, not_reliable,
  not_available,
}
use reliable_service_framewo.Broker.Ballots.Queue.{
  waits, votes_of, ballot_of, ballot_of-delete, delete-IsFair, with_vote, votes_with, votes_of-push,
  ballot_of-push, others_stay, push-IsFair, votes_with-IsInt32,
}
use reliable_service_framewo.Broker.Ballots.Kept.{Kept, put-Kept}
use reliable_service_framewo.Broker.Ballots.View.{
  election_of, ballot_if, election_of-put, update_twice, IsRunning, put-IsRunning, heard,
  heard_available, heard_not_reliable,
}

-- The run `m` from `b` comes back, does to the ballots what the specification says, and tells the
-- clients the answers that it gives; the broker is ready for more.
pub record Refines (bo : ByteOrder) (b : Broker) (m : Outcome (Broker × List Output))
    (spec : Election × List (IdFrame × Answer)) : Type 0 where
  pub next : Broker
  pub sent : List Output
  pub ran : m ≡ ok (next, sent)
  pub seen : election_of next.db ≡ spec.0
  pub told : heard bo sent ≡ spec.1
  pub running : IsRunning next
  pub kept : Kept b next

-- A reply to a client that waits.
module _ (bo : ByteOrder) (id_frame : IdFrame) (service id : ℕ) (x uninit : ℤ) (b : Broker)
    (r : ServiceRecord) (running : IsRunning b) (found : find service b.db ≡ some r)
    (hs : service < 2 ^ 32) (hx : IsInt32 x)
    (asked : 0 < waits r.request_records id_frame.client_id) where
  abbrev client : ℕ
  client = id_frame.client_id

  abbrev queue : List RequestRecord
  queue = with_vote client x r.request_records (negsuc 0) asked

  abbrev votes : List ℤ
  votes = votes_with client x r.request_records (negsuc 0) asked

  abbrev r1 : ServiceRecord
  r1 = record r { request_records = queue }

  abbrev b1 : Broker
  b1 = record b { db = put service r1 b.db }

  abbrev left : ServiceRecord
  left = record r { request_records = delete_client client queue }

  abbrev b2 : Broker
  b2 = record b { db = put service left b.db }

  once_with : waits queue client ≤ 1
  once_with = omega (
    arith,
    push_to_client-count client client x r.request_records (negsuc 0),
    (running.fair service r found).once client,
  )

  votes_read : votes_of queue client ≡ votes
  votes_read = votes_of-push client x r.request_records (negsuc 0) asked

  gathered :
      get_response bo (reply_of bo id_frame service id x) uninit b
      ≡ decide bo id_frame service (pos (length votes)) uninit b1
  unfolding push_result
  gathered =
      let counted = (push_to_client-results client x r.request_records [] (negsuc 0) asked).1 in
      get_response_lem bo id_frame service id x uninit b hs hx ∙ rw (found, counted)

  got : get_result service client b1.db ≡ ok votes
  got =
      get_result_lem b1 service client r1 votes (lookup-insert_self service r1 b.db.services_db)
        votes_read

  answered :
      (status : ℕ) (result : ℤ)
      → answer bo id_frame service status result b1
        ≡ ok (b2, response bo id_frame status result ∷ [])
  unfolding answer delete_request
  answered status result =
      rw
        (
          lookup-insert_self service r1 b.db.services_db,
          insert_twice service r1 left b.db.services_db,
        )
        refl

  b2-IsRunning : IsRunning b2
  b2-IsRunning = put-IsRunning b service r left running found refl refl (
      delete-IsFair b.nmr client queue running.some_copies once_with (
        others_stay client x r.request_records (negsuc 0) asked b.nmr
          (running.fair service r found)))

  b1-IsRunning : length votes < b.nmr → IsOpen b.nmr votes → IsRunning b1
  b1-IsRunning short open_still = put-IsRunning b service r r1 running found refl refl (
      push-IsFair client x r.request_records (negsuc 0) asked b.nmr (running.fair service r found)
        hx short open_still)

  b1_seen :
      election_of b1.db
      ≡ update
          (election_of b.db)
          service
          (some (update (ballot_of r.request_records) client (some votes)))
  b1_seen =
      election_of-put service r1 b.db
      ∙ ap (λ q. update (election_of b.db) service (some q))
          (ballot_of-push client x r.request_records (negsuc 0) asked)

  b2_seen :
      election_of b2.db
      ≡ update (election_of b.db) service (some (update (ballot_of r.request_records) client none))
  b2_seen =
      election_of-put service left b.db
      ∙ ap (λ q. update (election_of b.db) service (some q))
          (ballot_of-delete client queue once_with
            ∙ ap (λ q. update q client none)
                (ballot_of-push client x r.request_records (negsuc 0) asked)
            ∙ update_twice (ballot_of r.request_records) client (some votes) none)

  cast_lem :
      cast b.nmr service id_frame x (election_of b.db)
      ≡ Ballots.decide b.nmr service id_frame votes (ballot_of r.request_records) (election_of b.db)
  cast_lem =
      cast_asked b.nmr service id_frame x (election_of b.db) (ballot_of r.request_records)
        (ap ballot_if found) (votes_of r.request_records client) (ground (arith, asked))

  closed :
      (status : ℕ) (result : ℤ) (a : Answer)
      → decide bo id_frame service (pos (length votes)) uninit b1
        ≡ answer bo id_frame service status result b1
      → heard bo (response bo id_frame status result ∷ []) ≡ (id_frame, a) ∷ []
      → Refines bo b
          (get_response bo (reply_of bo id_frame service id x) uninit b)
          (close service id_frame a (ballot_of r.request_records) (election_of b.db))
  closed status result a decided hears = record {
    next = b2;
    sent = response bo id_frame status result ∷ [];
    ran = gathered ∙ decided ∙ answered status result;
    seen = b2_seen;
    told = hears;
    running = b2-IsRunning;
    kept = put-Kept b service r left found refl;
  }

  votes_short : length votes ≤ b.nmr
  votes_short = omega (
    arith,
    (running.fair service r found).missing client,
    length-append (votes_of r.request_records client) (x ∷ []),
  )

  votes_some : 0 < length votes
  votes_some = omega (arith, length-append (votes_of r.request_records client) (x ∷ []))

  decide-Refines :
      Refines bo b (get_response bo (reply_of bo id_frame service id x) uninit b) (
        Ballots.decide b.nmr service id_frame votes
          (ballot_of r.request_records)
          (election_of b.db))
  decide-Refines = elim (Option-cases (winner b.nmr votes)) [
    | inr (v, won) ↦
        let int32 =
          votes_with-IsInt32 client x r.request_records (negsuc 0) asked b.nmr
            (running.fair service r found) hx in
        rw
          (decide_won b.nmr service id_frame votes (ballot_of r.request_records) (election_of b.db)
            won)
          (closed service_available v (available v)
            (decide_majority bo id_frame service uninit b1 votes v got running.few_copies
              votes_short (winner-more b.nmr votes won))
            (heard_available bo id_frame v (leader-All IsInt32 b.nmr votes votes int32 won)))
    | inl nobody ↦
        let undecided =
          decide_open bo id_frame service uninit b1 votes got running.few_copies votes_short
            (winner-none b.nmr votes nobody) in
        elim (Bool-cases (length votes == b.nmr)) [
          | inl all ↦
              rw
                (decide_all b.nmr service id_frame votes (ballot_of r.request_records)
                  (election_of b.db) nobody all)
                (closed service_not_reliable uninit not_reliable
                  (undecided ∙ ground (arith, running.some_copies))
                  (heard_not_reliable bo id_frame uninit))
          | inr some_missing ↦
              rw
                (decide-some b.nmr service id_frame votes (ballot_of r.request_records)
                  (election_of b.db) nobody some_missing)
                (record {
                  next = b1;
                  sent = [];
                  ran = gathered ∙ undecided ∙ rw some_missing;
                  seen = b1_seen;
                  told = unfold heard in refl;
                  running =
                      b1-IsRunning (ground (arith, votes_short)) (winner-none b.nmr votes nobody);
                  kept = put-Kept b service r r1 found refl;
                })
        ]
  ]

  pub vote-Refines :
      Refines bo b
        (get_response bo (reply_of bo id_frame service id x) uninit b)
        (cast b.nmr service id_frame x (election_of b.db))
  vote-Refines = rw cast_lem decide-Refines
