-- ===== src/Broker/Ballots/Refinement.antt =====
-- Requests and replies of any number of clients and services, in any order: the handlers of
-- src/broker/broker_class.cpp against the ballots.
use reliable_service_framewo.Prelude.{
  set, Bool, true, length, length-set, ℕ, ◌^◌, ◌<◌, ◌≡◌, refl, ap, ◌∙◌, some, List, [], ◌∷◌, ◌++◌,
  ltb, arith, Bool-cases, Option-cases, inl, inr, ok,
}
use reliable_service_framewo.Prelude.Int.{ℤ, negsuc, IsInt32}
use reliable_service_framewo.Wire.{ByteOrder, IdFrame}
use reliable_service_framewo.Database.{register_pong, ServiceRecord, find, put, push_result}
use reliable_service_framewo.Database.Queue.Results.{push_to_client_none}
use reliable_service_framewo.Broker.{Broker, Output}
use reliable_service_framewo.Broker.Response.{get_response, decide}
use reliable_service_framewo.Broker.Response.Collect.{reply_of, get_response_lem}
use reliable_service_framewo.Broker.Ballots.{cast, cast_void}
use reliable_service_framewo.Broker.Ballots.Queue.{waits, ballot_of}
use reliable_service_framewo.Broker.Ballots.Kept.{Kept-refl, put-Kept}
use reliable_service_framewo.Broker.Ballots.View.{
  election_of, ballot_if, election_of-put, update_same, IsRunning, put-IsRunning, heard,
  heard-append,
}
use reliable_service_framewo.Broker.Ballots.Voting.{Refines, vote-Refines}
use reliable_service_framewo.Broker.Ballots.Events.{
  Event, request, reply, pong, refused, signal, IsKnown, handle, elect, IsPlausible, handle_all,
  elect_all, ArePlausible,
}
use reliable_service_framewo.Broker.Ballots.Asking.{request-Refines}

module _ (bo : ByteOrder) where
  void-Refines :
      (id_frame : IdFrame) (service id : ℕ) (x uninit : ℤ) (b : Broker) (r : ServiceRecord)
      → IsRunning b
      → find service b.db ≡ some r
      → service < 2 ^ 32
      → IsInt32 x
      → waits r.request_records id_frame.client_id ≡ 0
      → Refines bo b
          (get_response bo (reply_of bo id_frame service id x) uninit b)
          (cast b.nmr service id_frame x (election_of b.db))
  unfolding push_result decide heard
  void-Refines id_frame service id x uninit b r running found hs hx gone =
      let same = push_to_client_none id_frame.client_id x r.request_records (negsuc 0) gone in
      rw
        (cast_void b.nmr service id_frame x (election_of b.db) (ballot_of r.request_records)
          (ap ballot_if found) (ground (arith, gone)))
        (record {
          next = record b { db = put service r b.db };
          sent = [];
          ran =
              get_response_lem bo id_frame service id x uninit b hs hx
              ∙ rw (found, same) (ground arith);
          seen =
              election_of-put service r b.db
              ∙ update_same (election_of b.db) service (some (ballot_of r.request_records))
                  (ap ballot_if found);
          told = refl;
          running =
              put-IsRunning b service r r running found refl refl (running.fair service r found);
          kept = put-Kept b service r r found refl;
        })

  pub reply-Refines :
      (id_frame : IdFrame) (service id : ℕ) (x uninit : ℤ) (b : Broker)
      → IsRunning b
      → service < 2 ^ 32
      → IsInt32 x
      → IsKnown (election_of b.db service)
      → Refines bo b
          (get_response bo (reply_of bo id_frame service id x) uninit b)
          (cast b.nmr service id_frame x (election_of b.db))
  reply-Refines id_frame service id x uninit b running hs hx known =
      elim (Option-cases (find service b.db)) [
        | inl missing ↦ absurd (rw missing at known)
        | inr (r, found) ↦ elim (Bool-cases (ltb 0 (waits r.request_records id_frame.client_id))) [
          | inl asked ↦
              vote-Refines bo id_frame service id x uninit b r running found hs hx (ground arith)
          | inr gone ↦
              void-Refines id_frame service id x uninit b r running found hs hx (ground arith)
        ]
      ]

  pub pong-Refines :
      (id_frame : IdFrame) (service id : ℕ) (flag : Bool) (word : ℕ) (uninit : ℤ) (b : Broker)
      → IsRunning b
      → service < 2 ^ 32
      → id < b.nmr
      → IsKnown (election_of b.db service)
      → Refines bo b
          (get_response bo (signal bo id_frame service id true flag word) uninit b)
          (election_of b.db, [])
  unfolding get_response register_pong heard
  pong-Refines id_frame service id flag word uninit b running hs hi known =
      elim (Option-cases (find service b.db)) [
        | inl missing ↦ absurd (rw missing at known)
        | inr (r, found) ↦
            let answered = record r { new_pong = set r.new_pong id true } in
            let present : ltb id (length r.new_pong) ≡ true =
              ground (arith, running.pongs service r found) in
            record {
              next = record b { db = put service answered b.db };
              sent = [];
              ran = rw (bo.ntohl_htonl service hs) (rw found (rw present refl));
              seen =
                  election_of-put service answered b.db
                  ∙ update_same (election_of b.db) service (some (ballot_of r.request_records))
                      (ap ballot_if found);
              told = refl;
              running =
                  put-IsRunning b service r answered running found refl
                    (length-set r.new_pong id true) (running.fair service r found);
              kept = put-Kept b service r answered found refl;
            }
      ]

  event-Refines :
      (ev : Event) (b : Broker)
      → IsRunning b
      → IsPlausible bo b.nmr (election_of b.db) ev
      → Refines bo b (handle bo ev b) (elect bo b.nmr ev (election_of b.db))
  unfolding handle elect
  event-Refines (request e pushed postponed uninit) b running plausible =
      request-Refines bo e pushed postponed uninit b running plausible
  event-Refines (reply id_frame service id x uninit) b running (hs, hx, known) =
      reply-Refines id_frame service id x uninit b running hs hx known
  event-Refines (pong id_frame service id flag word uninit) b running (hs, hi, known) =
      pong-Refines id_frame service id flag word uninit b running hs hi known
  event-Refines (refused id_frame service id word uninit) b running plausible = record {
    next = b;
    sent = [];
    ran = unfold get_response in refl;
    seen = refl;
    told = unfold heard in refl;
    running = running;
    kept = Kept-refl b;
  }

  -- For a running broker (every known service has a dealer, a timeout and `nmr` entries for pongs,
  -- no client waits twice for a service, who waits has fewer than `nmr` results, `int32_t` values
  -- with no majority among them, and `nmr` is from 1 to 128), any sequence of requests, replies,
  -- pongs and refusals of copies is handled with a result, in which a client asks a known service
  -- again only behind its answer, the replies are of known services and `int32_t` values, and the
  -- pongs of copies below `nmr` of known services: the pending requests and their results are the
  -- ballots that the specification keeps, the clients are told exactly the answers that it gives,
  -- in its order, and the broker is running again.
  pub handle_all_refines :
      (evs : List Event) (b : Broker)
      → IsRunning b
      → ArePlausible bo b.nmr (election_of b.db) evs
      → (b' : Broker) × (sent : List Output) × (handle_all bo evs b ≡ ok (b', sent))
        × (election_of b'.db ≡ (elect_all bo b.nmr evs (election_of b.db)).0)
        × (heard bo sent ≡ (elect_all bo b.nmr evs (election_of b.db)).1)
        × IsRunning b'
  unfolding handle_all elect_all heard
  handle_all_refines [] b running plausible = (b, [], refl, refl, refl, running)
  handle_all_refines (ev ∷ evs) b running (plausible, later) =
      let first = event-Refines ev b running plausible in
      let later' : ArePlausible bo first.next.nmr (election_of first.next.db) evs =
        rw (first.kept.nmr, first.seen) later in
      let (b', sent, ran, seen, told, running') =
        handle_all_refines evs first.next first.running later' in
      let same =
        ap (λ n. elect_all bo n evs (election_of first.next.db)) first.kept.nmr
        ∙ ap (elect_all bo b.nmr evs) first.seen in
      (
        b',
        first.sent ++ sent,
        rw (first.ran, ran) refl,
        seen ∙ ap (λ p. p.0) same,
        heard-append bo first.sent sent
            ∙ ap (λ answers. answers ++ heard bo sent) first.told
            ∙ ap (◌++◌ (elect bo b.nmr ev (election_of b.db)).1) (told ∙ ap (λ p. p.1) same),
        running',
      )
