-- ===== src/Broker/Steady/Lifetime.antt =====
-- The broker (src/broker/broker_class.cpp) from its constructor on: its services register, and then it
-- serves.
use reliable_service_framewo.Prelude.{
  ℕ, ◌+◌, ◌^◌, ◌≤◌, ◌<◌, ◌≡◌, refl, ap, ◌∙◌, some, List, [], ◌∷◌, ◌++◌, length, map, ok, Ensures,
  Ensures-ok, Returns-ok, Option-cases, inl, inr, arith,
}
use reliable_service_framewo.Wire.{ByteOrder}
use reliable_service_framewo.Database.{Database, ServiceRecord, find}
use reliable_service_framewo.Broker.{Broker, Output, create}
use reliable_service_framewo.Broker.Step.{Round, Handler, then_run-ok, run}
use reliable_service_framewo.Broker.Step.Sequence.{run-append}
use reliable_service_framewo.Broker.Ballots.View.{heard, heard-append}
use reliable_service_framewo.Broker.Steady.Tally.{answers}
use reliable_service_framewo.Broker.Steady.Accounts.{pending, waits_for}
use reliable_service_framewo.Broker.Steady.Runs.{ArePlausibleRounds, all_asked, run_balances}
use reliable_service_framewo.Broker.Steady.Startup.{Registering}
use reliable_service_framewo.Broker.Steady.Startup.Quiet.{AreClose}
use reliable_service_framewo.Broker.Steady.Startup.Loop.{rounds_of, AreReadings}
use reliable_service_framewo.Broker.Steady.Startup.Rounds.{in_sequence, run-register_services}
use reliable_service_framewo.Time.{TimeSpec}
use reliable_service_framewo.Broker.Steady.Startup.Started.{
  AreServices, Started, create-IsStarting, register_services, register_services-Started,
}

-- No request is pending at first.
waits_for-none :
    (c : ℕ) (db : Database) (ss : List ℕ)
    → ((s : ℕ) (r : ServiceRecord) → find s db ≡ some r → r.request_records ≡ [])
    → waits_for c db ss ≡ 0
waits_for-none c db [] h = refl
waits_for-none c db (s ∷ ss) h = elim (Option-cases (find s db)) [
  | inl missing ↦ rw missing (omega (arith, waits_for-none c db ss h))
  | inr (r, found) ↦ rw (found, h s r found) (omega (arith, waits_for-none c db ss h))
]

module _ (bo : ByteOrder) where
  -- The loop: rounds in which the copies register, and the rounds behind them.
  abbrev pub lifetime : List (Registering × Round) → List Round → Handler
  lifetime ps rs = run bo (rounds_of ps ++ rs)

  -- From the constructor, with `nmr` from 2 to 128: when the copies of fewer than 65536 services
  -- register, of the types 0, 1, 2 and so on in this order, each with `nmr` copies one behind the
  -- other, the first with a text as its signature, each in a round of the loop in which no other
  -- message comes in, with readings of the clock so close that no heartbeat timeout is over at any
  -- of them, and any rounds follow, in which a copy registers for a known service or none does, a
  -- client asks a service that is not known or for which it does not wait, or none does, the
  -- replies are of known services, and the pongs of copies below `nmr`, whatever the clock says,
  -- and whatever value a local variable has that is read before it is set, then the broker comes
  -- back from all these rounds, and of each client as many requests are answered or still pending
  -- at the end as came in.
  pub lifetime_balances :
      (nmr : ℕ) (services : List (List Registering)) (ps : List (Registering × Round))
      (rs : List Round) (IsReading : TimeSpec → Type 0)
      → 2 ≤ nmr
      → nmr ≤ 128
      → length services < 2 ^ 16
      → AreServices bo nmr 0 services
      → map (λ p. p.0) ps ≡ in_sequence services
      → AreClose IsReading
      → AreReadings IsReading ps
      → Ensures (λ p. ArePlausibleRounds bo rs p.0) (run bo (rounds_of ps) (create nmr))
      → (b : Broker) × (sent : List Output) × (lifetime ps rs (create nmr) ≡ ok (b, sent))
        × ((c : ℕ) → answers c (heard bo sent) + pending c b ≡ all_asked bo rs c)
  unfolding create
  lifetime_balances nmr services ps rs IsReading many few room are_services sequence close readings
        plausible =
      let (first, ran, (starting, same, all, silent)) =
        Returns-ok (Started bo nmr (0 + length services))
          (register_services bo services (create nmr))
          (register_services-Started bo services (create nmr) (create-IsStarting nmr many few)
            are_services (omega arith)) in
      let started =
        run-register_services bo IsReading nmr services ps close readings sequence ∙ ran in
      let (b, sent, ran', steady, books) = run_balances bo rs first.0 starting.steady (
        Ensures-ok (λ p. ArePlausibleRounds bo rs p.0) (run bo (rounds_of ps) (create nmr))
          plausible started) in
      (
        b,
        first.1 ++ sent,
        run-append bo (rounds_of ps) rs (create nmr)
            ∙ then_run-ok (run bo (rounds_of ps)) (run bo rs) (create nmr) started ran',
        λ c. omega (
          arith,
          books c,
          waits_for-none c first.0.db first.0.available_services starting.none_waits,
          ap (answers c) (heard-append bo first.1 sent ∙ ap (λ l. l ++ heard bo sent) silent),
        ),
      )
