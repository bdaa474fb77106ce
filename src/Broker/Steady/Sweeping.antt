-- ===== src/Broker/Steady/Sweeping.antt =====
-- `check_pending_requests` (src/broker/broker_class.cpp) at a broker that is steady: its services are
-- numbered in the order of `available_services`, so the loop index is the type of the service.
use reliable_service_framewo.Prelude.{
  ℕ, suc, ◌+◌, ◌≤◌, ◌<◌, ◌≡◌, refl, sym, ap, ◌∙◌, Option, none, some, List, [], ◌∷◌, ◌++◌, length,
  All, All-map, Outcome, ok, arith, Bool-cases, Option-cases, inl, inr, ltb,
}
use native.Mathlib.Numerals.{add-one}
use mathlib.Core.List.{append_assoc, append-nil}
use reliable_service_framewo.Prelude.Int.{ℤ}
use reliable_service_framewo.Wire.{ByteOrder, IdFrame}
use reliable_service_framewo.Time.{TimeSpec}
use reliable_service_framewo.Database.{
  Database, ServiceRecord, RequestRecord, find, get_pending_requests,
}
use reliable_service_framewo.Broker.{Broker, Output}
use reliable_service_framewo.Broker.Pending.{Sweep, sweep_services, check_pending_requests}
use reliable_service_framewo.Broker.Ballots.{Answer}
use reliable_service_framewo.Broker.Ballots.Kept.{Kin}
use reliable_service_framewo.Broker.Ballots.View.{election_of, heard}
use reliable_service_framewo.Broker.Ballots.Events.{IsKnown}
use reliable_service_framewo.Broker.Steady.{
  AreNumbered, IsSteady, Lasts, Lasts-refl, Lasts-trans, known-some, IsKnown-Kept, known_below,
}
use reliable_service_framewo.Broker.Steady.Timeouts.{
  refusals, in_time, is_late, in_time-late, in_time-early, sweep_requests_lem,
}
use reliable_service_framewo.Broker.Steady.Tally.{answers}
use reliable_service_framewo.Broker.Steady.Accounts.{waits_in, waits_for, answers-append}
use reliable_service_framewo.Broker.Ballots.Queue.{waits}

module _ (now : TimeSpec) where
  -- A service without the requests whose timeout has passed, and the refusals of those.
  abbrev pub without_late : Option ServiceRecord → Option ServiceRecord
  without_late none = none
  without_late (some r) = some (record r { request_records = in_time now r.request_records })

  abbrev pub refused : Option ServiceRecord → List (IdFrame × Answer)
  refused none = []
  refused (some r) = refusals now r.request_records

  abbrev pub all_refused : List ℕ → Database → List (IdFrame × Answer)
  all_refused [] db = []
  all_refused (service ∷ services) db = refused (find service db) ++ all_refused services db

  -- The refusals depend on the services from `i` on.
  all_refused-from :
      (i : ℕ) (services : List ℕ) (db db' : Database)
      → AreNumbered i services
      → ((j : ℕ) → i ≤ j → find j db' ≡ find j db)
      → all_refused services db' ≡ all_refused services db
  all_refused-from i [] db db' numbered same = refl
  all_refused-from i (service ∷ services) db db' (e, numbered) same =
      rw
        (
          same service (omega (arith, e)),
          all_refused-from (suc i) services db db' numbered (λ j le. same j (omega arith)),
        )
        refl

module _ (bo : ByteOrder) (now : TimeSpec) where
  -- The run `m` from `s` comes back, without the late requests of the services from `i` on.
  record SweepsFrom (i : ℕ) (services : List ℕ) (s : Sweep) (m : Outcome Sweep) : Type 0 where
    pub next : Sweep
    pub ran : m ≡ ok next
    pub lasts : Lasts s.broker next.broker
    pub before : (j : ℕ) → j < i → find j next.broker.db ≡ find j s.broker.db
    pub inside :
        (j : ℕ)
        → i ≤ j
        → j < i + length services
        → find j next.broker.db ≡ without_late now (find j s.broker.db)
    pub tells : heard bo next.sent ≡ heard bo s.sent ++ all_refused now services s.broker.db

  sweep_services_lem :
      (i : ℕ) (services : List ℕ) (s : Sweep)
      → IsSteady s.broker
      → AreNumbered i services
      → All (λ service. IsKnown (election_of s.broker.db service)) services
      → SweepsFrom i services s (sweep_services bo now i services s)
  unfolding sweep_services get_pending_requests
  sweep_services_lem i [] s h numbered known = record {
    next = s;
    ran = refl;
    lasts = Lasts-refl s.broker h;
    before = λ j lt. refl;
    inside = λ j le lt. absurd (omega arith);
    tells = sym (append-nil (heard bo s.sent));
  }
  sweep_services_lem i (service ∷ services) s h (e, numbered) (known, later) =
      let (r, found) = known-some s.broker service known in
      let found_i : find i s.broker.db ≡ some r = rw (← e) found in
      let first = sweep_requests_lem bo now i r [] r.request_records s h found_i refl in
      let rest = sweep_services_lem (suc i) services first.next first.lasts.steady numbered (
        All-map services (λ t. IsKnown-Kept s.broker first.next.broker t first.lasts.kept) later) in
      record {
        next = rest.next;
        ran = rw (found, first.ran, add-one i, rest.ran) refl;
        lasts = Lasts-trans s.broker first.next.broker rest.next.broker first.lasts rest.lasts;
        before = λ j lt. rest.before j (omega arith) ∙ first.others j (omega arith);
        inside = λ j le lt. elim (Bool-cases (ltb i j)) [
          | inl behind ↦
              rest.inside j (ground arith) (ground arith)
              ∙ ap (without_late now) (first.others j (ground arith))
          | inr not_behind ↦
              let here : i ≡ j = ground arith in
              rw (← here) (rest.before i (omega arith) ∙ first.here ∙ rw found_i refl)
        ];
        tells =
            rest.tells
            ∙ rw
                (
                  first.tells,
                  found,
                  all_refused-from now (suc i) services s.broker.db first.next.broker.db numbered
                      (λ j le. first.others j (omega arith)),
                )
                (append_assoc (heard bo s.sent) (refusals now r.request_records)
                  (all_refused now services s.broker.db));
      }

missing-Kin : (o o' : Option ServiceRecord) → Kin o o' → o ≡ none → o' ≡ none
missing-Kin none none kin e = refl
missing-Kin none (some r) kin e = absurd kin
missing-Kin (some r) o' kin e = absurd (cc)

module _ (bo : ByteOrder) (now : TimeSpec) where
  -- At a steady broker (`nmr` is from 1 to 128, the available services are exactly the known ones,
  -- of the types 0, 1, 2 and so on in this order, each with a dealer, a timeout, and `nmr` entries
  -- for pongs and for losses, no client waits twice for a service, and who waits has fewer than
  -- `nmr` results, `int32_t` values with no majority among them), the loops of
  -- `check_pending_requests` come back: of every service they delete the requests whose timeout
  -- has passed, and those only, the client of each hears once that the service is not reliable, in
  -- their order, and the broker is steady again.
  pub check_pending_requests_lem :
      (uninit : ℤ) (b : Broker)
      → IsSteady b
      → (b' : Broker) × (sent : List Output) × (check_pending_requests bo now uninit b
          ≡ ok (b', sent))
        × ((s : ℕ) → find s b'.db ≡ without_late now (find s b.db))
        × (heard bo sent ≡ all_refused now b.available_services b.db)
        × Lasts b b'
  unfolding check_pending_requests heard
  check_pending_requests_lem uninit b h =
      let start : Sweep = record { broker = b; result = uninit; sent = [] } in
      let swept = sweep_services_lem bo now 0 b.available_services start h h.numbered h.known in
      let cleared : (s : ℕ) → find s swept.next.broker.db ≡ without_late now (find s b.db) = λ s.
        elim (Option-cases (find s b.db)) [
          | inr (r, found) ↦ swept.inside s (omega arith) (omega (arith, known_below b s r h found))
          | inl missing ↦
              missing-Kin (find s b.db) (find s swept.next.broker.db) (swept.lasts.kept.kin s)
                missing
              ∙ sym (ap (without_late now) missing)
        ] in
      (swept.next.broker, swept.next.sent, rw (swept.ran) refl, cleared, swept.tells, swept.lasts)

module _ (now : TimeSpec) (c : ℕ) where
  refusals-answers :
      (rs : List RequestRecord)
      → answers c (refusals now rs) + waits (in_time now rs) c ≡ waits rs c
  refusals-answers [] = omega arith
  refusals-answers (q ∷ rs) = elim (Bool-cases (is_late now q)) [
    | inl late ↦
        rw ((in_time-late now q rs late).0, (in_time-late now q rs late).1)
          (ground (arith, refusals-answers rs))
    | inr early ↦
        rw ((in_time-early now q rs early).0, (in_time-early now q rs early).1)
          (ground (arith, refusals-answers rs))
  ]

  refused-answers :
      (o : Option ServiceRecord)
      → answers c (refused now o) + waits_in c (without_late now o) ≡ waits_in c o
  refused-answers none = omega arith
  refused-answers (some r) = refusals-answers r.request_records

  -- Each late request is answered once, and pending no more.
  pub all_refused-answers :
      (services : List ℕ) (db db' : Database)
      → ((s : ℕ) → find s db' ≡ without_late now (find s db))
      → answers c (all_refused now services db) + waits_for c db' services ≡ waits_for c db services
  all_refused-answers [] db db' cleared = omega arith
  all_refused-answers (s ∷ ss) db db' cleared = omega (
    arith,
    answers-append c (refused now (find s db)) (all_refused now ss db),
    ap (waits_in c) (cleared s),
    refused-answers (find s db),
    all_refused-answers ss db db' cleared,
  )
