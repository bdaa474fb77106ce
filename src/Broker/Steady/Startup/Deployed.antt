-- ===== src/Broker/Steady/Startup/Deployed.antt =====
-- A steady broker with one service more (src/broker/broker_class.cpp).
use mathlib.Core.Path.{subst}
use reliable_service_framewo.Prelude.{
  ℕ, suc, ◌+◌, ◌^◌, ◌≤◌, ◌<◌, ◌≡◌, refl, sym, ◌∙◌, false, some, List, [], ◌∷◌, length,
  length-append, length-replicate, ◌==◌, All-map, All-append, Bool-cases, inl, inr, arith,
}
use reliable_service_framewo.Prelude.Int.{negsuc}
use reliable_service_framewo.Prelude.Map.{lookup-insert, lookup-insert_self}
use reliable_service_framewo.Wire.{heartbeat_interval}
use reliable_service_framewo.Time.{TimeSpec, time_add_ms}
use reliable_service_framewo.Database.{ServiceRecord, find, new_record, append, results_of_client}
use reliable_service_framewo.Broker.{Broker, index_of}
use reliable_service_framewo.Broker.Ballots.Queue.{IsFair}
use reliable_service_framewo.Broker.Ballots.View.{election_of, IsRunning}
use reliable_service_framewo.Broker.Ballots.Events.{IsKnown}
use reliable_service_framewo.Broker.Steady.{AreNumbered, IsSteady}
use reliable_service_framewo.Broker.Steady.Startup.{available_from, entry_with}

index_of-last : (s : ℕ) (ss : List ℕ) → index_of s (append ss s) ≤ length ss
unfolding index_of
index_of-last s [] = ground arith
index_of-last s (x ∷ ss) = ground (arith, index_of-last s ss)

index_of-append :
    (t s : ℕ) (ss : List ℕ) → index_of t ss < length ss → index_of t (append ss s) ≤ index_of t ss
unfolding index_of
index_of-append t s [] h = absurd (omega arith)
index_of-append t s (x ∷ ss) h = ground (arith, index_of-append t s ss)

AreNumbered-append :
    (i s : ℕ) (ss : List ℕ) → AreNumbered i ss → s ≡ i + length ss → AreNumbered i (append ss s)
AreNumbered-append i s [] numbered e = (omega arith, tt)
AreNumbered-append i s (x ∷ ss) (h, numbered) e =
    (h, AreNumbered-append (suc i) s ss numbered (omega arith))

none_waits-IsFair : (nmr : ℕ) → 0 < nmr → IsFair nmr []
unfolding results_of_client
none_waits-IsFair nmr some_copies = record {
  once = λ c. omega arith;
  missing = λ c. omega arith;
  int32 = λ c. tt;
  undecided = λ c v. omega arith;
}

-- A steady broker that can take another service, with no request pending.
pub record IsStarting (b : Broker) : Type 0 where
  pub steady : IsSteady b
  pub many : 2 ≤ b.nmr
  pub indexed : b.db.next_dealer_skt_index ≡ length b.dealers
  pub none_waits : (s : ℕ) (r : ServiceRecord) → find s b.db ≡ some r → r.request_records ≡ []

module _ (b : Broker) (s : ℕ) (owner : List ℕ) (armed : TimeSpec) (h : IsStarting b)
    (next : s ≡ length b.available_services) (room : length b.dealers + 1 < 2 ^ 16) where
  abbrev b' : Broker
  b' = available_from b s owner armed

  abbrev entry : ServiceRecord
  entry = entry_with b s owner b.db.nmr

  -- What holds of the new record and of all others holds of every record.
  each :
      (P : ℕ → ServiceRecord → Type 0)
      → P s entry
      → ((t : ℕ) (r : ServiceRecord) → find t b.db ≡ some r → P t r)
      → (t : ℕ) (r : ServiceRecord) → find t b'.db ≡ some r
      → P t r
  each P new old t r e = elim (Bool-cases (s == t)) [
    | inl hit ↦
        let here : s ≡ t = ground arith in
        let stored : some entry ≡ some r =
          rw hit at (sym (lookup-insert s t entry b.db.services_db) ∙ e) in
        let same : entry ≡ r = cc in subst (λ (q : ServiceRecord). P t q) same (rw (← here) new)
    | inr miss ↦ old t r (rw miss at (sym (lookup-insert s t entry b.db.services_db) ∙ e))
  ]

  new-IsRunning : IsRunning b'
  unfolding new_record
  new-IsRunning =
      let running = h.steady.running in
      record {
        some_copies = running.some_copies;
        few_copies = running.few_copies;
        dealt =
            each (λ t r. r.dealer_skt_index < length b'.dealers)
              (omega (arith, h.indexed, length-append b.dealers (b.available_dealer_port ∷ [])))
              (λ t r e. omega (
                arith,
                running.dealt t r e,
                length-append b.dealers (b.available_dealer_port ∷ []),
              ));
        timed =
            each (λ t r. index_of t b'.available_services < length b'.timeouts)
              (omega (
                arith,
                index_of-last s b.available_services,
                h.steady.consistent.timeouts_match,
                length-append b.timeouts (time_add_ms armed heartbeat_interval ∷ []),
              ))
              (λ t r e. omega (
                arith,
                index_of-append t s b.available_services
                    (omega (arith, running.timed t r e, h.steady.consistent.timeouts_match)),
                running.timed t r e,
                length-append b.timeouts (time_add_ms armed heartbeat_interval ∷ []),
              ));
        pongs =
            each (λ t r. length r.new_pong ≡ b.nmr)
              (length-replicate b.db.nmr false ∙ h.steady.consistent.nmr_match) running.pongs;
        fair =
            each (λ t r. IsFair b.nmr r.request_records)
              (none_waits-IsFair b.nmr running.some_copies) running.fair;
      }

  IsKnown-insert : (t : ℕ) → IsKnown (election_of b.db t) → IsKnown (election_of b'.db t)
  IsKnown-insert t known =
      rw (lookup-insert s t entry b.db.services_db)
        (elim (Bool-cases (s == t)) [ inl hit ↦ rw hit tt | inr miss ↦ rw miss known ])

  pub new-IsStarting : IsStarting b'
  unfolding new_record
  new-IsStarting = record {
    steady = record {
      running = new-IsRunning;
      consistent = record {
        dealers_match = omega (
          arith,
          h.steady.consistent.dealers_match,
          length-append b.dealers (b.available_dealer_port ∷ []),
          length-append b.available_services (s ∷ []),
        );
        timeouts_match = omega (
          arith,
          h.steady.consistent.timeouts_match,
          length-append b.timeouts (time_add_ms armed heartbeat_interval ∷ []),
          length-append b.available_services (s ∷ []),
        );
        nmr_match = h.steady.consistent.nmr_match;
      };
      numbered =
          AreNumbered-append 0 s b.available_services h.steady.numbered (omega (arith, next));
      known =
          All-append (λ t. IsKnown (election_of b'.db t)) b.available_services s
            (All-map b.available_services IsKnown-insert h.steady.known)
            (rw (lookup-insert_self s entry b.db.services_db) tt);
      losses =
          each (λ t r. length r.lost_pong ≡ b.nmr)
            (length-replicate b.db.nmr (negsuc 0) ∙ h.steady.consistent.nmr_match) h.steady.losses;
    };
    many = h.many;
    indexed = omega (arith, h.indexed, length-append b.dealers (b.available_dealer_port ∷ []));
    none_waits = each (λ t r. r.request_records ≡ []) refl h.none_waits;
  }
