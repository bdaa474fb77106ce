-- ===== src/Broker/Steady/Registering.antt =====
-- `get_registration` (src/broker/broker_class.cpp) for a further copy of a service that is available.
use reliable_service_framewo.Prelude.{
  ℕ, ◌+◌, ◌%◌, ◌^◌, ◌<◌, ◌≡◌, refl, true, false, some, List, [], ◌∷◌, ltb, length, ok, Returns,
  arith, Bool-cases, inl, inr,
}
use reliable_service_framewo.Wire.{ByteOrder, Envelope, RegistrationModule}
use reliable_service_framewo.Time.{TimeSpec}
use reliable_service_framewo.Database.{ServiceRecord, find, put, push_registration}
use reliable_service_framewo.Broker.{Broker, to_registrant, index_of}
use reliable_service_framewo.Broker.Registration.{get_registration, make_available, contains}
use reliable_service_framewo.Broker.Ballots.Kept.{put-Kept}
use reliable_service_framewo.Broker.Ballots.View.{
  election_of, election_of-put_same, put-IsRunning, heard,
}
use reliable_service_framewo.Broker.Ballots.Events.{IsKnown}
use reliable_service_framewo.Broker.Steady.{
  IsSteady, Lasts, Lasts-refl, Lasts-intro, known-some, Quiet,
}

contains-index_of : (s : ℕ) (ss : List ℕ) → index_of s ss < length ss → contains s ss ≡ true
unfolding contains index_of
contains-index_of s [] h = absurd (omega arith)
contains-index_of s (x ∷ ss) h = ground (arith, contains-index_of s ss)

module _ (bo : ByteOrder) (e : Envelope RegistrationModule) (armed : TimeSpec) (b : Broker)
    (h : IsSteady b) where
  abbrev service : ℕ
  service = bo.ntohl e.data_frame.service

  -- The record of the service behind the registration.
  abbrev one_more : ServiceRecord → ServiceRecord
  one_more r = record r {
    num_copies_registered = (r.num_copies_registered + 1) % 2 ^ 8;
    num_copies_reliable = (r.num_copies_reliable + 1) % 2 ^ 8;
  }

  module _ (r : ServiceRecord) (found : find service b.db ≡ some r) where
    listed : contains service b.available_services ≡ true
    listed =
        contains-index_of service b.available_services
          (omega (arith, h.running.timed service r found, h.consistent.timeouts_match))

    accepted :
        ltb r.num_copies_registered b.db.nmr ≡ true
        → get_registration bo e armed b
          ≡ ok (
            record b { db = put service (one_more r) b.db },
            to_registrant e.id_frame (bo.htons r.dealer_socket) ∷ [],
          )
    unfolding get_registration push_registration make_available
    accepted fewer = ground (arith, found, fewer, listed)

    turned_away :
        ltb r.num_copies_registered b.db.nmr ≡ false
        → get_registration bo e armed b ≡ ok (b, to_registrant e.id_frame (bo.htons 0) ∷ [])
    unfolding get_registration push_registration make_available
    turned_away all = ground (arith, found, all)

    more-Lasts : Lasts b (record b { db = put service (one_more r) b.db })
    more-Lasts =
        Lasts-intro b (record b { db = put service (one_more r) b.db }) h
          (put-Kept b service r (one_more r) found refl)
          (put-IsRunning b service r (one_more r) h.running found refl refl
            (h.running.fair service r found))

    more-Quiet : Quiet bo b (
      record b { db = put service (one_more r) b.db },
      to_registrant e.id_frame (bo.htons r.dealer_socket) ∷ [],
    )
    unfolding heard
    more-Quiet = (more-Lasts, election_of-put_same service r (one_more r) b.db found refl, refl)

    none-Quiet : Quiet bo b (b, to_registrant e.id_frame (bo.htons 0) ∷ [])
    unfolding heard
    none-Quiet = (Lasts-refl b h, refl, refl)

  pub registration-Quiet :
      IsKnown (election_of b.db (bo.ntohl e.data_frame.service))
      → Returns (Quiet bo b) (get_registration bo e armed b)
  registration-Quiet known =
      let (r, found) = known-some b service known in
      elim (Bool-cases (ltb r.num_copies_registered b.db.nmr)) [
        | inl fewer ↦ rw (accepted r found fewer) (more-Quiet r found)
        | inr all ↦ rw (turned_away r found all) (none-Quiet r found)
      ]
