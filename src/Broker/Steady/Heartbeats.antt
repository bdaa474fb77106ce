-- ===== src/Broker/Steady/Heartbeats.antt =====
-- `check_timeouts` (src/broker/broker_class.cpp), with `check_pong` and `ping_server`, at a broker that
-- is steady.
use reliable_service_framewo.Prelude.{
  ℕ, zero, suc, ◌+◌, ◌%◌, ◌^◌, ◌≤◌, ◌<◌, ◌≡◌, refl, sym, ◌∙◌, true, List, [], length, set,
  All-get_elem?, get_elem?-some, ok, Returns, Returns-bind, Returns-if, arith, if◌then◌else◌, ltb,
}
use reliable_service_framewo.Wire.{ByteOrder, heartbeat_interval}
use reliable_service_framewo.Time.{TimeSpec, time_add_ms, is_later}
use reliable_service_framewo.Database.{
  Database, ServiceRecord, put, sub_u8, check_pong, get_ping_id, get_reliable_copies,
}
use reliable_service_framewo.Database.{check_copies}
use reliable_service_framewo.Database.Pong.{check_copies-length}
use reliable_service_framewo.Broker.{Broker, index_of, update_timeout}
use reliable_service_framewo.Broker.Request.{dealer_exists}
use reliable_service_framewo.Broker.Heartbeat.{ping_server, expire, expire_loop, check_timeouts}
use reliable_service_framewo.Broker.Ballots.Kept.{put-Kept, set-Kept}
use reliable_service_framewo.Broker.Ballots.View.{
  election_of, election_of-put_same, put-IsRunning, set-IsRunning, heard, heard-replicate,
}
use reliable_service_framewo.Broker.Ballots.Events.{IsKnown}
use reliable_service_framewo.Broker.Steady.{
  IsSteady, Lasts, Lasts-intro, Lasts-trans, known-some, IsKnown-Kept, Quiet, Quiet-refl,
  then-Quiet,
}

module _ (bo : ByteOrder) (uninit : List ℕ) (rearmed : TimeSpec) where
  -- The database that `check_pong` leaves.
  abbrev PongsChecked : Broker → Database → Type 0
  PongsChecked b db' = Lasts b (record b { db = db' }) × (election_of db' ≡ election_of b.db)

  pub check_pong-Quiet :
      (service : ℕ) (b : Broker)
      → IsSteady b
      → IsKnown (election_of b.db service)
      → Returns (PongsChecked b) (check_pong service b.db)
  unfolding check_pong
  check_pong-Quiet service b h known =
      let (r, found) = known-some b service known in
      rw found (
        Returns-bind (λ c. (length (c.0) ≡ b.db.nmr) × (length (c.1) ≡ b.db.nmr)) (PongsChecked b)
          (check_copies b.db.nmr r.new_pong r.lost_pong) _
          (check_copies-length b.db.nmr r.new_pong r.lost_pong
            (h.running.pongs service r found ∙ sym (h.consistent.nmr_match))
            (h.losses service r found ∙ sym (h.consistent.nmr_match)))
          λ c (pongs, lost).
            let r' : ServiceRecord = record r {
              new_pong = c.0;
              lost_pong = c.1;
              num_copies_reliable = sub_u8 r.num_copies_reliable (c.2);
              num_copies_registered = sub_u8 r.num_copies_registered (c.2);
              seq_id_ping = (r.seq_id_ping + 1) % 2 ^ 32;
            } in
            (
              Lasts-intro b (record b { db = put service r' b.db }) h
                  (put-Kept b service r r' found
                    (lost ∙ h.consistent.nmr_match ∙ sym (h.losses service r found)))
                  (put-IsRunning b service r r' h.running found refl
                    (pongs ∙ h.consistent.nmr_match ∙ sym (h.running.pongs service r found))
                    (h.running.fair service r found)),
              election_of-put_same service r r' b.db found refl,
            ))

  -- The ping goes out: its index, cut to a byte, is that of an available service with a dealer.
  ping_server-Returns :
      (i service : ℕ) (b : Broker)
      → IsSteady b
      → i < length b.available_services
      → IsKnown (election_of b.db service)
      → Returns (λ sent. heard bo sent ≡ []) (ping_server bo i service uninit b)
  unfolding ping_server get_ping_id get_reliable_copies
  ping_server-Returns i service b h listed known =
      let (r, found) = known-some b service known in
      let (provided, at, known') =
        All-get_elem? b.available_services (i % 2 ^ 8) h.known (omega arith) in
      let (r', found') = known-some b provided known' in
      let bound : dealer_exists r'.num_copies_reliable (i % 2 ^ 8) b ≡ true =
        ground (arith, h.consistent.dealers_match) in
      rw (found, at, found', bound) (heard-replicate bo r'.num_copies_reliable (i % 2 ^ 8) _)

  abbrev TimeoutUpdated : Broker → Broker → Type 0
  TimeoutUpdated b b' = Lasts b b' × (election_of b'.db ≡ election_of b.db)

  update_timeout-Quiet :
      (service : ℕ) (b : Broker)
      → IsSteady b
      → IsKnown (election_of b.db service)
      → Returns (TimeoutUpdated b) (update_timeout rearmed service b)
  unfolding update_timeout
  update_timeout-Quiet service b h known =
      let (r, found) = known-some b service known in
      let i = index_of service b.available_services in
      let t = time_add_ms rearmed heartbeat_interval in
      let bound : ltb i (length b.timeouts) ≡ true =
        ground (arith, h.running.timed service r found) in
      rw bound (
        Lasts-intro b (record b { timeouts = set b.timeouts i t }) h (set-Kept b i t)
            (set-IsRunning b i t h.running),
        refl,
      )

  expire-Quiet :
      (i : ℕ) (b : Broker)
      → IsSteady b
      → i < length b.available_services
      → Returns (Quiet bo b) (expire bo i uninit rearmed b)
  unfolding expire
  expire-Quiet i b h listed =
      let (service, at, known) = All-get_elem? b.available_services i h.known listed in
      rw at (
        Returns-bind (PongsChecked b) (Quiet bo b) (check_pong service b.db) _
          (check_pong-Quiet service b h known)
          λ db' (lasts, same).
            let b1 = record b { db = db' } in
            let known' = IsKnown-Kept b b1 service lasts.kept known in
            Returns-bind (λ sent. heard bo sent ≡ []) (Quiet bo b)
              (ping_server bo i service uninit b1) _
              (ping_server-Returns i service b1 lasts.steady listed known')
              λ sent told.
                Returns-bind (TimeoutUpdated b1) (Quiet bo b) (update_timeout rearmed service b1) _
                  (update_timeout-Quiet service b1 lasts.steady known')
                  λ b' (lasts', same'). (Lasts-trans b b1 b' lasts lasts', same' ∙ same, told))

  expire_loop-Quiet :
      (n i : ℕ) (now : TimeSpec) (b : Broker)
      → IsSteady b
      → i + n ≤ length b.timeouts
      → Returns (Quiet bo b) (expire_loop bo n i now uninit rearmed b)
  unfolding expire_loop
  expire_loop-Quiet zero i now b h fits = Quiet-refl bo b h
  expire_loop-Quiet (suc n) i now b h fits =
      let listed : i < length b.available_services = omega (arith, h.consistent.timeouts_match) in
      let (due, at) = get_elem?-some b.timeouts i (omega arith) in
      rw at (
        then-Quiet bo b (if is_later now due then expire bo i uninit rearmed b else ok (b, []))
          (expire_loop bo n (i + 1) now uninit rearmed)
          (Returns-if (Quiet bo b) (is_later now due) _ _ (expire-Quiet i b h listed)
            (Quiet-refl bo b h))
          λ b' lasts.
            expire_loop-Quiet n (i + 1) now b' lasts.steady (omega (arith, lasts.kept.timeouts)))

  pub check_timeouts-Quiet :
      (now : TimeSpec) (b : Broker)
      → IsSteady b
      → Returns (Quiet bo b) (check_timeouts bo now uninit rearmed b)
  unfolding check_timeouts
  check_timeouts-Quiet now b h = expire_loop-Quiet (length b.timeouts) 0 now b h (omega arith)
