-- ===== src/Broker/Step/Invariant.antt =====
-- Every handler of `step`, and a run of it, keeps the broker consistent (src/broker/broker_class.cpp).
use reliable_service_framewo.Prelude.{
  ℕ, zero, suc, ◌+◌, ◌/◌, ◌≡◌, refl, Bool, true, false, Option, none, some, List, [], ◌∷◌, length,
  Outcome, ok, Ensures, Ensures-bind, Ensures-after, Ensures-ok, Ensures-if, or_undefined,
  Bool-cases, inl, inr, get_elem?, if◌then◌else◌,
}
use reliable_service_framewo.Prelude.Int.{ℤ, pos, ltb_ℤ, leb_ℤ, ◌==ℤ◌, to_int32, to_uint32}
use reliable_service_framewo.Wire.{
  ByteOrder, IdFrame, Envelope, ServerReply, service_available, service_not_reliable,
}
use reliable_service_framewo.Time.{TimeSpec, is_later}
use reliable_service_framewo.Database.{
  RequestRecord, push_result, get_result, delete_request, register_pong, check_pong,
  get_pending_requests,
}
use reliable_service_framewo.Database
use reliable_service_framewo.Database.Redundancy.{
  KeepsNmr, delete_request-KeepsNmr, push_result-KeepsNmr, register_pong-KeepsNmr,
  check_pong-KeepsNmr,
}
use reliable_service_framewo.Vote.{vote}
use reliable_service_framewo.Broker
use reliable_service_framewo.Broker.{Broker, Output, update_timeout}
use reliable_service_framewo.Broker.Response.{get_response, decide, answer}
use reliable_service_framewo.Broker.Heartbeat.{ping_server, expire, expire_loop, check_timeouts}
use reliable_service_framewo.Broker.Pending.{
  Sweep, give_up, sweep_requests, sweep_services, check_pending_requests,
}
use reliable_service_framewo.Broker.Step.{
  Round, Handler, ◌then_run◌, on, idle, pong_health_checker, get_responses, step, run,
}
use reliable_service_framewo.Broker.Step.Consistent.{
  IsConsistent, Keeps, with_db, update_timeout-IsConsistent, get_request-Keeps,
  get_registration-Keeps,
}

abbrev P : Broker × List Output → Type 0
P p = IsConsistent p.0

-- A handler that leaves consistent what it finds consistent.
abbrev KeepsIt : Handler → Type 0
KeepsIt f = (b : Broker) → IsConsistent b → Keeps (f b)

then_run-KeepsIt : (f g : Handler) → KeepsIt f → KeepsIt g → KeepsIt (f then_run g)
then_run-KeepsIt f g kf kg b h =
    Ensures-bind P P (f b) _ (kf b h)
      λ first h'. Ensures-bind P P (g first.0) _ (kg first.0 h') λ second h''. h''

on-KeepsIt {ℓ} :
    {A : Type ℓ} (o : Option A) (f : A → Handler) → ((a : A) → KeepsIt (f a)) → KeepsIt (on o f)
on-KeepsIt none f k b h = h
on-KeepsIt (some a) f k b h = k a b h

module _ (bo : ByteOrder) where
  answer-Keeps :
      (id_frame : IdFrame) (service status : ℕ) (result : ℤ)
      → KeepsIt (answer bo id_frame service status result)
  unfolding answer
  answer-Keeps id_frame service status result b h =
      Ensures-bind (KeepsNmr b.db) P (delete_request service id_frame.client_id b.db) _
        (delete_request-KeepsNmr service b.db id_frame.client_id) λ db' same. with_db b db' same h

  decide-Keeps :
      (id_frame : IdFrame) (service : ℕ) (n uninit : ℤ)
      → KeepsIt (decide bo id_frame service n uninit)
  unfolding decide
  decide-Keeps id_frame service n uninit b h =
      Ensures-if P (ltb_ℤ (pos (b.nmr / 2)) n) _ _
        (Ensures-after P (get_result service id_frame.client_id b.db) _ λ values.
          Ensures-after P (vote b.nmr values uninit) _ λ voted.
            Ensures-if P (leb_ℤ (pos 0) voted.0) _ _
              (answer-Keeps id_frame service service_available voted.1 b h)
              (Ensures-if P (n ==ℤ pos b.nmr) _ _
                (answer-Keeps id_frame service service_not_reliable voted.1 b h) h))
        h

  get_response-Keeps : (e : Envelope ServerReply) (uninit : ℤ) → KeepsIt (get_response bo e uninit)
  unfolding get_response
  get_response-Keeps e uninit b h =
      let reply = e.data_frame in
      let service = bo.ntohl reply.service in
      let result = to_int32 (bo.ntohl reply.result) in
      Ensures-if P reply.heartbeat _ _
        (Ensures-bind (KeepsNmr b.db) P (register_pong reply.id service b.db) _
          (register_pong-KeepsNmr service b.db reply.id) λ db' same. with_db b db' same h)
        (Ensures-if P reply.duplicated _ _ h (
          Ensures-bind (λ p. KeepsNmr b.db p.0) P
            (push_result service result e.id_frame.client_id b.db) _
            (push_result-KeepsNmr service b.db result e.id_frame.client_id)
            λ pushed same.
              decide-Keeps e.id_frame service pushed.1 uninit (record b { db = pushed.0 })
                (with_db b pushed.0 same h)))

  get_responses-Keeps :
      (n : ℕ) (replies : List (Option (Envelope ServerReply))) (uninit : ℤ)
      → KeepsIt (get_responses bo n replies uninit)
  unfolding get_responses
  get_responses-Keeps zero replies uninit b h = h
  get_responses-Keeps (suc n) [] uninit b h = h
  get_responses-Keeps (suc n) (reply ∷ replies) uninit b h =
      Ensures-bind P P (on reply (λ e. get_response bo e uninit) b) _
        (on-KeepsIt reply (λ e. get_response bo e uninit) (λ e. get_response-Keeps e uninit) b h)
        λ first h'.
          Ensures-bind P P (get_responses bo n replies uninit first.0) _
            (get_responses-Keeps n replies uninit first.0 h') λ rest h''. h''

  expire-Keeps :
      (i : ℕ) (uninit : List ℕ) (rearmed : TimeSpec) → KeepsIt (expire bo i uninit rearmed)
  unfolding expire
  expire-Keeps i uninit rearmed b h =
      Ensures-after P (or_undefined (get_elem? b.available_services i)) _ λ service.
        Ensures-bind (KeepsNmr b.db) P (check_pong service b.db) _
          (check_pong-KeepsNmr service b.db)
          λ db' same.
            Ensures-after P (ping_server bo i service uninit (record b { db = db' })) _ λ sent.
              Ensures-bind IsConsistent P (update_timeout rearmed service (record b { db = db' })) _
                (update_timeout-IsConsistent rearmed service _ (with_db b db' same h)) λ b' h'. h'

  expire_loop-Keeps :
      (n i : ℕ) (now : TimeSpec) (uninit : List ℕ) (rearmed : TimeSpec)
      → KeepsIt (expire_loop bo n i now uninit rearmed)
  unfolding expire_loop
  expire_loop-Keeps zero i now uninit rearmed b h = h
  expire_loop-Keeps (suc n) i now uninit rearmed b h =
      Ensures-after P (or_undefined (get_elem? b.timeouts i)) _ λ due.
        Ensures-bind P P (if is_later now due then expire bo i uninit rearmed b else ok (b, [])) _
          (Ensures-if P (is_later now due) _ _ (expire-Keeps i uninit rearmed b h) h)
          λ first h'.
            Ensures-bind P P (expire_loop bo n (i + 1) now uninit rearmed first.0) _
              (expire_loop-Keeps n (i + 1) now uninit rearmed first.0 h') λ rest h''. h''

abbrev SweepKeeps : Outcome Sweep → Type 0
SweepKeeps = Ensures (λ s. IsConsistent s.broker)

module _ (bo : ByteOrder) (now : TimeSpec) where
  give_up-Keeps :
      (i : ℕ) (r : RequestRecord) (s : Sweep)
      → IsConsistent s.broker
      → SweepKeeps (give_up bo now i r s)
  unfolding give_up
  give_up-Keeps i r s h =
      Ensures-after (λ s. IsConsistent s.broker) (vote s.broker.nmr r.results s.result) _
        λ voted.
          Ensures-bind (KeepsNmr s.broker.db) (λ s. IsConsistent s.broker)
            (delete_request i r.client_id s.broker.db) _
            (delete_request-KeepsNmr i s.broker.db r.client_id)
            λ db' same. with_db s.broker db' same h

  sweep_requests-Keeps :
      (i : ℕ) (rs : List RequestRecord) (s : Sweep)
      → IsConsistent s.broker
      → SweepKeeps (sweep_requests bo now i rs s)
  unfolding sweep_requests
  sweep_requests-Keeps i [] s h = h
  sweep_requests-Keeps i (r ∷ rs) s h =
      Ensures-bind (λ s. IsConsistent s.broker) (λ s. IsConsistent s.broker)
        (if is_later now r.timeout then give_up bo now i r s else ok s) _
        (elim (Bool-cases (is_later now r.timeout)) [
          | inl late ↦ rw late (give_up-Keeps i r s h)
          | inr early ↦ rw early h
        ])
        λ s' h'. sweep_requests-Keeps i rs s' h'

  sweep_services-Keeps :
      (i : ℕ) (services : List ℕ) (s : Sweep)
      → IsConsistent s.broker
      → SweepKeeps (sweep_services bo now i services s)
  unfolding sweep_services
  sweep_services-Keeps i [] s h = h
  sweep_services-Keeps i (service ∷ services) s h =
      Ensures-after (λ s. IsConsistent s.broker) (get_pending_requests service s.broker.db) _
        λ pending.
          Ensures-bind (λ s. IsConsistent s.broker) (λ s. IsConsistent s.broker)
            (sweep_requests bo now i pending s) _ (sweep_requests-Keeps i pending s h)
            λ s' h'. sweep_services-Keeps (i + 1) services s' h'

  check_pending_requests-Keeps : (uninit : ℤ) → KeepsIt (check_pending_requests bo now uninit)
  unfolding check_pending_requests
  check_pending_requests-Keeps uninit b h =
      let start : Sweep = record { broker = b; result = uninit; sent = [] } in
      Ensures-bind (λ s. IsConsistent s.broker) P
        (sweep_services bo now 0 b.available_services start) _
        (sweep_services-Keeps 0 b.available_services start h) λ s h'. h'

module _ (bo : ByteOrder) where
  ping-Keeps : (c : Bool) → KeepsIt (if c then pong_health_checker else idle)
  unfolding pong_health_checker
  ping-Keeps true b h = h
  ping-Keeps false b h = h

  step-Keeps : (r : Round) → KeepsIt (step bo r)
  unfolding step check_timeouts
  step-Keeps r =
      then_run-KeepsIt _ _
        (then_run-KeepsIt _ _
          (then_run-KeepsIt _ _
            (then_run-KeepsIt _ _
              (then_run-KeepsIt _ _ (ping-Keeps r.ping)
                (on-KeepsIt r.registration _ λ e b h. get_registration-Keeps bo e r.armed b h))
              (on-KeepsIt r.request _
                λ e b h. get_request-Keeps bo e r.pushed r.postponed (to_uint32 r.uninit) b h))
            (λ b h. get_responses-Keeps bo (length b.dealers) r.replies r.uninit b h))
          (λ b h.
            expire_loop-Keeps bo (length b.timeouts) 0 r.now r.uninit_parameters r.rearmed b h))
        (check_pending_requests-Keeps bo r.checked r.uninit)

  run-Keeps : (rounds : List Round) → KeepsIt (run bo rounds)
  unfolding run
  run-Keeps [] b h = h
  run-Keeps (r ∷ rounds) b h =
      then_run-KeepsIt (step bo r) (run bo rounds) (step-Keeps r) (run-Keeps rounds) b h

create-IsConsistent : (nmr : ℕ) → IsConsistent (Broker.create nmr)
unfolding Broker.create Database.create
create-IsConsistent nmr = record { dealers_match = refl; timeouts_match = refl; nmr_match = refl }

-- After any run of the broker's loop from its start that comes back, there is exactly one dealer
-- and one timeout for each available service, and the database has the broker's redundancy.
pub run-IsConsistent :
    (bo : ByteOrder) (nmr : ℕ) (rounds : List Round) {b : Broker} {sent : List Output}
    → run bo rounds (Broker.create nmr) ≡ ok (b, sent)
    → IsConsistent b
run-IsConsistent bo nmr rounds e =
    Ensures-ok P (run bo rounds (Broker.create nmr))
      (run-Keeps bo rounds (Broker.create nmr) (create-IsConsistent nmr)) e
