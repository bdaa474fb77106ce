-- ===== src/Broker/Steady/Startup/Partial.antt =====
-- A service with some copies registered and some missing, behind services that are available: what
-- `get_request` does (src/broker/broker_class.cpp).
use reliable_service_framewo.Prelude.{
  ℕ, ◌+◌, ◌^◌, ◌≤◌, ◌<◌, ◌≡◌, refl, ap, ◌∙◌, none, some, List, [], ◌∷◌, length, All, undefined,
  Returns, Returns-bind, Returns-ok, Option-cases, inl, inr, arith,
}
use reliable_service_framewo.Prelude.Map.{lookup-insert_self}
use reliable_service_framewo.Wire.{ByteOrder, Envelope, RequestModule}
use reliable_service_framewo.Time.{TimeSpec}
use reliable_service_framewo.Database.{find, new_record}
use reliable_service_framewo.Broker.{Broker, Output, create}
use reliable_service_framewo.Broker.Request.{get_request}
use reliable_service_framewo.Broker.Registration.Early.{get_request_undefined}
use reliable_service_framewo.Broker.Step.{◌then_run◌}
use reliable_service_framewo.Broker.Steady.{IsSteady, known_below}
use reliable_service_framewo.Broker.Steady.Startup.{
  Registering, AreCopies, IsCopy, register_all, with_copies, entry_with, first_registration,
  further_registration,
}
use reliable_service_framewo.Broker.Steady.Startup.Started.{
  AreServices, register_services, register_services-Started, create-IsStarting, Started,
}

-- Some copies of the service `s` are registered.
abbrev Incomplete : Broker → ℕ → List ℕ → Broker × List Output → Type 0
Incomplete b s owner p = (k : ℕ) × (0 < k) × (p.0 ≡ with_copies b s owner k)

module _ (bo : ByteOrder) (b : Broker) (s : ℕ) (h : IsSteady b)
    (next : s ≡ length b.available_services) (many : 2 ≤ b.db.nmr) (few : b.db.nmr ≤ 255) where
  others-Incomplete :
      (owner : List ℕ) (k : ℕ) (es : List Registering)
      → 1 ≤ k
      → k + length es < b.db.nmr
      → All (IsCopy bo s) es
      → Returns (Incomplete b s owner) (register_all bo es (with_copies b s owner k))
  unfolding register_all
  others-Incomplete owner k [] some_copies fewer copies = (k, some_copies, refl)
  others-Incomplete owner k ((e, armed) ∷ es) some_copies fewer (its, later) =
      rw (further_registration bo b s owner e armed h its next many few k some_copies (omega arith))
        (Returns-bind (Incomplete b s owner) (Incomplete b s owner)
          (register_all bo es (with_copies b s owner (k + 1))) _
          (others-Incomplete owner (k + 1) es (omega arith) (omega arith) later) λ rest r. r)

  register_all-Incomplete :
      (es : List Registering)
      → 0 < length es
      → length es < b.db.nmr
      → AreCopies bo s es
      → (owner : List ℕ) × Returns (Incomplete b s owner) (register_all bo es b)
  unfolding register_all
  register_all-Incomplete [] some_copies fewer copies = absurd (omega arith)
  register_all-Incomplete ((e, armed) ∷ es) some_copies fewer ((its, later), (owner, signed)) =
      let missing : find s b.db ≡ none = elim (Option-cases (find s b.db)) [
        | inl gone ↦ gone
        | inr (r, found) ↦ absurd (omega (arith, known_below b s r h found))
      ] in
      (
        owner,
        rw (first_registration bo b s owner e armed h its next many few missing signed) (
            Returns-bind (Incomplete b s owner) (Incomplete b s owner)
              (register_all bo es (with_copies b s owner 1)) _
              (others-Incomplete owner 1 es (omega arith) (omega arith) later) λ rest r. r),
      )

with_copies_undefined :
    (bo : ByteOrder) (e : Envelope RequestModule) (pushed postponed : TimeSpec) (uninit : ℕ)
    (b : Broker) (owner : List ℕ) (s k : ℕ)
    → bo.ntohl e.data_frame.service ≡ s
    → 0 < k
    → length b.dealers ≤ b.db.next_dealer_skt_index
    → get_request bo e pushed postponed uninit (with_copies b s owner k) ≡ undefined
unfolding new_record
with_copies_undefined bo e pushed postponed uninit b owner s k its positive beyond =
    let stored : find (bo.ntohl e.data_frame.service) (with_copies b s owner k).db
        ≡ some (entry_with b s owner k) =
      rw its (lookup-insert_self s (entry_with b s owner k) b.db.services_db) in
    get_request_undefined bo e pushed postponed uninit (with_copies b s owner k)
      (entry_with b s owner k) stored positive beyond

-- From the constructor, with `nmr` from 2 to 128: when the copies of fewer than 65536 services
-- have registered, of the types 0, 1, 2 and so on in this order, each with `nmr` copies one behind
-- the other, then some copies of the next service, but not all (of each service the first with a
-- text as its signature), a request for that service is undefined behaviour.
pub early_request_undefined :
    (bo : ByteOrder) (nmr : ℕ) (services : List (List Registering)) (early : List Registering)
    (e : Envelope RequestModule) (pushed postponed : TimeSpec) (uninit : ℕ)
    → 2 ≤ nmr
    → nmr ≤ 128
    → length services < 2 ^ 16
    → AreServices bo nmr 0 services
    → 0 < length early
    → length early < nmr
    → AreCopies bo (length services) early
    → bo.ntohl e.data_frame.service ≡ length services
    → (register_services bo services
          then_run (register_all bo early then_run get_request bo e pushed postponed uninit))
        (create nmr)
      ≡ undefined
unfolding create
early_request_undefined bo nmr services early e pushed postponed uninit many few room are_services
      some_copies fewer copies its =
    let ((b, sent), ran, (starting, same, all, silent)) =
      Returns-ok (Started bo nmr (0 + length services)) (register_services bo services (create nmr))
        (register_services-Started bo services (create nmr) (create-IsStarting nmr many few)
          are_services (omega arith)) in
    let here : length services ≡ length b.available_services = omega arith in
    let nmr_same = starting.steady.consistent.nmr_match in
    let (owner, registered) =
      register_all-Incomplete bo b (length services) starting.steady here (omega (arith, nmr_same))
        (omega (arith, nmr_same)) early some_copies (omega (arith, nmr_same)) copies in
    let ((b', sent'), ran', (k, positive, partial)) =
      Returns-ok (Incomplete b (length services) owner) (register_all bo early b) registered in
    let asked : get_request bo e pushed postponed uninit b' ≡ undefined =
      ap (get_request bo e pushed postponed uninit) partial
      ∙ with_copies_undefined bo e pushed postponed uninit b owner (length services) k its positive
          (omega (arith, starting.indexed)) in
    rw (ran, ran', asked) refl
