-- ===== src/Broker/Steady/Startup/Started.antt =====
-- The broker from its constructor until its services are available (src/broker/broker_class.cpp).
use mathlib.Core.Path.{subst}
use native.Mathlib.Numerals.{add-one}
use reliable_service_framewo.Prelude.{
  ℕ, suc, ◌+◌, ◌^◌, ◌≤◌, ◌<◌, ◌≡◌, refl, sym, ◌∙◌, List, [], ◌∷◌, length, length-append, ok,
  Returns, Returns-bind, Returns-map, Returns-ok, arith,
}
use reliable_service_framewo.Prelude.Map.{lookup}
use reliable_service_framewo.Wire.{ByteOrder}
use reliable_service_framewo.Database.{
  Database, ServiceRecord, find, new_record, append, results_of_client,
}
use reliable_service_framewo.Database
use reliable_service_framewo.Broker.{Broker, Output, create}
use reliable_service_framewo.Broker.Step.{Handler, idle, ◌then_run◌}
use reliable_service_framewo.Broker.Ballots.View.{heard, heard-append}
use reliable_service_framewo.Broker.Steady.{IsSteady}
use reliable_service_framewo.Broker.Steady.Startup.{
  Registering, AreCopies, register_all, register_all-Registered,
}
use reliable_service_framewo.Broker.Steady.Startup.Deployed.{IsStarting, new-IsStarting}

-- The constructor's broker knows no service.
pub create-IsStarting : (nmr : ℕ) → 2 ≤ nmr → nmr ≤ 128 → IsStarting (create nmr)
unfolding create Database.create lookup
create-IsStarting nmr many few = record {
  steady = record {
    running = record {
      some_copies = omega arith;
      few_copies = few;
      dealt = λ t r e. absurd (cc);
      timed = λ t r e. absurd (cc);
      pongs = λ t r e. absurd (cc);
      fair = λ t r e. absurd (cc);
    };
    consistent = record { dealers_match = refl; timeouts_match = refl; nmr_match = refl };
    numbered = tt;
    known = tt;
    losses = λ t r e. absurd (cc);
  };
  many = many;
  indexed = refl;
  none_waits = λ t r e. absurd (cc);
}

module _ (bo : ByteOrder) where
  -- The copies of service after service register, with nothing else handled in between.
  unfoldable pub register_services : List (List Registering) → Handler
  register_services [] = idle
  register_services (copies ∷ services) = register_all bo copies then_run register_services services

  -- The services `i`, `i + 1` and so on, with `nmr` copies each.
  abbrev pub AreServices : ℕ → ℕ → List (List Registering) → Type 0
  AreServices nmr i [] = Unit
  AreServices nmr i (copies ∷ services) =
      (length copies ≡ nmr) × AreCopies bo i copies × AreServices nmr (suc i) services

  -- What the registrations leave, with `n` services available.
  abbrev pub Started : ℕ → ℕ → Broker × List Output → Type 0
  Started nmr n p =
      IsStarting p.0 × (p.0.nmr ≡ nmr) × (length p.0.available_services ≡ n) × (heard bo (p.1) ≡ [])

  register_all-Started :
      (b : Broker) (copies : List Registering)
      → IsStarting b
      → length copies ≡ b.nmr
      → AreCopies bo (length b.available_services) copies
      → length b.available_services + 1 < 2 ^ 16
      → Returns (Started b.nmr (length b.available_services + 1)) (register_all bo copies b)
  register_all-Started b copies h all are_copies room =
      let s = length b.available_services in
      let same = h.steady.consistent.nmr_match in
      let (owner, registered) =
        register_all-Registered bo b s h.steady refl (omega (arith, same, h.many))
          (omega (arith, same, h.steady.running.few_copies)) copies (all ∙ sym same) are_copies in
      Returns-map (register_all bo copies b)
        (λ p (armed, e, silent).
          let (starting, same_nmr, one_more) : IsStarting p.0
              × (p.0.nmr ≡ b.nmr)
              × (length p.0.available_services ≡ s + 1) =
            subst
              (λ (a : Broker).
                IsStarting a × (a.nmr ≡ b.nmr) × (length a.available_services ≡ s + 1))
              (sym e)
              (
                new-IsStarting b s owner armed h refl
                    (omega (arith, room, h.steady.consistent.dealers_match)),
                refl,
                length-append b.available_services (s ∷ []),
              ) in
          (starting, same_nmr, one_more, silent))
        registered

  pub register_services-Started :
      (services : List (List Registering)) (b : Broker)
      → IsStarting b
      → AreServices b.nmr (length b.available_services) services
      → length b.available_services + length services < 2 ^ 16
      → Returns
          (Started b.nmr (length b.available_services + length services))
          (register_services services b)
  unfolding register_services heard
  register_services-Started [] b h are_services room = (h, refl, omega arith, refl)
  register_services-Started (copies ∷ services) b h (all, are_copies, later) room =
      let n = length b.available_services in
      Returns-bind (Started b.nmr (n + 1)) (Started b.nmr (n + length (copies ∷ services)))
        (register_all bo copies b) _ (register_all-Started b copies h all are_copies (omega arith))
        λ first (starting, same, one_more, silent).
          Returns-bind (Started first.0.nmr (length first.0.available_services + length services))
            (Started b.nmr (n + length (copies ∷ services))) (register_services services first.0) _
            (register_services-Started services first.0 starting
              (subst (λ (i : ℕ). AreServices first.0.nmr i services) (sym (one_more ∙ add-one n))
                (subst (λ (k : ℕ). AreServices k (suc n) services) (sym same) later))
              (omega (arith, one_more)))
            λ rest (starting', same', all_more, silent'). (
              starting',
              same' ∙ same,
              omega (arith, all_more, one_more),
              heard-append bo first.1 rest.1 ∙ rw (silent, silent') refl,
            )

  -- From the constructor, with `nmr` from 2 to 128: when the copies of fewer than 65536 services
  -- register, of the types 0, 1, 2 and so on in this order, each with `nmr` copies one behind the
  -- other, the first with a text as its signature, every registration comes back, exactly these
  -- services are available, and the broker is steady.
  pub register_services-IsSteady :
      (nmr : ℕ) (services : List (List Registering))
      → 2 ≤ nmr
      → nmr ≤ 128
      → length services < 2 ^ 16
      → AreServices nmr 0 services
      → (b : Broker) × (sent : List Output) × (register_services services (create nmr)
          ≡ ok (b, sent))
        × IsSteady b
        × (b.nmr ≡ nmr)
        × (length b.available_services ≡ length services)
  unfolding create
  register_services-IsSteady nmr services many few room are_services =
      let ((b, sent), ran, (starting, same, all, silent)) =
        Returns-ok (Started nmr (0 + length services)) (register_services services (create nmr)) (
          register_services-Started services (create nmr) (create-IsStarting nmr many few)
            are_services (omega arith)) in
      (b, sent, ran, starting.steady, same, omega (arith, all))
