-- ===== src/Broker/Steady/Runs.antt =====
-- `step` and its loop (src/broker/broker_class.cpp) at a broker that is steady: every round comes back,
-- and the books of the clients balance.
use reliable_service_framewo.Prelude.{
  ℕ, ◌+◌, ◌≡◌, refl, List, [], ◌∷◌, ◌++◌, ok, Ensures, Ensures-ok, Returns-ok, arith,
}
use reliable_service_framewo.Wire.{ByteOrder}
use reliable_service_framewo.Broker.{Broker, Output}
use reliable_service_framewo.Broker.Step.{Round, step, run, then_run-ok}
use reliable_service_framewo.Broker.Ballots.View.{heard}
use reliable_service_framewo.Broker.Steady.{IsSteady, Lasts-refl}
use reliable_service_framewo.Broker.Steady.Tally.{answers}
use reliable_service_framewo.Broker.Steady.Accounts.{Tallied, Tallied-trans, pending}
use reliable_service_framewo.Broker.Steady.Rounds.{IsPlausibleRound, NoneLate, asked, step-Tallied}

module _ (bo : ByteOrder) where
  -- Every round is plausible for the broker that the rounds before it leave.
  abbrev pub ArePlausibleRounds : List Round → Broker → Type 0
  ArePlausibleRounds [] b = Unit
  ArePlausibleRounds (r ∷ rs) b =
      IsPlausibleRound bo r b × Ensures (λ p. ArePlausibleRounds rs p.0) (step bo r b)

  -- The requests of a client in the rounds.
  abbrev pub all_asked : List Round → ℕ → ℕ
  all_asked [] c = 0
  all_asked (r ∷ rs) c = asked bo r.request c + all_asked rs c

  -- At a steady broker (`nmr` is from 1 to 128, the available services are exactly the known ones,
  -- of the types 0, 1, 2 and so on in this order, each with a dealer, a timeout, and `nmr` entries
  -- for pongs and for losses, no client waits twice for a service, and who waits has fewer than
  -- `nmr` results, `int32_t` values with no majority among them), a round comes back, in which a
  -- copy may register for a known service, a client asks a service that is not known or for which
  -- it does not wait, the replies are of known services, and the pongs of copies below `nmr`,
  -- whatever the clock says, and leaves the broker steady and with no pending request whose
  -- timeout has passed at the last reading of the clock.
  pub step-NoneLate :
      (r : Round) (b : Broker)
      → IsSteady b
      → IsPlausibleRound bo r b
      → (b' : Broker) × (sent : List Output) × (step bo r b ≡ ok (b', sent))
        × IsSteady b'
        × NoneLate r.checked b'
  step-NoneLate r b h plausible =
      let ((b', sent), ran, (books, none_late)) =
        Returns-ok _ (step bo r b) (step-Tallied bo r b h plausible) in
      (b', sent, ran, books.0.steady, none_late)

  run-Tallied :
      (rs : List Round) (b : Broker)
      → IsSteady b
      → ArePlausibleRounds rs b
      → (p : Broker × List Output) × (run bo rs b ≡ ok p) × Tallied bo (all_asked rs) b p
  unfolding run heard
  run-Tallied [] b h plausible = ((b, []), refl, (Lasts-refl b h, λ c. omega arith))
  run-Tallied (r ∷ rs) b h (plausible, later) =
      let (first, ran, (books, none_late)) =
        Returns-ok _ (step bo r b) (step-Tallied bo r b h plausible) in
      let (rest, ran', books') =
        run-Tallied rs first.0 books.0.steady
          (Ensures-ok (λ p. ArePlausibleRounds rs p.0) (step bo r b) later ran) in
      (
        (rest.0, first.1 ++ rest.1),
        then_run-ok (step bo r) (run bo rs) b ran ran',
        Tallied-trans bo (asked bo r.request) (all_asked rs) (all_asked (r ∷ rs)) b first rest
            (λ c. refl) books books',
      )

  -- At a steady broker (`nmr` is from 1 to 128, the available services are exactly the known ones,
  -- of the types 0, 1, 2 and so on in this order, each with a dealer, a timeout, and `nmr` entries
  -- for pongs and for losses, no client waits twice for a service, and who waits has fewer than
  -- `nmr` results, `int32_t` values with no majority among them), every run of rounds comes back,
  -- in which a copy registers for a known service or none does, a client asks a service that is
  -- not known or for which it does not wait, or none does, the replies are of known services, and
  -- the pongs of copies below `nmr`, whatever the clock says, and leaves the broker steady. Of
  -- each client, as many requests are answered or still pending behind the run as were pending
  -- before it or came in.
  pub run_balances :
      (rs : List Round) (b : Broker)
      → IsSteady b
      → ArePlausibleRounds rs b
      → (b' : Broker) × (sent : List Output) × (run bo rs b ≡ ok (b', sent))
        × IsSteady b'
        × ((c : ℕ) → answers c (heard bo sent) + pending c b' ≡ pending c b + all_asked rs c)
  run_balances rs b h plausible =
      let ((b', sent), ran, (lasts, books)) = run-Tallied rs b h plausible in
      (b', sent, ran, lasts.steady, books)
