-- ===== src/Broker/Step.antt =====
-- src/broker/broker_class.cpp: one round of `RSF_Broker::step`, and a run of it.
pub mod Consistent
pub mod Invariant
pub mod Sequence
use reliable_service_framewo.Prelude.{
  ℕ, zero, suc, Bool, Option, none, some, List, [], ◌∷◌, ◌++◌, if◌then◌else◌, length, Outcome, ok,
  ◌≡◌, refl, ◌>>=◌,
}
use reliable_service_framewo.Prelude.Int.{ℤ, to_uint32}
use reliable_service_framewo.Wire.{
  ByteOrder, Envelope, RequestModule, RegistrationModule, ServerReply,
}
use reliable_service_framewo.Time.{TimeSpec}
use reliable_service_framewo.Broker.{Broker, Output, to_health_checker}
use reliable_service_framewo.Broker.Registration.{get_registration}
use reliable_service_framewo.Broker.Request.{get_request}
use reliable_service_framewo.Broker.Response.{get_response}
use reliable_service_framewo.Broker.Heartbeat.{check_timeouts}
use reliable_service_framewo.Broker.Pending.{check_pending_requests}

-- What one round reads: which sockets the poll reports and the message on each, the readings of the
-- clock, and what the variables that are not set hold. `replies` goes by the index of the dealer.
pub record Round : Type 0 where
  pub ping : Bool
  pub registration : Option (Envelope RegistrationModule)
  pub request : Option (Envelope RequestModule)
  pub replies : List (Option (Envelope ServerReply))
  pub now : TimeSpec
  pub armed : TimeSpec
  pub pushed : TimeSpec
  pub postponed : TimeSpec
  pub rearmed : TimeSpec
  pub checked : TimeSpec
  pub uninit : ℤ
  pub uninit_parameters : List ℕ

-- A handler, and handlers in sequence.
abbrev pub Handler : Type 0
Handler = Broker → Outcome (Broker × List Output)

abbrev pub idle : Handler
idle b = ok (b, [])

infixl 6 ◌then_run◌
abbrev pub ◌then_run◌ : Handler → Handler → Handler
◌then_run◌ f g b = do first ← f b; second ← g first.0; ok (second.0, first.1 ++ second.1)

pub then_run-ok :
    (f g : Handler) (b : Broker) {first second : Broker × List Output}
    → f b ≡ ok first
    → g first.0 ≡ ok second
    → (f then_run g) b ≡ ok (second.0, first.1 ++ second.1)
then_run-ok f g b e e' = rw (e, e') refl

-- `if (items[…].revents & ZMQ_POLLIN)`
abbrev pub on {ℓ} : {A : Type ℓ} → Option A → (A → Handler) → Handler
on none f = idle
on (some a) f = f a

-- `pong_health_checker`
unfoldable pub pong_health_checker : Handler
pong_health_checker b = ok (b, to_health_checker ∷ [])

module _ (bo : ByteOrder) where
  -- `for (i = 0; i < dealer.size(); i++)`, on the rounds that are left.
  unfoldable pub get_responses : ℕ → List (Option (Envelope ServerReply)) → ℤ → Handler
  get_responses zero replies uninit b = ok (b, [])
  get_responses (suc n) [] uninit b = ok (b, [])
  get_responses (suc n) (reply ∷ replies) uninit b = do
    first ← on reply (λ e. get_response bo e uninit) b
    rest ← get_responses n replies uninit first.0
    ok (rest.0, first.1 ++ rest.1)

  unfoldable pub step : Round → Handler
  step r =
      (if r.ping then pong_health_checker else idle)
      then_run on r.registration (λ e. get_registration bo e r.armed)
      then_run on r.request (λ e. get_request bo e r.pushed r.postponed (to_uint32 r.uninit))
      then_run (λ b. get_responses (length b.dealers) r.replies r.uninit b)
      then_run check_timeouts bo r.now r.uninit_parameters r.rearmed
      then_run check_pending_requests bo r.checked r.uninit

  -- The loop, for as many rounds as are given.
  unfoldable pub run : List Round → Handler
  run [] = idle
  run (r ∷ rs) = step r then_run run rs
