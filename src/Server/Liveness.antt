-- ===== src/Server/Liveness.antt =====
-- How a server finds that the broker is gone (src/server/server_class.cpp).
use reliable_service_framewo.Prelude.{
  ℕ, ◌<◌, ◌≡◌, refl, ◌∙◌, Bool, true, false, inl, inr, Option, List, [], ◌∷◌, ◌++◌, if◌then◌else◌,
  Outcome, ok, exits, undefined, hangs, ◌>>=◌, Ensures, Ensures-bind, Ensures-after, Ensures-ok,
  Ensures-if, Bool-cases, Option-cases, arith, ◌&&◌, ◌==◌,
}
use reliable_service_framewo.Prelude.Int.{pos, ltb_ℤ, leb_ℤ, ◌==ℤ◌}
use reliable_service_framewo.Wire.{ByteOrder, ServiceModule, c_string}
use reliable_service_framewo.Time.{TimeSpec, is_later}
use reliable_service_framewo.Service.{get_service_body}
use reliable_service_framewo.Registrator.{registration}
use reliable_service_framewo.Server.{
  Server, PollItem, hc_item, reply_item, Action, Uninit, Round, create, erase_last, on_request,
  on_ping, on_message, register, check_broker, receive, register_if_needed, step,
}

-- The broker's socket is polled exactly while the server is registered, and a registered server has
-- lost fewer than three pings.
abbrev pub polled_items : Bool → List PollItem
polled_items true = hc_item ∷ reply_item ∷ []
polled_items false = hc_item ∷ []

pub record IsPolling (s : Server) : Type 0 where
  pub polled : s.items ≡ polled_items s.reg_ok
  pub alive : s.reg_ok ≡ true → s.ping_loss < 3

check_broker-IsPolling :
    (polled now : TimeSpec) (s : Server) → IsPolling s → IsPolling (check_broker polled now s)
unfolding check_broker erase_last
check_broker-IsPolling polled now s h = ground arith

-- The messages of the broker change neither the poll set, nor the registration, nor the losses.
pub record SameLink (s s' : Server) : Type 0 where
  pub same_items : s'.items ≡ s.items
  pub same_reg : s'.reg_ok ≡ s.reg_ok
  pub same_loss : s'.ping_loss ≡ s.ping_loss

SameLink-IsPolling : (s s' : Server) → SameLink s s' → IsPolling s → IsPolling s'
SameLink-IsPolling s s' l h = ground (arith, l.same_items, l.same_reg, l.same_loss)

Ensures-weaken :
    {s : Server} (m : Outcome (Server × List Action))
    → Ensures (λ p. SameLink s p.0) m
    → IsPolling s
    → Ensures (λ p. IsPolling p.0) m
Ensures-weaken (ok p) l h = SameLink-IsPolling _ p.0 l h
Ensures-weaken exits l h = tt
Ensures-weaken undefined l h = tt
Ensures-weaken hangs l h = tt

create-IsPolling :
    (id service_type : ℕ) (uninit : TimeSpec) → Ensures IsPolling (create id service_type uninit)
unfolding create
create-IsPolling id service_type uninit =
    Ensures-after IsPolling (get_service_body service_type) _
      λ service. record { polled = refl; alive = λ e. cc }

module _ (bo : ByteOrder) where
  on_message-SameLink :
      (sm : ServiceModule) (now : TimeSpec) (u : Uninit) (s : Server)
      → Ensures (λ p. SameLink s p.0) (on_message bo sm now u s)
  unfolding on_message on_ping on_request
  on_message-SameLink sm now u s =
      let same : (s' : Server)
          → s'.items ≡ s.items
          → s'.reg_ok ≡ s.reg_ok
          → s'.ping_loss ≡ s.ping_loss
          → SameLink s s' =
        λ s' a b c. record { same_items = a; same_reg = b; same_loss = c } in
      let Q : Server × List Action → Type 0 = λ p. SameLink s p.0 in
      let received = bo.ntohl sm.seq_id in
      Ensures-if Q sm.heartbeat _ _ (same _ refl refl refl) (
        Ensures-after Q (c_string sm.parameters) _ λ text.
          Ensures-if Q (received == (if s.request_id == 0 then received else s.request_id)) _ _
            (same _ refl refl refl) (same _ refl refl refl))

  receive-IsPolling :
      (r : Round) (s : Server) → IsPolling s → Ensures (λ p. IsPolling p.0) (receive bo r s)
  unfolding receive
  receive-IsPolling r s h = elim (Option-cases r.message) [
    | inl nothing ↦ rw nothing h
    | inr (sm, there) ↦ rw there (
        Ensures-if (λ p. IsPolling p.0) s.reg_ok _ _
          (Ensures-weaken (on_message bo sm r.handled r.uninit s)
            (on_message-SameLink sm r.handled r.uninit s) h)
          h)
  ]

  register-IsPolling :
      (received : Option ℕ) (now : TimeSpec) (s : Server)
      → s.reg_ok ≡ false
      → IsPolling s
      → Ensures (λ p. IsPolling p.0) (register bo received now s)
  unfolding register
  register-IsPolling received now s out h =
      let attempt = registration bo s.service_type received s.send_reg in
      let Q : Server × List Action → Type 0 = λ p. IsPolling p.0 in
      Ensures-if Q (ltb_ℤ (pos 0) attempt.port && leb_ℤ attempt.port (pos 65535)) _ _
        (record { polled = ground (arith, h.polled); alive = λ _. omega arith })
        (Ensures-if Q (attempt.port ==ℤ pos 0) _ _ tt
          (record { polled = h.polled; alive = h.alive }))

  step-IsPolling :
      (r : Round) (s : Server) → IsPolling s → Ensures (λ p. IsPolling p.0) (step bo r s)
  unfolding step register_if_needed
  step-IsPolling r s h =
      let Q : Server × List Action → Type 0 = λ p. IsPolling p.0 in
      Ensures-bind Q Q (receive bo r s) _ (receive-IsPolling r s h) λ first h'.
        Ensures-bind Q Q (register_if_needed bo r first.0) _
          (elim (Bool-cases first.0.reg_ok) [
            | inl registered ↦ simp registered h'
            | inr out ↦ simp out (register-IsPolling r.received r.registered first.0 out h')
          ])
          λ second h''. check_broker-IsPolling r.polled r.expired second.0 h''

  -- Rounds in sequence.
  unfoldable pub run : List Round → Server → Outcome (Server × List Action)
  run [] s = ok (s, [])
  run (r ∷ rs) s = do first ← step bo r s; rest ← run rs first.0; ok (rest.0, first.1 ++ rest.1)

  run_keeps : (rs : List Round) (s : Server) → IsPolling s → Ensures (λ p. IsPolling p.0) (run rs s)
  unfolding run
  run_keeps [] s h = h
  run_keeps (r ∷ rs) s h =
      Ensures-bind (λ p. IsPolling p.0) (λ p. IsPolling p.0) (step bo r s) _ (step-IsPolling r s h)
        λ first h'.
          Ensures-bind (λ p. IsPolling p.0) (λ p. IsPolling p.0) (run rs first.0) _
            (run_keeps rs first.0 h') λ rest h''. h''

  -- After any run of a server from its constructor that comes back, the broker's socket is in the
  -- poll set exactly while the server is registered, and a registered server has lost fewer than 3
  -- pings.
  pub run-IsPolling :
      (id service_type : ℕ) (uninit : TimeSpec) (rs : List Round) {s0 s : Server}
      {done : List Action}
      → create id service_type uninit ≡ ok s0
      → run rs s0 ≡ ok (s, done)
      → IsPolling s
  run-IsPolling id service_type uninit rs {s0} made e =
      let start =
        Ensures-ok IsPolling (create id service_type uninit)
          (create-IsPolling id service_type uninit) made in
      Ensures-ok (λ p. IsPolling p.0) (run rs s0) (run_keeps rs s0 start) e

  -- The messages of the broker, each with the reading of the clock behind it.
  unfoldable pub on_messages :
      List (ServiceModule × TimeSpec) → Uninit → Server → Outcome (Server × List Action)
  on_messages [] u s = ok (s, [])
  on_messages ((sm, now) ∷ ms) u s = do
    first ← on_message bo sm now u s
    rest ← on_messages ms u first.0
    ok (rest.0, first.1 ++ rest.1)

  SameLink-trans : (s t w : Server) → SameLink s t → SameLink t w → SameLink s w
  SameLink-trans s t w a b = record {
    same_items = b.same_items ∙ a.same_items;
    same_reg = b.same_reg ∙ a.same_reg;
    same_loss = b.same_loss ∙ a.same_loss;
  }

  on_messages-SameLink :
      (ms : List (ServiceModule × TimeSpec)) (u : Uninit) (s : Server)
      → Ensures (λ p. SameLink s p.0) (on_messages ms u s)
  unfolding on_messages
  on_messages-SameLink [] u s = record { same_items = refl; same_reg = refl; same_loss = refl }
  on_messages-SameLink ((sm, now) ∷ ms) u s =
      Ensures-bind (λ p. SameLink s p.0) (λ p. SameLink s p.0) (on_message bo sm now u s) _
        (on_message-SameLink sm now u s)
        λ first a.
          Ensures-bind (λ p. SameLink first.0 p.0) (λ p. SameLink s p.0) (on_messages ms u first.0)
            _ (on_messages-SameLink ms u first.0) λ rest b. SameLink-trans s first.0 rest.0 a b

  -- A registered server that has lost two pings gives the broker up at the next overdue one,
  -- however many messages of the broker it has handled before.
  pub losses_add_up :
      (ms : List (ServiceModule × TimeSpec)) (u : Uninit) (polled now : TimeSpec) (s : Server)
      {s' : Server} {done : List Action}
      → s.reg_ok ≡ true
      → s.ping_loss ≡ 2
      → on_messages ms u s ≡ ok (s', done)
      → is_later polled s'.deadline ≡ true
      → ((check_broker polled now s').reg_ok ≡ false)
        × ((check_broker polled now s').items ≡ erase_last s.items)
  unfolding check_broker
  losses_add_up ms u polled now s registered lost e late =
      let link =
        Ensures-ok (λ p. SameLink s p.0) (on_messages ms u s) (on_messages-SameLink ms u s) e in
      ground (arith, link.same_items, link.same_reg, link.same_loss)
