-- ===== src/System/Replies.antt =====
-- What the copies make of one request (src/server/server_class.cpp), and what the broker gets from
-- them (src/broker/broker_class.cpp).
use mathlib.Core.Path.{fun_ext}
use reliable_service_framewo.Prelude.{
  ℕ, ◌+◌, ◌%◌, ◌^◌, ◌≤◌, ◌<◌, ◌≡◌, ◌≢◌, ◌⊎◌, refl, ap, ◌∙◌, false, Option, none, some, List, [],
  ◌∷◌, ◌++◌, map, length, replicate, Outcome, ok, exits, undefined, hangs, ◌>>=◌, arith, All,
}
use reliable_service_framewo.Prelude.Int.{ℤ, IsInt32}
use reliable_service_framewo.Wire.{ByteOrder, IdFrame, Envelope, ServiceModule, ServerReply}
use reliable_service_framewo.Broker.{Broker, Output, to_server}
use reliable_service_framewo.Broker.Response.{get_response}
use reliable_service_framewo.Broker.Response.Collect.{reply_of}
use reliable_service_framewo.Broker.Response.Masking.{Arrival, values_of, AllInt32, collect}
use reliable_service_framewo.Broker.Step.{Handler, ◌then_run◌}
use reliable_service_framewo.Server.{Server, limit, on_message, on_request, duplicated_reply}
use reliable_service_framewo.Server.Task.Served.{request_of, c_string-request_of, task_lem}
use reliable_service_framewo.System.{
  Copy, Readings, running, silent, Part, perform, exchange, deliver, receive_all,
}

nothing_sent :
    (m : Outcome (Broker × List Output)) → (m >>= λ second. ok (second.0, [] ++ second.1)) ≡ m
nothing_sent (ok (b, sent)) = refl
nothing_sent exits = refl
nothing_sent undefined = refl
nothing_sent hangs = refl

module _ (service : ℕ) (x : ℤ) where
  -- What a copy makes of the request `seq`: a server that expects it returns `some` value, and one
  -- that does not, or is down, `none`. Nor does such a server expect a request from there to `stop`.
  abbrev pub Returns : ℕ → ℕ → Copy → Option ℤ → Type 0
  Returns seq stop (running s) (some w) =
      (s.service_type ≡ service)
      × ((s.request_id ≡ 0) ⊎ (s.request_id ≡ seq))
      × IsInt32 w
      × (s.service x ≡ ok w)
  Returns seq stop (running s) none =
      (s.request_id ≢ 0) × ((s.request_id < seq) ⊎ (stop ≤ s.request_id))
  Returns seq stop silent (some w) = ⊥
  Returns seq stop silent none = Unit

  -- The copies, each with what it makes of the request.
  abbrev pub AllReturn : ℕ → ℕ → List (Part × Option ℤ) → Type 0
  AllReturn seq stop = All (λ (p, w). Returns seq stop p.0 w)

-- A copy behind the request.
abbrev pub next_copy : ℕ → Part × Option ℤ → Copy
next_copy seq ((running s, r), some w) =
    running (record s { request_id = (seq + 1) % 2 ^ 32; deadline = limit r.handled })
next_copy seq ((running s, r), none) = running (record s { deadline = limit r.handled })
next_copy seq ((silent, r), w) = silent

-- The values that are returned.
abbrev pub returned : List (Part × Option ℤ) → List ℤ
returned [] = []
returned ((p, some w) ∷ ps) = w ∷ returned ps
returned ((p, none) ∷ ps) = returned ps

module _ (bo : ByteOrder) (id_frame : IdFrame) (service : ℕ) where
  abbrev envelope : ServerReply → Envelope ServerReply
  envelope r = record { id_frame = id_frame; data_frame = r }

  -- What the broker gets, with what its variable `result` holds.
  unfoldable pub replies_of : List (Part × Option ℤ) → List (Envelope ServerReply × ℤ)
  replies_of [] = []
  replies_of (((running s, r), some w) ∷ ps) =
      (reply_of bo id_frame service s.id w, r.result) ∷ replies_of ps
  replies_of (((running s, r), none) ∷ ps) =
      (envelope (duplicated_reply bo r.uninit s), r.result) ∷ replies_of ps
  replies_of (((silent, r), w) ∷ ps) = replies_of ps

  unfoldable pub arrivals : List (Part × Option ℤ) → List Arrival
  arrivals [] = []
  arrivals (((running s, r), some w) ∷ ps) =
      record { id = s.id; value = w; uninit = r.result } ∷ arrivals ps
  arrivals (((running s, r), none) ∷ ps) = arrivals ps
  arrivals (((silent, r), w) ∷ ps) = arrivals ps

  pub receive_all-collect :
      (ps : List (Part × Option ℤ)) (b : Broker)
      → receive_all bo (replies_of ps) b ≡ collect bo id_frame service (arrivals ps) b
  unfolding receive_all replies_of arrivals collect get_response duplicated_reply
  receive_all-collect [] b = refl
  receive_all-collect (((running s, r), some w) ∷ ps) b =
      ap
        (λ (f : Handler).
          (get_response bo (reply_of bo id_frame service s.id w) r.result then_run f) b)
        (fun_ext (receive_all-collect ps))
  receive_all-collect (((running s, r), none) ∷ ps) b =
      nothing_sent (receive_all bo (replies_of ps) b) ∙ receive_all-collect ps b
  receive_all-collect (((silent, r), w) ∷ ps) b = receive_all-collect ps b

  module _ (x : ℤ) where
    pub arrivals_lem :
        (ps : List (Part × Option ℤ)) (seq stop : ℕ)
        → AllReturn service x seq stop ps
        → (values_of (arrivals ps) ≡ returned ps)
          × AllInt32 bo id_frame service (arrivals ps)
          × (length (arrivals ps) ≤ length ps)
    unfolding arrivals
    arrivals_lem [] seq stop h = (refl, tt, omega arith)
    arrivals_lem (((running s, r), some w) ∷ ps) seq stop ((kind, expects, hw, returns), hs') =
        let (same, int32, short) = arrivals_lem ps seq stop hs' in
        (ap (◌∷◌ w) same, (hw, int32), omega (arith, short))
    arrivals_lem (((running s, r), none) ∷ ps) seq stop (h, hs') =
        let (same, int32, short) = arrivals_lem ps seq stop hs' in
        (same, int32, omega (arith, short))
    arrivals_lem (((silent, r), some w) ∷ ps) seq stop h = absurd h.0
    arrivals_lem (((silent, r), none) ∷ ps) seq stop (h, hs') =
        let (same, int32, short) = arrivals_lem ps seq stop hs' in
        (same, int32, omega (arith, short))

    module _ (uninit_parameters : List ℕ) (hx : IsInt32 x) where
      -- The message of the broker.
      abbrev pub message : ℕ → ServiceModule
      message seq = record {
        heartbeat = false;
        seq_id = bo.htonl seq;
        parameters = (request_of bo x service uninit_parameters).parameters;
      }

      exchange-some :
          (seq stop : ℕ) (s : Server) (r : Readings) (w : ℤ)
          → seq < 2 ^ 32
          → Returns service x seq stop (running s) (some w)
          → exchange bo (message seq) (running s, r)
            ≡ ok (
              next_copy seq ((running s, r), some w),
              (reply_of bo id_frame service s.id w).data_frame ∷ [],
            )
      unfolding exchange on_message on_request perform
      exchange-some seq stop s r w small (kind, expects, hw, returns) = ground (
        arith,
        bo.ntohl_htonl seq small,
        c_string-request_of bo x service uninit_parameters,
        task_lem bo x s.id s.service_type s.service w r.unread hx returns,
        ap bo.htonl kind,
      )

      exchange-none :
          (seq stop : ℕ) (s : Server) (r : Readings)
          → seq < 2 ^ 32
          → seq < stop
          → Returns service x seq stop (running s) none
          → exchange bo (message seq) (running s, r)
            ≡ ok (next_copy seq ((running s, r), none), duplicated_reply bo r.uninit s ∷ [])
      unfolding exchange on_message on_request perform duplicated_reply
      exchange-none seq stop s r small before (started, other) =
          ground
            (arith, bo.ntohl_htonl seq small, c_string-request_of bo x service uninit_parameters)

      pub deliver_lem :
          (i seq stop : ℕ) (ps : List (Part × Option ℤ))
          → seq < 2 ^ 32
          → seq < stop
          → AllReturn service x seq stop ps
          → deliver bo
              (replicate
                (length ps)
                (to_server i (record { id_frame = id_frame; data_frame = message seq })))
              (map (λ p. p.0) ps)
            ≡ ok (map (next_copy seq) ps, replies_of ps)
      unfolding deliver replies_of exchange
      deliver_lem i seq stop [] small before h = refl
      deliver_lem i seq stop (((running s, r), some w) ∷ ps) small before (h, hs') =
          rw (exchange-some seq stop s r w small h, deliver_lem i seq stop ps small before hs') refl
      deliver_lem i seq stop (((running s, r), none) ∷ ps) small before (h, hs') =
          rw (exchange-none seq stop s r small before h, deliver_lem i seq stop ps small before hs')
            refl
      deliver_lem i seq stop (((silent, r), some w) ∷ ps) small before h = absurd h.0
      deliver_lem i seq stop (((silent, r), none) ∷ ps) small before (h, hs') =
          rw (deliver_lem i seq stop ps small before hs') refl
