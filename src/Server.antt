-- ===== src/Server.antt =====
-- include/server_class.hpp and src/server/server_class.cpp: `RSF_Server`. One round of `step` takes
-- what the sockets deliver and the readings of the clock; the sockets themselves are left to ZeroMQ.
pub mod Task
pub mod Sequence
pub mod Liveness
use reliable_service_framewo.Prelude.{
  ℕ, ◌+◌, ◌%◌, ◌^◌, ◌*◌, Bool, true, false, not, ◌&&◌, Option, none, some, List, [], ◌∷◌, ◌++◌, leb,
  ltb, ◌==◌, if◌then◌else◌, map, Outcome, ok, exits, ◌>>=◌,
}
use reliable_service_framewo.Prelude.Int.{ℤ, pos, negsuc, ltb_ℤ, leb_ℤ, ◌==ℤ◌}
use reliable_service_framewo.Wire.{
  ByteOrder, ServiceModule, ServerReply, RegistrationModule, heartbeat_interval, wcdping, liveness,
  c_string,
}
use reliable_service_framewo.Time.{TimeSpec, time_add_ms, is_later}
use reliable_service_framewo.Service.{get_service_body}
use reliable_service_framewo.Registrator.{registration, Attempt}

-- The poll set: the socket of the health checker, and that of the broker once it is connected.
pub data PollItem : Type 0 where
  hc_item reply_item : PollItem

pub record Server : Type 0 where
  pub id : ℕ
  pub service_type : ℕ
  pub service : ℤ → Outcome ℤ
  pub ping_id : ℕ
  pub request_id : ℕ
  pub broker_port : ℤ
  pub items : List PollItem
  pub reg_ok : Bool
  pub ping_loss : ℕ
  pub deadline : TimeSpec  -- `time_t` of `step`
  pub send_reg : Bool  -- the static variable of `register_service`

-- The constructor and the lines of `step` before the loop; `deadline` is not set yet.
unfoldable pub create : ℕ → ℕ → TimeSpec → Outcome Server
create id service_type uninit = do
  service ← get_service_body service_type
  ok (record {
    id = id;
    service_type = service_type;
    service = service;
    ping_id = 0;
    request_id = 0;
    broker_port = pos 0;
    items = hc_item ∷ [];
    reg_ok = false;
    ping_loss = 0;
    deadline = uninit;
    send_reg = false;
  })

-- What the server does to its surroundings. `spawn` starts a thread with the text of the parameters.
pub data Action : Type 0 where
  send_reply : ServerReply → Action
  spawn : List ℕ → Action
  pong_health_checker : Action
  send_registration : RegistrationModule → Action
  connect : ℤ → Action

abbrev pub limit : TimeSpec → TimeSpec
limit now = time_add_ms now (heartbeat_interval + wcdping)

-- `items.erase(items.end() - 1)`
unfoldable pub erase_last : List PollItem → List PollItem
erase_last [] = []
erase_last (x ∷ []) = []
erase_last (x ∷ y ∷ xs) = x ∷ erase_last (y ∷ xs)

-- What the unset fields of a reply hold.
pub record Uninit : Type 0 where
  pub result : ℕ
  pub duplicated : Bool

module _ (bo : ByteOrder) where
  open bo use {htonl, ntohl}

  -- `pong_broker`
  unfoldable pub pong_broker : Uninit → Server → ServerReply
  pong_broker u s = record {
    heartbeat = true;
    duplicated = u.duplicated;
    result = u.result;
    service = htonl s.service_type;
    id = s.id;
  }

  unfoldable pub duplicated_reply : Uninit → Server → ServerReply
  duplicated_reply u s = record {
    heartbeat = false;
    duplicated = true;
    result = u.result;
    service = htonl s.service_type;
    id = s.id;
  }

  -- A request: `receive_request` reads the parameters as a text, then `received_id` is compared with
  -- the expected `request_id`.
  unfoldable pub on_request : ℕ → List ℕ → Uninit → Server → Outcome (Server × List Action)
  on_request received_id parameters u s = c_string parameters >>= λ text.
      let expected = if s.request_id == 0 then received_id else s.request_id in
      if received_id == expected
      then ok (record s { request_id = (expected + 1) % 2 ^ 32 }, spawn text ∷ [])
      else ok (record s { request_id = expected }, send_reply (duplicated_reply u s) ∷ [])

  -- The branch of a ping.
  unfoldable pub on_ping : ℕ → Uninit → Server → Server × List Action
  on_ping received_id u s =
      let expected = if s.ping_id == 0 then received_id else s.ping_id in
      (
        record s {
          ping_id = if received_id == expected then (expected + 1) % 2 ^ 32 else expected;
        },
        send_reply (pong_broker u s) ∷ [],
      )

  -- A message of the broker, with the reading of the clock behind it.
  unfoldable pub on_message :
      ServiceModule → TimeSpec → Uninit → Server → Outcome (Server × List Action)
  on_message sm now u s =
      let s' = record s { deadline = limit now } in
      if sm.heartbeat
      then ok (on_ping (ntohl sm.seq_id) u s')
      else on_request (ntohl sm.seq_id) sm.parameters u s'

  -- The branch `if (!reg_ok)`; `received` is what the registration socket delivers.
  unfoldable pub register : Option ℕ → TimeSpec → Server → Outcome (Server × List Action)
  register received now s =
      let attempt = registration bo s.service_type received s.send_reg in
      let s' = record s { broker_port = attempt.port; send_reg = attempt.send_reg } in
      let sent = map send_registration attempt.sent in
      if ltb_ℤ (pos 0) attempt.port && leb_ℤ attempt.port (pos 65535)
      then ok (
        record s' {
          items = s.items ++ reply_item ∷ [];
          reg_ok = true;
          ping_loss = 0;
          deadline = limit now;
        },
        sent ++ connect attempt.port ∷ [],
      )
      else if attempt.port ==ℤ pos 0
      then exits
      else ok (s', sent)

-- The last test of `step`: a ping of the broker is overdue. `polled` is the reading behind the poll.
unfoldable pub check_broker : TimeSpec → TimeSpec → Server → Server
check_broker polled now s =
    let lost = record s { deadline = limit now; ping_loss = s.ping_loss + 1 } in
    if is_later polled s.deadline && s.reg_ok
    then (if s.ping_loss + 1 == liveness
        then record lost { items = erase_last s.items; reg_ok = false }
        else lost)
    else s

-- What one round reads.
pub record Round : Type 0 where
  pub message : Option ServiceModule
  pub hc_ping : Bool
  pub received : Option ℕ
  pub polled : TimeSpec
  pub handled : TimeSpec
  pub registered : TimeSpec
  pub expired : TimeSpec
  pub uninit : Uninit

module _ (bo : ByteOrder) where
  -- The socket of the broker is polled, and read, while `reg_ok` holds.
  unfoldable pub receive : Round → Server → Outcome (Server × List Action)
  receive r s = elim r.message [
    | none ↦ ok (s, [])
    | some sm ↦ if s.reg_ok then on_message bo sm r.handled r.uninit s else ok (s, [])
  ]

  unfoldable pub register_if_needed : Round → Server → Outcome (Server × List Action)
  register_if_needed r s =
      if not s.reg_ok then register bo r.received r.registered s else ok (s, [])

  -- One round of `step`.
  unfoldable pub step : Round → Server → Outcome (Server × List Action)
  step r s = do
    first ← receive r s
    let answered : List Action = if r.hc_ping then pong_health_checker ∷ [] else []
    second ← register_if_needed r first.0
    ok (check_broker r.polled r.expired second.0, first.1 ++ answered ++ second.1)
