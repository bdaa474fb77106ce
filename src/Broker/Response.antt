-- ===== src/Broker/Response.antt =====
-- src/broker/broker_class.cpp: `RSF_Broker::get_response`.
pub mod Collect
pub mod Masking
use reliable_service_framewo.Prelude.{ℕ, ◌/◌, List, [], ◌∷◌, if◌then◌else◌, Outcome, ok, ◌>>=◌}
use reliable_service_framewo.Prelude.Int.{ℤ, pos, ltb_ℤ, leb_ℤ, ◌==ℤ◌, to_int32, to_uint32}
use reliable_service_framewo.Wire.{
  ByteOrder, IdFrame, Envelope, ServerReply, service_available, service_not_reliable,
}
use reliable_service_framewo.Database.{push_result, get_result, delete_request, register_pong}
use reliable_service_framewo.Vote.{vote}
use reliable_service_framewo.Broker.{Broker, Output, to_client}

module _ (bo : ByteOrder) where
  open bo use {htonl, ntohl}

  abbrev pub response : IdFrame → ℕ → ℤ → Output
  response id_frame status result = to_client (record {
    id_frame = id_frame;
    data_frame = record { service_status = htonl status; result = htonl (to_uint32 result) };
  })

  -- The answer to a client and the deletion of its request.
  unfoldable pub answer : IdFrame → ℕ → ℕ → ℤ → Broker → Outcome (Broker × List Output)
  answer id_frame service status result b = do
    db' ← delete_request service id_frame.client_id b.db
    ok (record b { db = db' }, response id_frame status result ∷ [])

  -- What follows `push_result`: `num_copies` results have come in. With no majority, the answer carries
  -- `uninit`, some value for the variable `result`, which C++ leaves undefined to read.
  unfoldable pub decide : IdFrame → ℕ → ℤ → ℤ → Broker → Outcome (Broker × List Output)
  decide id_frame service num_copies uninit b =
      if ltb_ℤ (pos (b.nmr / 2)) num_copies
      then (do
        values ← get_result service id_frame.client_id b.db
        voted ← vote b.nmr values uninit
        if leb_ℤ (pos 0) voted.0
            then answer id_frame service service_available voted.1 b
            else (if num_copies ==ℤ pos b.nmr
                then answer id_frame service service_not_reliable voted.1 b
                else ok (b, [])))
      else ok (b, [])

  -- `uninit` is what the variable `result` holds before `vote` sets it. The client number, which is read
  -- one byte into the first frame, is a field.
  unfoldable pub get_response : Envelope ServerReply → ℤ → Broker → Outcome (Broker × List Output)
  get_response e uninit b =
      let reply = e.data_frame in
      let result = to_int32 (ntohl reply.result) in
      let service = ntohl reply.service in
      if reply.heartbeat
      then (do db' ← register_pong reply.id service b.db; ok (record b { db = db' }, []))
      else (if reply.duplicated then ok (b, []) else (do
        pushed ← push_result service result e.id_frame.client_id b.db
        decide e.id_frame service pushed.1 uninit (record b { db = pushed.0 })))
