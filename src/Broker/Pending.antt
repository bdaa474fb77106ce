-- ===== src/Broker/Pending.antt =====
-- src/broker/broker_class.cpp: `RSF_Broker::check_pending_requests`. The variable `result` is declared
-- outside of both loops, so its value is passed on from each round to the next. It is not set at
-- first: some value stands for what is read then, which C++ leaves undefined.
pub mod Misfire
pub mod Expired
use reliable_service_framewo.Prelude.{
  ℕ, ◌+◌, List, [], ◌∷◌, ◌++◌, if◌then◌else◌, Outcome, ok, ◌>>=◌,
}
use reliable_service_framewo.Prelude.Int.{ℤ, pos, leb_ℤ}
use reliable_service_framewo.Wire.{ByteOrder, IdFrame, service_available, service_not_reliable}
use reliable_service_framewo.Time.{TimeSpec, is_later}
use reliable_service_framewo.Database.{RequestRecord, delete_request, get_pending_requests}
use reliable_service_framewo.Vote.{vote}
use reliable_service_framewo.Broker.{Broker, Output}
use reliable_service_framewo.Broker.Response.{response}

-- The broker, the variable `result`, and what has been sent.
pub record Sweep : Type 0 where
  pub broker : Broker
  pub result : ℤ
  pub sent : List Output

module _ (bo : ByteOrder) (now : TimeSpec) where
  -- A request whose timeout has passed. It is deleted from the service whose type is the index `i`
  -- into `available_services`.
  unfoldable pub give_up : ℕ → RequestRecord → Sweep → Outcome Sweep
  give_up i r s = do
    voted ← vote s.broker.nmr r.results s.result
    db' ← delete_request i r.client_id s.broker.db
    let status = if leb_ℤ (pos 0) voted.0 then service_available else service_not_reliable
    let id_frame : IdFrame = record { lead = 0; client_id = r.client_id }
    ok (record {
      broker = record (s.broker) { db = db' };
      result = voted.1;
      sent = s.sent ++ response bo id_frame status voted.1 ∷ [];
    })

  -- The loop over `pending_requests`, a copy taken before it.
  unfoldable pub sweep_requests : ℕ → List RequestRecord → Sweep → Outcome Sweep
  sweep_requests i [] s = ok s
  sweep_requests i (r ∷ rs) s = do
    s' ← (if is_later now r.timeout then give_up i r s else ok s)
    sweep_requests i rs s'

  -- The loop over `available_services` from `i` on.
  unfoldable pub sweep_services : ℕ → List ℕ → Sweep → Outcome Sweep
  sweep_services i [] s = ok s
  sweep_services i (service ∷ ss) s = do
    pending ← get_pending_requests service s.broker.db
    s' ← sweep_requests i pending s
    sweep_services (i + 1) ss s'

  unfoldable pub check_pending_requests : ℤ → Broker → Outcome (Broker × List Output)
  check_pending_requests uninit b = do
    s ← sweep_services 0 b.available_services (record { broker = b; result = uninit; sent = [] })
    ok (s.broker, s.sent)
