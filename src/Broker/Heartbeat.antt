-- ===== src/Broker/Heartbeat.antt =====
-- src/broker/broker_class.cpp: `RSF_Broker::ping_server`, and the loop of `step` over the timeouts.
use reliable_service_framewo.Prelude.{
  ℕ, zero, suc, ◌+◌, ◌%◌, ◌^◌, true, List, [], ◌++◌, if◌then◌else◌, get_elem?, length, replicate,
  Outcome, ok, ◌>>=◌, ◌>>◌, in_bounds, or_undefined,
}
use reliable_service_framewo.Wire.{ByteOrder, IdFrame}
use reliable_service_framewo.Time.{TimeSpec, is_later}
use reliable_service_framewo.Database.{get_ping_id, get_reliable_copies, check_pong}
use reliable_service_framewo.Broker.{Broker, Output, to_server, update_timeout}
use reliable_service_framewo.Broker.Request.{dealer_exists}

-- `address_ping`: a zero byte and four times the letter a.
abbrev pub address_ping : IdFrame
address_ping = record { lead = 0; client_id = 0x61616161 }

module _ (bo : ByteOrder) where
  open bo use {htonl}

  -- `uninit` is what the parameters of the ping hold.
  unfoldable pub ping_server : ℕ → ℕ → List ℕ → Broker → Outcome (List Output)
  ping_server index service uninit b = do
    let i = index % 2 ^ 8
    ping_id ← get_ping_id service b.db
    provided ← or_undefined (get_elem? b.available_services i)
    copies ← get_reliable_copies provided b.db
    in_bounds (dealer_exists copies i b)
    ok (
        replicate copies (
          to_server i (record {
            id_frame = address_ping;
            data_frame = record { heartbeat = true; seq_id = htonl ping_id; parameters = uninit };
          })))

  -- A heartbeat timeout that has expired; `rearmed` is the reading of the clock in
  -- `update_timeout`.
  unfoldable pub expire : ℕ → List ℕ → TimeSpec → Broker → Outcome (Broker × List Output)
  expire i uninit rearmed b = do
    service ← or_undefined (get_elem? b.available_services i)
    db' ← check_pong service b.db
    sent ← ping_server i service uninit (record b { db = db' })
    b' ← update_timeout rearmed service (record b { db = db' })
    ok (b', sent)

  -- `for (i = 0; i < timeout.size(); i++)`, on the rounds that are left; the size does not change.
  unfoldable pub expire_loop :
      ℕ → ℕ → TimeSpec → List ℕ → TimeSpec → Broker → Outcome (Broker × List Output)
  expire_loop zero i now uninit rearmed b = ok (b, [])
  expire_loop (suc n) i now uninit rearmed b = do
    due ← or_undefined (get_elem? b.timeouts i)
    first ← (if is_later now due then expire i uninit rearmed b else ok (b, []))
    rest ← expire_loop n (i + 1) now uninit rearmed first.0
    ok (rest.0, first.1 ++ rest.1)

  unfoldable pub check_timeouts :
      TimeSpec → List ℕ → TimeSpec → Broker → Outcome (Broker × List Output)
  check_timeouts now uninit rearmed b = expire_loop (length b.timeouts) 0 now uninit rearmed b
