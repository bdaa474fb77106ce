-- ===== src/Broker/Request.antt =====
-- src/broker/broker_class.cpp: `RSF_Broker::get_request`.
pub mod Accepted
use reliable_service_framewo.Prelude.{
  ℕ, Bool, false, ◌||◌, List, [], ◌∷◌, ltb, ◌==◌, if◌then◌else◌, length, replicate, Outcome, ok,
  ◌>>=◌, ◌>>◌, in_bounds,
}
use reliable_service_framewo.Prelude.Int.{negsuc, pos_part, ◌==ℤ◌}
use reliable_service_framewo.Wire.{ByteOrder, Envelope, RequestModule, service_not_available}
use reliable_service_framewo.Time.{TimeSpec}
use reliable_service_framewo.Database.{
  RequestRecord, find_registration, get_request_id, get_reliable_copies, push_request,
}
use reliable_service_framewo.Broker.{Broker, Output, to_client, to_server, update_timeout}

-- The record that goes to `push_request`, which sets the timeout.
abbrev pub new_request : ℕ → RequestRecord
new_request client_id = record {
  client_id = client_id;
  results = [];
  timeout = record { tv_sec = 0; tv_nsec = 0 };
}

-- `n` sends on `dealer[i]`: the index matters only if there is one.
abbrev pub dealer_exists : ℕ → ℕ → Broker → Bool
dealer_exists n i b = n == 0 || ltb i (length b.dealers)

module _ (bo : ByteOrder) where
  open bo use {htonl, ntohl}

  -- The branch "Service available", for the service in host order and its index of a dealer socket.
  unfoldable pub forward :
      ℕ → ℕ → Envelope RequestModule → TimeSpec → TimeSpec → Broker → Outcome (Broker × List Output)
  forward service dealer e pushed postponed b = do
    numbered ← get_request_id service b.db
    copies ← get_reliable_copies service numbered.0
    in_bounds (dealer_exists copies dealer b)
    db' ← push_request pushed (new_request e.id_frame.client_id) service numbered.0
    b' ← update_timeout postponed service (record b { db = db' })
    ok (
      b',
      replicate copies (
          to_server dealer (record {
            id_frame = e.id_frame;
            data_frame = record {
              heartbeat = false;
              seq_id = htonl numbered.1;
              parameters = e.data_frame.parameters;
            };
          })),
    )

  -- `pushed` and `postponed` are the readings of the clock in `push_request` and `update_timeout`,
  -- and `uninit` the word that the response holds where the code sets no result.
  unfoldable pub get_request :
      Envelope RequestModule → TimeSpec → TimeSpec → ℕ → Broker → Outcome (Broker × List Output)
  get_request e pushed postponed uninit b =
      let service = ntohl e.data_frame.service in
      let ret = find_registration service b.db in
      if ret ==ℤ negsuc 0
      then ok (
        b,
        to_client (record {
          id_frame = e.id_frame;
          data_frame = record { service_status = htonl service_not_available; result = uninit };
        })
            ∷ [],
      )
      else forward service (pos_part ret) e pushed postponed b
