-- ===== src/Client.antt =====
-- include/rsf_api.hpp: `RSF_Client::request_service`, without the sockets: the request that it sends,
-- and what it makes of the response.
pub mod RoundTrip
use reliable_service_framewo.Prelude.{
  ℕ, ◌+◌, Bool, true, false, List, [], ◌∷◌, ◌++◌, leb, ◌==◌, if◌then◌else◌, length, Outcome, ok,
  ◌>>=◌, ◌>>◌, in_bounds,
}
use reliable_service_framewo.Prelude.Int.{ℤ, to_int32}
use reliable_service_framewo.Wire.{
  ByteOrder, RequestModule, ResponseModule, service_not_available, service_not_reliable, param_size,
}
use reliable_service_framewo.Params.{serialize}

-- `strcpy` into the `PARAM_SIZE` bytes of an array: the text and its NUL. The rest of the array keeps
-- what it held, `uninit`.
unfoldable pub strcpy : List ℕ → List ℕ → Outcome (List ℕ)
strcpy text uninit = do in_bounds (leb (length text + 1) param_size); ok (text ++ 0 ∷ uninit)

module _ (bo : ByteOrder) where
  open bo use {htonl, ntohl}

  unfoldable pub make_request : ℕ → List ℤ → List ℕ → Outcome RequestModule
  make_request service args uninit = do
    parameters ← strcpy (serialize args) uninit
    ok (record { service = htonl service; parameters = parameters })

  -- The value that is returned, and what `result` holds afterwards.
  unfoldable pub read_response : ResponseModule → ℤ → Bool × ℤ
  read_response response result =
      if ntohl response.service_status == service_not_reliable
      then (false, result)
      else if ntohl response.service_status == service_not_available
      then (false, result)
      else (true, to_int32 (ntohl response.result))
