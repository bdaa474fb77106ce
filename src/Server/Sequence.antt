-- ===== src/Server/Sequence.antt =====
-- The sequence numbers of requests at a server (src/server/server_class.cpp).
use reliable_service_framewo.Prelude.{
  ℕ, ◌+◌, ◌^◌, ◌<◌, ◌≡◌, refl, ◌≢◌, ◌⊎◌, inr, List, [], ◌∷◌, ◌++◌, map, All, length, replicate,
  Outcome, ok, ◌>>=◌, arith,
}
use reliable_service_framewo.Wire.{ByteOrder, c_string}
use reliable_service_framewo.Server.{
  Server, Action, send_reply, spawn, Uninit, on_request, duplicated_reply,
}

-- A request that a server receives: its number, the bytes of its parameters, and the text that they
-- hold.
pub record Request : Type 0 where
  pub received_id : ℕ
  pub parameters : List ℕ
  pub text : List ℕ

module _ (bo : ByteOrder) (u : Uninit) where
  -- The requests as they come in.
  unfoldable pub on_requests : List Request → Server → Outcome (Server × List Action)
  on_requests [] s = ok (s, [])
  on_requests (r ∷ rs) s = do
    first ← on_request bo r.received_id r.parameters u s
    rest ← on_requests rs first.0
    ok (rest.0, first.1 ++ rest.1)

  -- The numbers go up by one from `n`, and the parameters hold a text.
  abbrev pub IsConsecutive : ℕ → List Request → Type 0
  IsConsecutive n [] = Unit
  IsConsecutive n (r ∷ rs) =
      (r.received_id ≡ n) × (c_string r.parameters ≡ ok r.text) × IsConsecutive (n + 1) rs

  served :
      (n : ℕ) (r : Request) (s : Server)
      → (s.request_id ≡ 0) ⊎ (s.request_id ≡ n)
      → r.received_id ≡ n
      → c_string r.parameters ≡ ok r.text
      → n + 1 < 2 ^ 32
      → on_request bo r.received_id r.parameters u s
        ≡ ok (record s { request_id = n + 1 }, spawn r.text ∷ [])
  unfolding on_request
  served n r s starts number text small = ground (arith, text)

  expected_served :
      (n : ℕ) (rs : List Request) (s : Server)
      → s.request_id ≡ n
      → IsConsecutive n rs
      → n + length rs < 2 ^ 32
      → on_requests rs s ≡ ok (record s { request_id = n + length rs }, map (λ r. spawn r.text) rs)
  unfolding on_requests
  expected_served n [] s starts numbers small = ground arith
  expected_served n (r ∷ rs) s starts (number, text, numbers) small =
      rw
        (
          served n r s (inr starts) number text (omega arith),
          expected_served (n + 1) rs (record s { request_id = n + 1 }) refl numbers (omega arith),
        )
        (ground arith)

  -- A server that has served nothing, or that expects the number `n`, serves requests with the
  -- numbers n, n + 1, and so on, whose parameters hold a text and whose numbers do not wrap, each
  -- once and in order.
  pub on_requests_consecutive :
      (n : ℕ) (r : Request) (rs : List Request) (s : Server)
      → (s.request_id ≡ 0) ⊎ (s.request_id ≡ n)
      → IsConsecutive n (r ∷ rs)
      → n + 1 + length rs < 2 ^ 32
      → on_requests (r ∷ rs) s
        ≡ ok (record s { request_id = n + 1 + length rs }, map (λ r. spawn r.text) (r ∷ rs))
  unfolding on_requests
  on_requests_consecutive n r rs s starts (number, text, numbers) small = rw (
    served n r s starts number text (omega arith),
    expected_served (n + 1) rs (record s { request_id = n + 1 }) refl numbers (omega arith),
  )

  -- The request is refused as duplicated.
  pub on_request_refused :
      (r : Request) (s : Server)
      → s.request_id ≢ 0
      → r.received_id ≢ s.request_id
      → c_string r.parameters ≡ ok r.text
      → on_request bo r.received_id r.parameters u s
        ≡ ok (s, send_reply (duplicated_reply bo u s) ∷ [])
  unfolding on_request
  on_request_refused r s started other text = ground (arith, text)

  -- A server that has served requests refuses all requests (whose parameters hold a text) with
  -- other numbers than the one it expects, however many come, and goes on expecting the same
  -- number.
  pub on_requests_stuck :
      (rs : List Request) (s : Server)
      → s.request_id ≢ 0
      → All (λ r. (r.received_id ≢ s.request_id) × (c_string r.parameters ≡ ok r.text)) rs
      → on_requests rs s ≡ ok (s, replicate (length rs) (send_reply (duplicated_reply bo u s)))
  unfolding on_requests
  on_requests_stuck [] s started others = refl
  on_requests_stuck (r ∷ rs) s started others = rw (
    on_request_refused r s started others.0.0 others.0.1,
    on_requests_stuck rs s started others.1,
  )

  -- A request that was served, with a text as parameters and a number that does not wrap, is
  -- refused as duplicated when it comes once more.
  pub on_request_twice :
      (r : Request) (s : Server)
      → (s.request_id ≡ 0) ⊎ (s.request_id ≡ r.received_id)
      → c_string r.parameters ≡ ok r.text
      → r.received_id + 1 < 2 ^ 32
      → let s' : Server = record s { request_id = r.received_id + 1 } in
        on_requests (r ∷ r ∷ []) s
        ≡ ok (s', spawn r.text ∷ send_reply (duplicated_reply bo u s') ∷ [])
  unfolding on_requests
  on_request_twice r s starts text small =
      let s' : Server = record s { request_id = r.received_id + 1 } in
      rw (
        served r.received_id r s starts refl text small,
        on_request_refused r s' (omega arith) (omega arith) text,
      )
