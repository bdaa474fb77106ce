-- ===== src/System/Session.antt =====
-- A client that calls one service again and again (src/client/client_test.cpp): the sequence numbers of
-- the broker and of the copies stay together.
use reliable_service_framewo.Prelude.{
  ℕ, ◌+◌, ◌/◌, ◌^◌, ◌≤◌, ◌<◌, ◌≡◌, refl, sym, ap, ◌∙◌, true, Bool, some, List, [], ◌∷◌, map, length,
  replicate, Outcome, ok, arith, count_if,
}
use reliable_service_framewo.Prelude.Int.{ℤ, IsInt32}
use reliable_service_framewo.Wire.{ByteOrder, IdFrame}
use reliable_service_framewo.Database.{ServiceRecord, is_client}
use reliable_service_framewo.Vote.Majority.{occurrences}
use reliable_service_framewo.Broker.{Broker}
use reliable_service_framewo.Broker.Response.Collect.{Settled}
use reliable_service_framewo.System.{Copy, Part, Call, with_readings, request_service, call_all}
use reliable_service_framewo.System.Ready.{Ready}
use reliable_service_framewo.System.Replies.{next_copy}
use reliable_service_framewo.System.Masking.{request_service_masks_faults}
use reliable_service_framewo.System.Trials.{
  Trial, copies_in, values_in, attach, nexts, attach-with_readings, length-attach, returned-attach,
  values_in-nexts, length-nexts, copies_in-nexts, AllServe, attach-AllReturn, nexts-AllServe,
}

module _ (bo : ByteOrder) (id_frame : IdFrame) (service : ℕ) (x y : ℤ) (nmr stop : ℕ)
    (hs : service < 2 ^ 32) (hx : IsInt32 x) (hy : IsInt32 y) (few : nmr ≤ 128)
    (small : stop < 2 ^ 32) where
  no_request_pending :
      (b : Broker) (seq copies : ℕ)
      → Settled service id_frame.client_id b
      → (h : Ready service seq copies nmr b)
      → count_if (is_client id_frame.client_id) h.serving.entry.request_records ≡ 0
  no_request_pending b seq copies settled h =
      let same : some (settled.entry) ≡ some (h.serving.entry) =
        sym settled.found ∙ h.serving.found in
      let entry : settled.entry ≡ h.serving.entry = cc in
      ap (λ (r : ServiceRecord). count_if (is_client id_frame.client_id) r.request_records)
        (sym entry)
      ∙ settled.gone

  abbrev succeeded : Broker → List Copy → Outcome (Broker × List Copy × (Bool × ℤ))
  succeeded b copies = ok (b, copies, (true, y))

  -- One call.
  call :
      (k : Call) (seq : ℕ) (ts : List Trial) (old : ℤ) (b : Broker)
      → Ready service seq (length ts) nmr b
      → Settled service id_frame.client_id b
      → seq < stop
      → length ts ≤ nmr
      → AllServe service x seq stop ts
      → nmr / 2 < occurrences y (values_in ts)
      → (b' : Broker) × (request_service bo id_frame k.uninit_parameters k.pushed k.postponed
            k.uninit service
            (x ∷ [])
            old
            (with_readings 0 k.readings (copies_in ts))
            b
          ≡ ok (b', copies_in (nexts seq 0 k.readings ts), (true, y)))
        × Settled service id_frame.client_id b'
        × Ready service (seq + 1) (length ts) nmr b'
  call k seq ts old b h settled before short serves more =
      let ps = attach 0 k.readings ts in
      let (b', heard, settled', ready) =
        request_service_masks_faults bo id_frame service x k.uninit_parameters hs hx k.pushed
          k.postponed k.uninit old b h.serving stop ps y
          (no_request_pending b seq (length ts) settled h) (omega (arith, h.numbered))
          (omega (arith, h.numbered)) (length-attach 0 k.readings ts ∙ sym h.reliable)
          (omega (arith, length-attach 0 k.readings ts, h.redundancy)) (omega (arith, h.redundancy))
          (rw h.numbered (attach-AllReturn service x seq stop 0 k.readings ts serves))
          (rw (h.redundancy, returned-attach 0 k.readings ts) more) hy in
      (
        b',
        ap
              (λ (parts : List Part).
                request_service bo id_frame k.uninit_parameters k.pushed k.postponed k.uninit
                  service (x ∷ []) old parts b)
              (sym (attach-with_readings 0 k.readings ts))
            ∙ heard
            ∙ ap (λ n. succeeded b' (map (next_copy n) ps)) h.numbered
            ∙ ap (succeeded b') (copies_in-nexts seq 0 k.readings ts),
        settled',
        record {
          serving = ready.serving;
          numbered = ready.numbered ∙ ap (λ n. n + 1) h.numbered;
          reliable = ready.reliable ∙ h.reliable;
          redundancy = ready.redundancy ∙ h.redundancy;
        },
      )

  -- A client calls one service any number of times, as the loop of its main program does, with one
  -- `int32_t` argument, under the conditions of a single call at the first, and the broker handles
  -- all replies to a call before the next request: the copies return the same values in every
  -- call, those that refuse the first request or are down refuse them all, and the numbers stay
  -- below `stop`, which does not wrap. If more than half of `nmr` copies return one `int32_t`
  -- value, every call comes back, with true and that value, and the broker numbers the request
  -- behind them as many higher.
  pub call_all_masks_faults :
      (ks : List Call) (seq : ℕ) (ts : List Trial) (old : ℤ) (b : Broker)
      → Ready service seq (length ts) nmr b
      → Settled service id_frame.client_id b
      → seq + length ks ≤ stop
      → length ts ≤ nmr
      → AllServe service x seq stop ts
      → nmr / 2 < occurrences y (values_in ts)
      → (b' : Broker) × (copies' : List Copy) × (call_all bo id_frame service
            (x ∷ [])
            ks
            old
            (copies_in ts)
            b
          ≡ ok (b', copies', replicate (length ks) (true, y)))
        × Ready service (seq + length ks) (length ts) nmr b'
  unfolding call_all
  call_all_masks_faults [] seq ts old b h settled before short serves more = (
    b,
    copies_in ts,
    refl,
    record {
      serving = h.serving;
      numbered = omega (arith, h.numbered);
      reliable = h.reliable;
      redundancy = h.redundancy;
    },
  )
  call_all_masks_faults (k ∷ ks) seq ts old b h settled before short serves more =
      let later = nexts seq 0 k.readings ts in
      let same_length = length-nexts seq 0 k.readings ts in
      let (b1, first, settled1, h1) =
        call k seq ts old b h settled (omega arith) short serves more in
      let (b2, copies', rest, h2) =
        call_all_masks_faults ks (seq + 1) later y b1 (rw same_length h1) settled1 (omega arith)
          (omega (arith, same_length))
          (nexts-AllServe service x seq stop 0 k.readings ts (omega arith) serves)
          (rw (values_in-nexts seq 0 k.readings ts) more) in
      (
        b2,
        copies',
        rw (first, rest) refl,
        record {
          serving = h2.serving;
          numbered = omega (arith, h2.numbered);
          reliable = h2.reliable ∙ same_length;
          redundancy = h2.redundancy;
        },
      )
