-- ===== src/Broker/Response/Masking.antt =====
-- The redundancy of the framework: what a client hears of one request, over all the replies of the
-- copies (`get_response` of src/broker/broker_class.cpp), in any order and whoever is faulty.
use mathlib.Core.List.{append_assoc, append-nil}
use reliable_service_framewo.Prelude.{
  ℕ, ◌+◌, ◌/◌, ◌^◌, ◌≤◌, ◌<◌, ◌≡◌, refl, ap, ◌∙◌, inl, inr, List, [], ◌∷◌, ◌++◌, map, arith, length,
  length-append, All, ok, Outcome, ◌>>=◌,
}
use reliable_service_framewo.Prelude.Int.{ℤ, IsInt32}
use reliable_service_framewo.Wire.{ByteOrder, IdFrame, service_available, service_not_reliable}
use reliable_service_framewo.Database.{append}
use reliable_service_framewo.Vote.Majority.{
  occurrences, occurrences-add, IsOpen, majority_or_IsOpen,
}
use reliable_service_framewo.Broker.{Broker, Output}
use reliable_service_framewo.Broker.Response.{response, get_response}
use reliable_service_framewo.Broker.Response.Collect.{
  Pending, Settled, reply_of, get_result_lem, decide_majority, decide_open, answer_lem, gather,
  late,
}

-- A reply that comes in: the copy, its result, and what the variable `result` of the handler holds.
pub record Arrival : Type 0 where
  pub id : ℕ
  pub value : ℤ
  pub uninit : ℤ

abbrev pub values_of : List Arrival → List ℤ
values_of = map (λ a. a.value)

occurrences-append :
    (v : ℤ) (xs ys : List ℤ) → occurrences v (xs ++ ys) ≡ occurrences v xs + occurrences v ys
occurrences-append v [] ys = omega arith
occurrences-append v (x ∷ xs) ys = ground (arith, occurrences-append v xs ys)

pub length-map_value : (later : List Arrival) → length (values_of later) ≡ length later
length-map_value [] = refl
length-map_value (a ∷ later) = omega (arith, length-map_value later)

-- Two majorities, of the values so far and of all, are one.
majority_unique :
    (nmr : ℕ) (v w : ℤ) (xs ys : List ℤ)
    → length (xs ++ ys) ≤ nmr
    → nmr / 2 < occurrences w xs
    → nmr / 2 < occurrences v (xs ++ ys)
    → w ≡ v
majority_unique nmr v w xs ys short more all =
    ground (arith, occurrences-add w v (xs ++ ys), occurrences-append w xs ys)

module _ (bo : ByteOrder) (id_frame : IdFrame) (service : ℕ) where
  -- The replies to the client's request, handled as they come in.
  unfoldable pub collect : List Arrival → Broker → Outcome (Broker × List Output)
  collect [] b = ok (b, [])
  collect (a ∷ later) b = do
    first ← get_response bo (reply_of bo id_frame service a.id a.value) a.uninit b
    rest ← collect later first.0
    ok (rest.0, first.1 ++ rest.1)

  collect-cons :
      (a : Arrival) (later : List Arrival) (b b' b'' : Broker) (sent sent' : List Output)
      → get_response bo (reply_of bo id_frame service a.id a.value) a.uninit b ≡ ok (b', sent)
      → collect later b' ≡ ok (b'', sent')
      → collect (a ∷ later) b ≡ ok (b'', sent ++ sent')
  unfolding collect
  collect-cons a later b b' b'' sent sent' e e' = rw (e, e')

  abbrev pub AllInt32 : List Arrival → Type 0
  AllInt32 = All (λ a. IsInt32 a.value)

  -- Once the client has its answer, later replies send nothing.
  collect-Settled :
      (later : List Arrival) (b : Broker)
      → service < 2 ^ 32
      → AllInt32 later
      → Settled service id_frame.client_id b
      → (b' : Broker) × (collect later b ≡ ok (b', [])) × Settled service id_frame.client_id b'
  unfolding collect
  collect-Settled [] b hs hx p = (b, refl, p)
  collect-Settled (a ∷ later) b hs hx p =
      let (b', e, p') = late bo id_frame service a.id a.value a.uninit b hs hx.0 p in
      let (b'', e', p'') = collect-Settled later b' hs hx.1 p' in
      (b'', collect-cons a later b b' b'' [] [] e e', p'')

  -- As long as no value has a majority and copies are missing, the broker sends nothing.
  gather_open :
      (values : List ℤ) (a : Arrival) (b : Broker)
      → service < 2 ^ 32
      → IsInt32 a.value
      → b.nmr ≤ 128
      → length values + 1 < b.nmr
      → IsOpen b.nmr (append values a.value)
      → Pending service id_frame.client_id values b
      → (b' : Broker) × (get_response bo (reply_of bo id_frame service a.id a.value) a.uninit b
          ≡ ok (b', []))
        × Pending service id_frame.client_id (append values a.value) b'
        × (b'.nmr ≡ b.nmr)
  gather_open values a b hs hx small missing none_more p =
      let new = append values a.value in
      let (b', e, p', same) = gather bo id_frame service a.id a.value a.uninit b values hs hx p in
      let got = get_result_lem b' service id_frame.client_id p'.entry new p'.found p'.gathered in
      let n : length new ≡ length values + 1 = length-append values (a.value ∷ []) in
      let d =
        decide_open bo id_frame service a.uninit b' new got (omega arith) (omega arith)
          (rw same none_more) in
      (b', e ∙ d ∙ ground arith, p', same)

  -- The reply that completes a majority is answered by its value.
  gather_majority :
      (values : List ℤ) (a : Arrival) (v : ℤ) (b : Broker)
      → service < 2 ^ 32
      → IsInt32 a.value
      → b.nmr ≤ 128
      → length values < b.nmr
      → b.nmr / 2 < occurrences v (append values a.value)
      → Pending service id_frame.client_id values b
      → (b' : Broker) × (get_response bo (reply_of bo id_frame service a.id a.value) a.uninit b
          ≡ ok (b', response bo id_frame service_available v ∷ []))
        × Settled service id_frame.client_id b'
        × (b'.nmr ≡ b.nmr)
  gather_majority values a v b hs hx small short more p =
      let new = append values a.value in
      let (b', e, p', same) = gather bo id_frame service a.id a.value a.uninit b values hs hx p in
      let got = get_result_lem b' service id_frame.client_id p'.entry new p'.found p'.gathered in
      let n : length new ≡ length values + 1 = length-append values (a.value ∷ []) in
      let d =
        decide_majority bo id_frame service a.uninit b' new v got (omega arith) (omega arith)
          (rw same more) in
      let (b'', e', s, same') =
        answer_lem bo id_frame service a.uninit b' p'.entry service_available v p'.found
          (omega (arith, p'.once)) in
      (b'', e ∙ d ∙ e', s, same' ∙ same)

  -- The last copy's reply, when no value has a majority, is answered by "not reliable".
  gather_last :
      (values : List ℤ) (a : Arrival) (b : Broker)
      → service < 2 ^ 32
      → IsInt32 a.value
      → b.nmr ≤ 128
      → length values + 1 ≡ b.nmr
      → IsOpen b.nmr (append values a.value)
      → Pending service id_frame.client_id values b
      → (b' : Broker) × (get_response bo (reply_of bo id_frame service a.id a.value) a.uninit b
          ≡ ok (b', response bo id_frame service_not_reliable a.uninit ∷ []))
        × Settled service id_frame.client_id b'
        × (b'.nmr ≡ b.nmr)
  gather_last values a b hs hx small all none_more p =
      let new = append values a.value in
      let (b', e, p', same) = gather bo id_frame service a.id a.value a.uninit b values hs hx p in
      let got = get_result_lem b' service id_frame.client_id p'.entry new p'.found p'.gathered in
      let n : length new ≡ length values + 1 = length-append values (a.value ∷ []) in
      let d =
        decide_open bo id_frame service a.uninit b' new got (omega arith) (omega arith)
          (rw same none_more) in
      let (b'', e', s, same') =
        answer_lem bo id_frame service a.uninit b' p'.entry service_not_reliable a.uninit p'.found
          (omega (arith, p'.once)) in
      (b'', e ∙ d ∙ ground (arith, e'), s, same' ∙ same)

  -- Once a majority is complete, the rest of the replies adds nothing.
  win :
      (values : List ℤ) (a : Arrival) (later : List Arrival) (v : ℤ) (b : Broker)
      → service < 2 ^ 32
      → AllInt32 (a ∷ later)
      → b.nmr ≤ 128
      → length values < b.nmr
      → b.nmr / 2 < occurrences v (append values a.value)
      → Pending service id_frame.client_id values b
      → (b' : Broker) × (collect (a ∷ later) b
          ≡ ok (b', response bo id_frame service_available v ∷ []))
        × Settled service id_frame.client_id b'
  win values a later v b hs hx small short more p =
      let (b', e, s, _) = gather_majority values a v b hs hx.0 small short more p in
      let (b'', e', s') = collect-Settled later b' hs hx.1 s in
      (b'', collect-cons a later b b' b'' _ [] e e', s')

  -- For a client with one pending request, and results so far without a majority, the replies with
  -- `int32_t` results that come in, at most `nmr` (at most 128) with the results so far, are
  -- answered exactly once with the value that more than half of `nmr` copies returned, whatever
  -- the others returned.
  pub collect_majority :
      (values : List ℤ) (later : List Arrival) (v : ℤ) (b : Broker)
      → service < 2 ^ 32
      → AllInt32 later
      → b.nmr ≤ 128
      → length values + length later ≤ b.nmr
      → IsOpen b.nmr values
      → b.nmr / 2 < occurrences v (values ++ values_of later)
      → Pending service id_frame.client_id values b
      → (b' : Broker) × (collect later b ≡ ok (b', response bo id_frame service_available v ∷ []))
        × Settled service id_frame.client_id b'
  collect_majority values [] v b hs hx small short none_more more p =
      absurd (omega (arith, none_more v, ap (occurrences v) (append-nil values)))
  collect_majority values (a ∷ []) v b hs hx small short none_more more p =
      win values a [] v b hs hx small (omega arith) more p
  collect_majority values (a ∷ a' ∷ later) v b hs hx small short none_more more p =
      let new = append values a.value in
      let n : length new ≡ length values + 1 = length-append values (a.value ∷ []) in
      let regroup = append_assoc values (a.value ∷ []) (values_of (a' ∷ later)) in
      let whole : b.nmr / 2 < occurrences v (new ++ values_of (a' ∷ later)) = rw regroup more in
      elim (majority_or_IsOpen b.nmr new (omega arith)) [
        | inl (w, often) ↦
            let same : w ≡ v =
              majority_unique b.nmr v w new (values_of (a' ∷ later))
                (omega (
                  arith,
                  length-append new (values_of (a' ∷ later)),
                  length-map_value (a' ∷ later),
                ))
                often whole in
            win values a (a' ∷ later) v b hs hx small (omega arith)
              (omega (arith, often, ap (λ u. occurrences u new) same)) p
        | inr still_open ↦
            let (b', e, p', nmr) =
              gather_open values a b hs hx.0 small (omega arith) still_open p in
            let (b'', e', s) =
              collect_majority new (a' ∷ later) v b' hs hx.1 (omega arith) (omega arith)
                (rw nmr still_open) (rw nmr whole) p' in
            (b'', collect-cons a (a' ∷ later) b b' b'' [] _ e e', s)
      ]

  -- When the replies of all `nmr` (at most 128) copies, with `int32_t` results, come in for a
  -- client with one pending request and no value has a majority, the client is told exactly once
  -- that the service is not reliable, and its request goes.
  pub collect_open :
      (values : List ℤ) (later : List Arrival) (b : Broker)
      → service < 2 ^ 32
      → AllInt32 later
      → b.nmr ≤ 128
      → length values < b.nmr
      → length values + length later ≡ b.nmr
      → IsOpen b.nmr (values ++ values_of later)
      → Pending service id_frame.client_id values b
      → (result : ℤ) × (b' : Broker) × (collect later b
          ≡ ok (b', response bo id_frame service_not_reliable result ∷ []))
        × Settled service id_frame.client_id b'
  collect_open values [] b hs hx small some_missing all none_more p = absurd (omega arith)
  collect_open values (a ∷ []) b hs hx small some_missing all none_more p =
      let (b', e, s, _) = gather_last values a b hs hx.0 small (omega arith) none_more p in
      (a.uninit, b', collect-cons a [] b b' b' _ [] e (unfold collect in refl), s)
  collect_open values (a ∷ a' ∷ later) b hs hx small some_missing all none_more p =
      let new = append values a.value in
      let n : length new ≡ length values + 1 = length-append values (a.value ∷ []) in
      let regroup = append_assoc values (a.value ∷ []) (values_of (a' ∷ later)) in
      let whole : IsOpen b.nmr (new ++ values_of (a' ∷ later)) = rw regroup none_more in
      let still_open : IsOpen b.nmr new =
        λ v. omega (arith, whole v, occurrences-append v new (values_of (a' ∷ later))) in
      let (b', e, p', nmr) = gather_open values a b hs hx.0 small (omega arith) still_open p in
      let (result, b'', e', s) =
        collect_open new (a' ∷ later) b' hs hx.1 (omega arith) (omega arith) (omega arith)
          (rw nmr whole) p' in
      (result, b'', collect-cons a (a' ∷ later) b b' b'' [] _ e e', s)
