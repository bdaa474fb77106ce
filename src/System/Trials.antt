-- ===== src/System/Trials.antt =====
-- Copies with what they return, over several requests (src/server/server_class.cpp).
use reliable_service_framewo.Prelude.{
  ℕ, ◌+◌, ◌^◌, ◌<◌, ◌≡◌, inl, inr, refl, ap, Option, none, some, List, [], ◌∷◌, map, length, arith,
  All,
}
use reliable_service_framewo.Prelude.Int.{ℤ}
use reliable_service_framewo.System.{Copy, Readings, Part, running, silent, with_readings}
use reliable_service_framewo.System.Replies.{Returns, AllReturn, returned, next_copy}

-- A copy, with what it returns.
abbrev pub Trial : Type 0
Trial = Copy × Option ℤ

abbrev pub copies_in : List Trial → List Copy
copies_in = map (λ t. t.0)

abbrev pub values_in : List Trial → List ℤ
values_in [] = []
values_in ((c, some w) ∷ ts) = w ∷ values_in ts
values_in ((c, none) ∷ ts) = values_in ts

unfoldable pub attach : ℕ → (ℕ → Readings) → List Trial → List (Part × Option ℤ)
attach i f [] = []
attach i f ((c, w) ∷ ts) = ((c, f i), w) ∷ attach (i + 1) f ts

-- The copies behind the request.
unfoldable pub nexts : ℕ → ℕ → (ℕ → Readings) → List Trial → List Trial
nexts seq i f [] = []
nexts seq i f ((c, w) ∷ ts) = (next_copy seq ((c, f i), w), w) ∷ nexts seq (i + 1) f ts

pub attach-with_readings :
    (i : ℕ) (f : ℕ → Readings) (ts : List Trial)
    → map (λ p. p.0) (attach i f ts) ≡ with_readings i f (copies_in ts)
unfolding attach
attach-with_readings i f [] = refl
attach-with_readings i f ((c, w) ∷ ts) = ap (◌∷◌ (c, f i)) (attach-with_readings (i + 1) f ts)

pub length-attach :
    (i : ℕ) (f : ℕ → Readings) (ts : List Trial) → length (attach i f ts) ≡ length ts
unfolding attach
length-attach i f [] = refl
length-attach i f ((c, w) ∷ ts) = omega (arith, length-attach (i + 1) f ts)

pub returned-attach :
    (i : ℕ) (f : ℕ → Readings) (ts : List Trial) → returned (attach i f ts) ≡ values_in ts
unfolding attach
returned-attach i f [] = refl
returned-attach i f ((c, some w) ∷ ts) = ap (◌∷◌ w) (returned-attach (i + 1) f ts)
returned-attach i f ((c, none) ∷ ts) = returned-attach (i + 1) f ts

pub values_in-nexts :
    (seq i : ℕ) (f : ℕ → Readings) (ts : List Trial) → values_in (nexts seq i f ts) ≡ values_in ts
unfolding nexts
values_in-nexts seq i f [] = refl
values_in-nexts seq i f ((c, some w) ∷ ts) = ap (◌∷◌ w) (values_in-nexts seq (i + 1) f ts)
values_in-nexts seq i f ((c, none) ∷ ts) = values_in-nexts seq (i + 1) f ts

pub length-nexts :
    (seq i : ℕ) (f : ℕ → Readings) (ts : List Trial) → length (nexts seq i f ts) ≡ length ts
unfolding nexts
length-nexts seq i f [] = refl
length-nexts seq i f ((c, w) ∷ ts) = omega (arith, length-nexts seq (i + 1) f ts)

pub copies_in-nexts :
    (seq i : ℕ) (f : ℕ → Readings) (ts : List Trial)
    → map (next_copy seq) (attach i f ts) ≡ copies_in (nexts seq i f ts)
unfolding attach nexts
copies_in-nexts seq i f [] = refl
copies_in-nexts seq i f ((c, w) ∷ ts) =
    ap (◌∷◌ (next_copy seq ((c, f i), w))) (copies_in-nexts seq (i + 1) f ts)

module _ (service : ℕ) (x : ℤ) where
  abbrev pub AllServe : ℕ → ℕ → List Trial → Type 0
  AllServe seq stop = All (λ (c, w). Returns service x seq stop c w)

  pub attach-AllReturn :
      (seq stop i : ℕ) (f : ℕ → Readings) (ts : List Trial)
      → AllServe seq stop ts
      → AllReturn service x seq stop (attach i f ts)
  unfolding attach
  attach-AllReturn seq stop i f [] h = tt
  attach-AllReturn seq stop i f ((c, w) ∷ ts) h = (h.0, attach-AllReturn seq stop (i + 1) f ts h.1)

  next_copy-Returns :
      (seq stop : ℕ) (c : Copy) (r : Readings) (w : Option ℤ)
      → seq + 1 < 2 ^ 32
      → Returns service x seq stop c w
      → Returns service x (seq + 1) stop (next_copy seq ((c, r), w)) w
  next_copy-Returns seq stop (running s) r (some w) small (kind, expects, hw, returns) =
      (kind, inr (omega arith), hw, returns)
  next_copy-Returns seq stop (running s) r none small (started, inl past) =
      (started, inl (omega arith))
  next_copy-Returns seq stop (running s) r none small (started, inr later) = (started, inr later)
  next_copy-Returns seq stop silent r none small h = tt
  next_copy-Returns seq stop silent r (some w) small h = absurd h

  pub nexts-AllServe :
      (seq stop i : ℕ) (f : ℕ → Readings) (ts : List Trial)
      → seq + 1 < 2 ^ 32
      → AllServe seq stop ts
      → AllServe (seq + 1) stop (nexts seq i f ts)
  unfolding nexts
  nexts-AllServe seq stop i f [] small h = tt
  nexts-AllServe seq stop i f ((c, w) ∷ ts) small h = (
    next_copy-Returns seq stop c (f i) w small h.0,
    nexts-AllServe seq stop (i + 1) f ts small h.1,
  )
