-- ===== src/Broker/Step/Sequence.antt =====
-- Handlers in sequence (`RSF_Broker::step` of src/broker/broker_class.cpp): how they are grouped does
-- not matter.
use mathlib.Core.List.{append_assoc}
use mathlib.Core.Path.{fun_ext}
use reliable_service_framewo.Prelude.{
  ◌≡◌, refl, sym, ap, ◌∙◌, List, [], ◌∷◌, ◌++◌, Outcome, ok, exits, undefined, hangs, ◌>>=◌,
}
use reliable_service_framewo.Wire.{ByteOrder}
use reliable_service_framewo.Broker.{Broker, Output}
use reliable_service_framewo.Broker.Step.{Handler, idle, ◌then_run◌, Round, step, run}

abbrev Ran : Type 0
Ran = Outcome (Broker × List Output)

-- A result, behind the messages that are sent already.
abbrev behind : List Output → Ran → Ran
behind sent m = do last ← m; ok (last.0, sent ++ last.1)

abbrev follow : Ran → Handler → Ran
follow m f = do first ← m; behind first.1 (f first.0)

behind_append :
    (sent told : List Output) (m : Ran) → behind (sent ++ told) m ≡ behind sent (behind told m)
behind_append sent told (ok (b, last)) = ap (λ l. ok (b, l)) (append_assoc sent told last)
behind_append sent told exits = refl
behind_append sent told undefined = refl
behind_append sent told hangs = refl

follow-behind :
    (sent : List Output) (m : Ran) (f : Handler)
    → follow (behind sent m) f ≡ behind sent (follow m f)
follow-behind sent (ok (b, told)) f = behind_append sent told (f b)
follow-behind sent exits f = refl
follow-behind sent undefined f = refl
follow-behind sent hangs f = refl

follow_assoc : (m : Ran) (f g : Handler) → follow (follow m f) g ≡ follow m (λ b. follow (f b) g)
follow_assoc (ok (b, sent)) f g = follow-behind sent (f b) g
follow_assoc exits f g = refl
follow_assoc undefined f g = refl
follow_assoc hangs f g = refl

sent_nothing : (m : Ran) → behind [] m ≡ m
sent_nothing (ok (b, sent)) = refl
sent_nothing exits = refl
sent_nothing undefined = refl
sent_nothing hangs = refl

pub then_run_assoc :
    (f g k : Handler) (b : Broker) → ((f then_run g) then_run k) b ≡ (f then_run (g then_run k)) b
then_run_assoc f g k b = follow_assoc (f b) g k

pub idle_first : (f : Handler) (b : Broker) → (idle then_run f) b ≡ f b
idle_first f b = sent_nothing (f b)

pub run-append :
    (bo : ByteOrder) (rs rs' : List Round) (b : Broker)
    → run bo (rs ++ rs') b ≡ (run bo rs then_run run bo rs') b
unfolding run
run-append bo [] rs' b = sym (idle_first (run bo rs') b)
run-append bo (r ∷ rs) rs' b =
    ap (λ (f : Handler). (step bo r then_run f) b) (fun_ext (run-append bo rs rs'))
    ∙ sym (then_run_assoc (step bo r) (run bo rs) (run bo rs') b)
