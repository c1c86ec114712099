-- ===== src/Sink.antt =====
-- The `Sink<SyncRequest>` through which a side answers, as state. The peer may hang up: `closes`
-- counts the messages that still get through, and is `none` for a channel that stays open.
use harmonic.Prelude.{◌≡◌, refl, ℕ, zero, suc, Option, none, some, List, [], ◌∷◌, ◌++◌}
use harmonic.Error.{HarmonicError, send_error, Outcome, ok, err, panicked, unfinished}
use harmonic.Proto.{SyncRequest}

pub record Sink : Type 0 where
  pub sent : List SyncRequest
  pub closes : Option ℕ

-- Code that sends: what it returns, and the sink that it leaves.
abbrev pub Sends : Type 0 → Type 0
Sends A = Sink → Outcome A × Sink

abbrev pub and_then : {A B : Type 0} → Outcome A × Sink → (A → Sends B) → Outcome B × Sink
and_then (ok a, s) f = f a s
and_then (err e, s) f = (err e, s)
and_then (panicked, s) f = (panicked, s)
and_then (unfinished, s) f = (unfinished, s)

pub and_then_assoc :
    {A B C : Type 0} (run : Outcome A × Sink) (f : A → Sends B) (g : B → Sends C)
    → and_then run (λ a s. and_then (f a s) g) ≡ and_then (and_then run f) g
and_then_assoc (ok a, s) f g = refl
and_then_assoc (err e, s) f g = refl
and_then_assoc (panicked, s) f g = refl
and_then_assoc (unfinished, s) f g = refl

infixl 5 ◌>>=◌ ◌>>◌
abbrev pub ◌>>=◌ : {A B : Type 0} → Sends A → (A → Sends B) → Sends B
◌>>=◌ m f s = and_then (m s) f

abbrev pub ◌>>◌ : {A B : Type 0} → Sends A → Sends B → Sends B
◌>>◌ m k s = and_then (m s) (λ _. k)

abbrev pub lift : {A : Type 0} → Outcome A → Sends A
lift o s = (o, s)

abbrev pub pure : {A : Type 0} → A → Sends A
pure a s = (ok a, s)

abbrev pub raise : {A : Type 0} → HarmonicError → Sends A
raise e s = (err e, s)

abbrev pub panic : {A : Type 0} → Sends A
panic s = (panicked, s)

abbrev deliver : Option ℕ → SyncRequest → Sends (Unit {0})
deliver none request s = (ok tt, record s { sent = s.sent ++ request ∷ [] })
deliver (some zero) request s = (err (send_error []), s)
deliver (some (suc n)) request s =
    (ok tt, record s { sent = s.sent ++ request ∷ []; closes = some n })

-- `tx.send(request).await`
unfoldable pub send : SyncRequest → Sends (Unit {0})
send request s = deliver s.closes request s
