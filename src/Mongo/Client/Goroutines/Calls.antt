-- ===== src/Mongo/Client/Goroutines/Calls.antt =====
-- The calls of the driver that calls of `Connect` and of `Close` of mongo/client.go make together.
use core_shared.Base.{ℕ, List, [], ◌∷◌, ◌++◌, ◌≡◌, ap, sym, refl}
use mathlib.Core.Path.{subst}
use core_shared.Mongo.Client.{World, Event, dial_failed, dial, pinged, disconnected}
use core_shared.Mongo.Client.Goroutines.{
  Goroutines, Step, enter, pass, refuse, accept, miss, answer, disconnect, store_client, store_db,
  leave, read, look, close_open, close_nil, Reach, here, next, started,
}

abbrev pub disconnects : List ℕ → List Event
disconnects [] = []
disconnects (h ∷ hs) = disconnected h ∷ disconnects hs

disconnects-append :
    (hs : List ℕ) (h : ℕ) → disconnects (hs ++ h ∷ []) ≡ disconnects hs ++ disconnected h ∷ []
disconnects-append [] h = refl
disconnects-append (k ∷ hs) h = ap (λ t. disconnected k ∷ t) (disconnects-append hs h)

-- The third list has the elements of the first and of the second, each in their order.
pub data Interleaved : List Event → List Event → List Event → Type 0 where
  alone : {xs : List Event} → Interleaved xs [] xs
  first :
      {xs ys zs : List Event} (e : Event)
      → Interleaved xs ys zs
      → Interleaved (xs ++ e ∷ []) ys (zs ++ e ∷ [])
  second :
      {xs ys zs : List Event} (e : Event)
      → Interleaved xs ys zs
      → Interleaved xs (ys ++ e ∷ []) (zs ++ e ∷ [])

abbrev pub CallsAgree : Goroutines → Type 0
CallsAgree s = Interleaved s.world.trace (disconnects s.shut) s.calls

Step-CallsAgree : {s t : Goroutines} → Step s t → CallsAgree s → CallsAgree t
Step-CallsAgree (enter _ _ _ _) c = c
Step-CallsAgree (pass _ _ _) c = c
Step-CallsAgree (refuse _ _ _) c = first dial_failed c
Step-CallsAgree (accept _ h _) c = first (dial h) c
Step-CallsAgree (miss _ h _ _) c = first (pinged h) c
Step-CallsAgree (answer _ h _) c = first (pinged h) c
Step-CallsAgree (disconnect _ h _) c = first (disconnected h) c
Step-CallsAgree (store_client _ _ _) c = c
Step-CallsAgree (store_db _ _ _) c = c
Step-CallsAgree (leave _ _) c = c
Step-CallsAgree (read _ _) c = c
Step-CallsAgree (look _ _) c = c
Step-CallsAgree {s} (close_open _ h _) c =
    subst (λ ys. Interleaved s.world.trace ys (s.calls ++ disconnected h ∷ []))
      (sym (disconnects-append s.shut h)) (second (disconnected h) c)
Step-CallsAgree (close_nil _ _) c = c

pub Reach-Interleaved : {start : World} {s : Goroutines} → Reach (started start) s → CallsAgree s
Reach-Interleaved here = alone
Reach-Interleaved (next r st) = Step-CallsAgree st (Reach-Interleaved r)
