-- ===== src/Mongo/Client/Settled.antt =====
-- The two kinds of state of a client of mongo/client.go: fresh, and settled by its first connection.
use core_shared.Base.{
  ℕ, ◌+◌, Bool, true, false, Option, none, some, List, [], ◌∷◌, ◌++◌, ◌≡◌, ap, refl, sym,
  if◌then◌else◌, arith,
}
use mathlib.Core.Path.{subst}
use core_shared.Apperror.{Error}
use core_shared.Mongo.Client.{
  Client, Event, dial_failed, dial, pinged, disconnected, listed, Dial, dialled, refused, Driver,
  World, first_connect, after_ping, after_dial, connected,
}

abbrev pub dials : List Event → ℕ
dials [] = 0
dials (dial_failed ∷ t) = dials t + 1
dials (dial h ∷ t) = dials t + 1
dials (_ ∷ t) = dials t

-- Connections that the driver has opened, and closed.
abbrev pub opened : List Event → ℕ
opened [] = 0
opened (dial h ∷ t) = opened t + 1
opened (_ ∷ t) = opened t

abbrev pub closed : List Event → ℕ
closed [] = 0
closed (disconnected h ∷ t) = closed t + 1
closed (_ ∷ t) = closed t

abbrev pub dial_count : World → ℕ
dial_count w = dials w.trace

pub dials-append : (s t : List Event) → dials (s ++ t) ≡ dials s + dials t
dials-append [] t = omega arith
dials-append (dial_failed ∷ s) t = omega (arith, dials-append s t)
dials-append (dial h ∷ s) t = omega (arith, dials-append s t)
dials-append (pinged h ∷ s) t = dials-append s t
dials-append (disconnected h ∷ s) t = dials-append s t
dials-append (listed h ∷ s) t = dials-append s t

-- The first connection has been tried: it failed with an error that is kept, or it is there.
pub data IsSettled (w : World) : Type 0 where
  failed :
      (e : Error)
      → w.c.once ≡ true
      → w.c.conn_err ≡ some e
      → w.c.client ≡ none
      → dials w.trace ≡ 1
      → IsSettled w
  live :
      (h : ℕ)
      → w.c.once ≡ true
      → w.c.conn_err ≡ none
      → w.c.client ≡ some h
      → w.c.db ≡ some (h, w.c.opts.database)
      → dials w.trace ≡ 1
      → IsSettled w

pub data IsSound (w : World) : Type 0 where
  fresh : w.c.once ≡ false → w.c.conn_err ≡ none → w.c.client ≡ none → w.trace ≡ [] → IsSound w
  settled : IsSettled w → IsSound w

module _ (d : Driver) (c : Client) (no_err : c.conn_err ≡ none) (no_client : c.client ≡ none) where
  pub after_ping-IsSettled :
      (h : ℕ) (answer : Option Error)
      → IsSettled (after_ping (record { c = c; trace = [] }) h answer)
  unfolding after_ping
  after_ping-IsSettled h (some e) = failed e refl refl no_client refl
  after_ping-IsSettled h none = live h refl no_err refl refl refl

  pub after_dial-IsSettled :
      (answer : Dial) → IsSettled (after_dial d (record { c = c; trace = [] }) answer)
  unfolding after_dial
  after_dial-IsSettled (refused e) = failed e refl refl no_client refl
  after_dial-IsSettled (dialled h) = after_ping-IsSettled h (d.ping h)

pub connected-once : (d : Driver) (w : World) → w.c.once ≡ true → connected d w ≡ w
unfolding connected
connected-once d w o = ap (λ (b : Bool). if b then w else first_connect d w) o

pub connected_first :
    (d : Driver) (w : World) → w.c.once ≡ false → connected d w ≡ first_connect d w
unfolding connected
connected_first d w o = ap (λ (b : Bool). if b then w else first_connect d w) o

pub IsSettled-once : {w : World} → IsSettled w → w.c.once ≡ true
IsSettled-once (failed e o x n k) = o
IsSettled-once (live h o x n b k) = o

pub connected-IsSettled : (d : Driver) (w : World) → IsSound w → IsSettled (connected d w)
unfolding first_connect
connected-IsSettled d w (settled s) =
    subst IsSettled (sym (connected-once d w (IsSettled-once s))) s
connected-IsSettled d w (fresh o x n t) = subst IsSettled (sym (connected_first d w o)) (
    subst (λ tr. IsSettled (first_connect d (record { c = w.c; trace = tr }))) (sym t)
      (after_dial-IsSettled d w.c x n d.connects))

-- `w` again, where a call only adds events that dial nothing.
pub more-IsSettled :
    (w : World) (t : List Event)
    → dials t ≡ 0
    → IsSettled w
    → IsSettled (record w { trace = w.trace ++ t })
more-IsSettled w t z (failed e o x n k) = failed e o x n (omega (arith, dials-append w.trace t))
more-IsSettled w t z (live h o x n b k) = live h o x n b (omega (arith, dials-append w.trace t))

-- The connections that are open and not closed are the one that the client holds.
abbrev pub Balanced : World → Type 0
Balanced w = opened w.trace ≡ closed w.trace + (elim w.c.client [ none ↦ 0 | some h ↦ 1 ])

module _ (d : Driver) (c : Client) (no_client : c.client ≡ none) where
  after_ping-Balanced :
      (h : ℕ) (answer : Option Error)
      → Balanced (after_ping (record { c = c; trace = [] }) h answer)
  unfolding after_ping
  after_ping-Balanced h (some e) = rw no_client
  after_ping-Balanced h none = refl

  pub after_dial-Balanced :
      (answer : Dial) → Balanced (after_dial d (record { c = c; trace = [] }) answer)
  unfolding after_dial
  after_dial-Balanced (refused e) = rw no_client
  after_dial-Balanced (dialled h) = after_ping-Balanced h (d.ping h)
