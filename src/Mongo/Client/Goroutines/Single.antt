-- ===== src/Mongo/Client/Goroutines/Single.antt =====
-- What any interleaving of calls of `Connect` and `Close` of mongo/client.go comes to.
use core_shared.Base.{
  ℕ, true, false, Option, none, some, inl, inr, List, [], ◌∷◌, ◌++◌, append_assoc, ◌≡◌, ◌∙◌, ap,
  sym, refl,
}
use mathlib.Core.Path.{subst}
use core_shared.Apperror.{Error}
use core_shared.Mongo.Client.{
  World, Driver, Event, dial_failed, dial, pinged, disconnected, Dial, dialled, refused, after_ping,
  after_dial, first_connect, connected, connect,
}
use core_shared.Mongo.Client.Goroutines.{
  outside, dialling, pinging, disconnecting, storing, naming, leaving, reading, returned, closing,
  closed, Goroutines, noted, with_error, with_client, with_db, with_once, Step, enter, pass, refuse,
  accept, miss, answer, disconnect, store_client, store_db, leave, read, look, close_open,
  close_nil, Reach, here, next, started,
}
use core_shared.Mongo.Client.Goroutines.Calls.{disconnects, Interleaved, Reach-Interleaved}
use core_shared.Mongo.Client.Goroutines.Invariant.{
  IsCall, IsConsistent, Here, inner_of, move-IsConsistent, outer_move-IsConsistent, free_of,
  reading-settled, enter-IsConsistent, leave-IsConsistent,
}

-- A driver with the given answers to `mongo.Connect` and to the ping.
abbrev pub answering : Dial → Option Error → Driver
answering d e = record {
  connects = d;
  ping = λ _. e;
  disconnect = λ _. none;
  list_collections = λ _ _. none;
}

module _ (start : World) (once : start.c.once ≡ false) where
  refuse-IsCall : (e : Error) → IsCall start (with_once (noted dial_failed (with_error e start)))
  unfolding connected first_connect after_dial
  refuse-IsCall e = (answering (refused e) none, rw once)

  miss-IsCall :
      (h : ℕ) (e : Error)
      → IsCall start (
          with_once
            (noted (disconnected h) (noted (pinged h) (with_error e (noted (dial h) start)))))
  unfolding connected first_connect after_dial after_ping
  miss-IsCall h e = (
    answering (dialled h) (some e),
    rw once (
        ap
          (λ (t : List Event).
            let w : World = record {
              c = record start.c { once = true; conn_err = some e };
              trace = t;
            } in
            w)
          (append_assoc (start.trace ++ dial h ∷ []) (pinged h ∷ []) (disconnected h ∷ [])
            ∙ append_assoc start.trace (dial h ∷ []) (pinged h ∷ disconnected h ∷ []))),
  )

  answer-IsCall :
      (h : ℕ)
      → IsCall start
          (with_once (with_db h (with_client h (noted (pinged h) (noted (dial h) start)))))
  unfolding connected first_connect after_dial after_ping
  answer-IsCall h = (
    answering (dialled h) none,
    rw once (
        ap
          (λ (t : List Event).
            let w : World = record {
              c = record start.c {
                once = true;
                client = some h;
                db = some (h, start.c.opts.database);
              };
              trace = t;
            } in
            w)
          (append_assoc start.trace (dial h ∷ []) (pinged h ∷ []))),
  )

module _ (start : World) (once : start.c.once ≡ false) where
  Step-IsConsistent : {s t : Goroutines} → Step s t → IsConsistent start s → IsConsistent start t
  Step-IsConsistent {s} (enter i e unsettled free) c = enter-IsConsistent start s c i unsettled free
  Step-IsConsistent {s} (pass i e done) c =
      outer_move-IsConsistent start s c i reading (free_of start s c i outside e (λ x. x)) done
        s.shut s.calls
  Step-IsConsistent {s} (refuse i e at_dial) c =
      let (held, unsettled, alone) = inner_of start s c i dialling at_dial (λ x. x) in
      move-IsConsistent start s c i leaving (noted dial_failed (with_error e s.world))
        (s.calls ++ dial_failed ∷ []) held unsettled unsettled
        (subst (λ w. IsCall start (with_once (noted dial_failed (with_error e w)))) (sym alone)
          (refuse-IsCall start once e))
  Step-IsConsistent {s} (accept i h at_dial) c =
      let (held, unsettled, alone) = inner_of start s c i dialling at_dial (λ x. x) in
      move-IsConsistent start s c i (pinging h) (noted (dial h) s.world) (s.calls ++ dial h ∷ [])
        held unsettled unsettled (ap (noted (dial h)) alone)
  Step-IsConsistent {s} (miss i h e at_ping) c =
      let (held, unsettled, alone) = inner_of start s c i (pinging h) at_ping (λ x. x) in
      move-IsConsistent start s c i (disconnecting h) (noted (pinged h) (with_error e s.world))
        (s.calls ++ pinged h ∷ []) held unsettled unsettled
        (e, ap (λ w. noted (pinged h) (with_error e w)) alone)
  Step-IsConsistent {s} (answer i h at_ping) c =
      let (held, unsettled, alone) = inner_of start s c i (pinging h) at_ping (λ x. x) in
      move-IsConsistent start s c i (storing h) (noted (pinged h) s.world)
        (s.calls ++ pinged h ∷ []) held unsettled unsettled (ap (noted (pinged h)) alone)
  Step-IsConsistent {s} (disconnect i h at_end) c =
      let (held, unsettled, e) = inner_of start s c i (disconnecting h) at_end (λ x. x) in
      move-IsConsistent start s c i leaving (noted (disconnected h) s.world)
        (s.calls ++ disconnected h ∷ []) held unsettled unsettled
        (subst (λ w. IsCall start (with_once (noted (disconnected h) w))) (sym e.1)
          (miss-IsCall start once h e.0))
  Step-IsConsistent {s} (store_client i h at_store) c =
      let (held, unsettled, alone) = inner_of start s c i (storing h) at_store (λ x. x) in
      move-IsConsistent start s c i (naming h) (with_client h s.world) s.calls held unsettled
        unsettled (ap (with_client h) alone)
  Step-IsConsistent {s} (store_db i h at_name) c =
      let (held, unsettled, alone) = inner_of start s c i (naming h) at_name (λ x. x) in
      move-IsConsistent start s c i leaving (with_db h s.world) s.calls held unsettled unsettled (
        subst (λ w. IsCall start (with_once (with_db h w))) (sym alone)
          (answer-IsCall start once h))
  Step-IsConsistent {s} (leave i e) c = leave-IsConsistent start s c i e
  Step-IsConsistent {s} (read i e) c =
      outer_move-IsConsistent start s c i (returned s.world.c.conn_err)
        (free_of start s c i reading e (λ x. x)) (reading-settled start s c i e, refl) s.shut
        s.calls
  Step-IsConsistent {s} (look i e) c =
      outer_move-IsConsistent start s c i (closing s.world.c.client)
        (free_of start s c i outside e (λ x. x)) tt s.shut s.calls
  Step-IsConsistent {s} (close_open i h e) c =
      outer_move-IsConsistent start s c i closed (free_of start s c i (closing (some h)) e (λ x. x))
        tt (s.shut ++ h ∷ []) (s.calls ++ disconnected h ∷ [])
  Step-IsConsistent {s} (close_nil i e) c =
      outer_move-IsConsistent start s c i closed (free_of start s c i (closing none) e (λ x. x)) tt
        s.shut s.calls

  started-IsConsistent : IsConsistent start (started start)
  started-IsConsistent = record {
    outer = λ i. inr tt;
    inner = tt;
    untouched = λ _ _. refl;
    settled = λ done. cc;
  }

  pub Reach-IsConsistent : {s : Goroutines} → Reach (started start) s → IsConsistent start s
  Reach-IsConsistent here = started-IsConsistent
  Reach-IsConsistent (next r st) = Step-IsConsistent st (Reach-IsConsistent r)

  -- Whatever goroutines call `Connect` and `Close` on a client on which `Connect` was never called,
  -- and however their steps interleave: once a call of `Connect` has returned, what it returned and
  -- the fields of the client are those of one call of `Connect` alone, for some answers of the
  -- driver; and the calls of the driver are those of that one call, interleaved with the
  -- disconnects of the calls of `Close` and with nothing else.
  pub Reach-connect :
      {s : Goroutines} {e : Option Error} (i : ℕ)
      → Reach (started start) s
      → s.places i ≡ returned e
      → ((d : Driver) × ((s.world, e) ≡ connect d start))
        × Interleaved s.world.trace (disconnects s.shut) s.calls
  unfolding connect
  Reach-connect {s} {e} i r back =
      let c = Reach-IsConsistent r in
      elim (c.outer i) [
        | inl held ↦ absurd (free_of start s c i (returned e) back (λ x. x) held)
        | inr o ↦
            let (done, same) = subst (Here s) back o in
            let (d, alone) = c.settled done in
            (
              (d, λ j. (alone j, (same ∙ ap (λ (w : World). w.c.conn_err) alone) j)),
              Reach-Interleaved r,
            )
      ]
