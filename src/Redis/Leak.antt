-- ===== src/Redis/Leak.antt =====
-- The pools that redis/client.go leaves open.
use core_shared.Base.{ℕ, ◌+◌, ◌-◌, Text, Option, none, some, List, [], ◌∷◌, ℤ, ◌≡◌, refl}
use core_shared.Apperror.{Error}
use core_shared.Returns.{Result, ok, err}
use core_shared.Http.Ctx.{Logger}
use core_shared.Redis.{Event, opened, closed, Client, new_client, close}

-- How many pools are open after a trace.
abbrev pub open_pools : ℕ → List Event → ℕ
open_pools n [] = n
open_pools n (opened o ∷ es) = open_pools (n + 1) es
open_pools n (closed ∷ es) = open_pools (n - 1) es
open_pools n (e ∷ es) = open_pools n es

abbrev pub LeftOpen : List Event × Result Client → Type 0
LeftOpen (w, ok c) = open_pools 0 (close c w) ≡ 0
LeftOpen (w, err e) = open_pools 0 w ≡ 1

-- A client that is returned can be closed, and then no pool is open; but where the ping fails,
-- `NewClient` returns the error only, and leaves the pool that it made open.
pub new_client-LeftOpen :
    (answer : Option Error) (addr password : Text) (db : ℤ) (log : Logger)
    → LeftOpen (new_client answer addr password db log)
unfolding new_client close
new_client-LeftOpen none addr password db log = refl
new_client-LeftOpen (some e) addr password db log = refl
