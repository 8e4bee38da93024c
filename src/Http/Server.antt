-- ===== src/Http/Server.antt =====
-- The laws of the server's connection: the final status is sent once.
use core_shared.Base.{ℕ, ◌≤◌, ◌<◌, Text, none, some, ◌++◌, ◌≡◌, refl, length, arith, ◌⊎◌, inl, inr}
use core_shared.Http.{Conn, conn_write_header, conn_write, Exit, returned, panicked}

pub conn_write_header-final :
    (code : ℕ) (c : Conn)
    → c.status ≡ none
    → 200 ≤ code
    → code ≤ 999
    → conn_write_header code c ≡ (record c { status = some code }, returned)
unfolding conn_write_header
conn_write_header-final code c e lo hi = ground arith

pub conn_write-final :
    (bytes : Text) (c : Conn) (code : ℕ)
    → c.status ≡ some code
    → 200 ≤ code
    → ¬ (code ≡ 204)
    → ¬ (code ≡ 304)
    → conn_write bytes c ≡ (record c { body = c.body ++ bytes }, length bytes)
unfolding conn_write
conn_write-final bytes c code e lo no204 no304 = ground arith

-- A status that is out is never taken back.
pub conn_write_header-sent :
    (code : ℕ) (c : Conn) (sent : ℕ)
    → c.status ≡ some sent
    → conn_write_header code c ≡ (c, returned)
unfolding conn_write_header
conn_write_header-sent code c sent e = rw e

pub conn_write-sent :
    (bytes : Text) (c : Conn) (sent : ℕ)
    → c.status ≡ some sent
    → (conn_write bytes c).0.status ≡ some sent
unfolding conn_write
conn_write-sent bytes c sent e = ground arith

-- `WriteHeader` panics only before the final status, and only for a code outside 100..999.
pub conn_write_header_cases :
    (code : ℕ) (c : Conn)
    → ((conn_write_header code c).1 ≡ returned)
      ⊎ ((c.status ≡ none) × ((code < 100) ⊎ (999 < code)))
unfolding conn_write_header
conn_write_header_cases code c = ground arith

pub Exit-cases : (e : Exit) → (e ≡ returned) ⊎ ((m : Text) × (e ≡ panicked m))
Exit-cases returned = inl refl
Exit-cases (panicked m) = inr (m, refl)
