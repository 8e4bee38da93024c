-- ===== src/Client/Requests/Order.antt =====
-- The order in which `Do` of client/http.go sets the default headers: that of a Go map, any order.
use core_shared.Base.{
  Text, false, text_eq, text_eq_iff, Option, List, [], ◌∷◌, ◌≡◌, ◌∙◌, ap, refl, arith,
}
use mathlib.Core.Logic.{∥∥₁_elim}
use mathlib.Core.List.{Perm, Permᴰ, Pairwise, Pairwise-cons, mem-cons_self}
use mathlib.Core.List.Perm
use core_shared.Http.HeaderMap.{Headers, canonical, header_set, header_get, header_get-set}
use core_shared.Client.Requests.{HttpClient, set_headers, request}

-- The canonical forms of the keys of two headers differ.
abbrev pub Differ : Text × Text → Text × Text → Type 0
Differ (k, v) (j, w) = text_eq (canonical k) (canonical j) ≡ false

-- Two lists of headers that read the same.
abbrev SameHeaders : Headers → Headers → Type 0
SameHeaders h h' = (k : Text) → header_get k h ≡ header_get k h'

header_set-SameHeaders :
    (k v : Text) (h h' : Headers)
    → SameHeaders h h'
    → SameHeaders (header_set k v h) (header_set k v h')
header_set-SameHeaders k v h h' same j =
    rw (header_get-set k j v h, header_get-set k j v h', same j)

set_headers-SameHeaders :
    (hs : List (Text × Text)) (h h' : Headers)
    → SameHeaders h h'
    → SameHeaders (set_headers hs h) (set_headers hs h')
set_headers-SameHeaders [] h h' same = same
set_headers-SameHeaders ((k, v) ∷ hs) h h' same =
    set_headers-SameHeaders hs (header_set k v h) (header_set k v h')
      (header_set-SameHeaders k v h h' same)

swapped-SameHeaders :
    (k v j w : Text) (h : Headers)
    → text_eq (canonical k) (canonical j) ≡ false
    → SameHeaders (header_set j w (header_set k v h)) (header_set k v (header_set j w h))
swapped-SameHeaders k v j w h other i =
    rw
      (
        header_get-set j i w (header_set k v h),
        header_get-set k i v h,
        header_get-set k i v (header_set j w h),
        header_get-set j i w h,
      )
      (ground (
        arith,
        text_eq_iff (canonical k) (canonical i),
        text_eq_iff (canonical j) (canonical i),
        text_eq_iff (canonical k) (canonical j),
      ))

Differ-symm : (x y : Text × Text) → Differ x y → Differ y x
Differ-symm (k, v) (j, w) other =
    ground (arith, text_eq_iff (canonical k) (canonical j), text_eq_iff (canonical j) (canonical k))

permuted-SameHeaders :
    (hs hs' : List (Text × Text)) (h : Headers)
    → Permᴰ hs hs'
    → Pairwise Differ hs
    → SameHeaders (set_headers hs h) (set_headers hs' h)
permuted-SameHeaders hs hs' h Permᴰ.nil apart j = refl
permuted-SameHeaders hs hs' h (Permᴰ.cons {a} {b} {l₁ = l} {l₂ = l'} e p) apart j =
    permuted-SameHeaders l l' (header_set a.0 a.1 h) p (Pairwise-cons.0 apart).1 j
    ∙ ap (λ (x : Text × Text). header_get j (set_headers l' (header_set x.0 x.1 h))) e
permuted-SameHeaders hs hs' h (Permᴰ.swap {a} {b} {l} e e') apart j =
    let other : Differ a b = (Pairwise-cons.0 apart).0 b mem-cons_self in
    rw (← e, ← e') (set_headers-SameHeaders l _ _ (swapped-SameHeaders a.0 a.1 b.0 b.1 h other) j)
permuted-SameHeaders hs hs' h (Permᴰ.trans {l₂ = l} p q) apart j =
    permuted-SameHeaders hs l h p apart j
    ∙ permuted-SameHeaders l hs' h q (Perm.pairwise (λ x y. hlevel) Differ-symm ∣ p ∣₁ apart) j

-- If the canonical forms of the keys of a client's default headers differ, then each header of a
-- request has the same value in whatever order `Do` sets them.
pub request-perm :
    (c : HttpClient) (hs : List (Text × Text)) (method path : Text) (body : Option Text)
    (content_type k : Text)
    → Pairwise Differ c.headers
    → Perm c.headers hs
    → header_get k (request c method path body content_type).headers
      ≡ header_get k (request (record c { headers = hs }) method path body content_type).headers
request-perm c hs method path body content_type k apart permuted =
    ∥∥₁_elim permuted (hlevel) (λ d. permuted-SameHeaders c.headers hs _ d apart k)
