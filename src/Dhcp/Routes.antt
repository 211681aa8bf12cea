-- ===== src/Dhcp/Routes.antt =====
-- The routes of plugins/ipam/dhcp/options.go against the format of the option.
use village_net.Common.{
  ℕ, zero, suc, ◌+◌, ◌*◌, ◌<◌, ◌≤◌, ◌≡◌, refl, ap, ltb, false, List, [], ◌∷◌, ◌++◌, Option, none,
  some, arith, length, length-append, take, drop, All, inl, inr, Bool-cases,
}
use village_net.Net.{Ip}
use village_net.Cni.{Route}
use village_net.Dhcp.Options.{
  Opts, option_classless_route_format, add_route, parse_cidr_routes, octets_of, cidr_route,
  cidr_routes,
}

take-append : (xs ys : List ℕ) → take (length xs) (xs ++ ys) ≡ xs
take-append [] ys = refl
take-append (x ∷ xs) ys = ap (λ l. x ∷ l) (take-append xs ys)

drop-append : (xs ys : List ℕ) → drop (length xs) (xs ++ ys) ≡ ys
drop-append [] ys = refl
drop-append (x ∷ xs) ys = drop-append xs ys

-- A route as RFC 3442 writes it: the width of the network, its bytes that matter, the gateway.
pub record Classless : Type 0 where
  pub width : ℕ
  pub prefix : List ℕ
  pub gateway : Ip

pub record IsClassless (r : Classless) : Type 0 where
  pub narrow : r.width ≤ 32
  pub covers : r.width ≤ 8 * length r.prefix
  pub compact : 8 * length r.prefix < r.width + 8
  pub gateway_size : length r.gateway ≡ 4

abbrev pub encode_all : List Classless → List ℕ → List ℕ
encode_all [] rest = rest
encode_all (r ∷ rs) rest = r.width ∷ (r.prefix ++ (r.gateway ++ encode_all rs rest))

abbrev pub routes_of : List Classless → List Route
routes_of [] = []
routes_of (r ∷ rs) = cidr_route r.width r.prefix r.gateway ∷ routes_of rs

cidr_routes-rest :
    (f : ℕ) (rest : List ℕ) → length rest < 5 → cidr_routes (suc f) rest ≡ some (some [])
unfolding cidr_routes
cidr_routes-rest f [] h = refl
cidr_routes-rest f (w ∷ rest) h = ground (arith, h)

length-octets_of : (width n : ℕ) → width ≤ 8 * n → 8 * n < width + 8 → n ≡ octets_of width
unfolding octets_of
length-octets_of width n h k = ground (arith, h, k)

-- One round on a route that is written in the format.
cidr_routes-route :
    (f : ℕ) (r : Classless) (rest : List ℕ)
    → IsClassless r
    → cidr_routes (suc f) (r.width ∷ (r.prefix ++ (r.gateway ++ rest)))
      ≡ add_route (cidr_route r.width r.prefix r.gateway) (cidr_routes f rest)
unfolding cidr_routes
cidr_routes-route f r rest w =
    let compact = length-octets_of r.width (length r.prefix) w.covers w.compact in
    let n = length-append r.prefix (r.gateway ++ rest) in
    let k = length-append r.gateway rest in
    let size : ltb (length (r.prefix ++ (r.gateway ++ rest))) 4 ≡ false = ground (arith, n, k) in
    let narrow : ltb 32 r.width ≡ false = ground arith in
    let fits : ltb (length (r.prefix ++ (r.gateway ++ rest))) (octets_of r.width + 4) ≡ false =
      ground (arith, n, k) in
    let prefix : take (octets_of r.width) (r.prefix ++ (r.gateway ++ rest)) ≡ r.prefix =
      rw (← compact) (take-append r.prefix (r.gateway ++ rest)) in
    let behind : drop (octets_of r.width) (r.prefix ++ (r.gateway ++ rest)) ≡ r.gateway ++ rest =
      rw (← compact) (drop-append r.prefix (r.gateway ++ rest)) in
    let gw : take 4 (r.gateway ++ rest) ≡ r.gateway =
      rw (← w.gateway_size) (take-append r.gateway rest) in
    let left : drop 4 (r.gateway ++ rest) ≡ rest =
      rw (← w.gateway_size) (drop-append r.gateway rest) in
    rw (size, narrow, fits, behind, prefix, gw, left) refl

pub cidr_routes-encode_all :
    (f : ℕ) (rs : List Classless) (rest : List ℕ)
    → All IsClassless rs
    → length rest < 5
    → length rs < f
    → cidr_routes f (encode_all rs rest) ≡ some (some (routes_of rs))
cidr_routes-encode_all zero rs rest w l h = absurd (omega (arith, h))
cidr_routes-encode_all (suc f) [] rest w l h = cidr_routes-rest f rest l
cidr_routes-encode_all (suc f) (r ∷ rs) rest w l h =
    rw (cidr_routes-route f r (encode_all rs rest) w.0)
      (rw (cidr_routes-encode_all f rs rest w.1 l (omega (arith, h))) refl)

length-encode_all : (rs : List Classless) (rest : List ℕ) → length rs ≤ length (encode_all rs rest)
length-encode_all [] rest = omega arith
length-encode_all (r ∷ rs) rest = omega (
  arith,
  length-encode_all rs rest,
  length-append r.prefix (r.gateway ++ encode_all rs rest),
  length-append r.gateway (encode_all rs rest),
)

-- ParseCIDRRoutes reads an option that holds classless routes in the format of RFC 3442 (a width
-- of at most 32, as many bytes of the network as the width needs, a gateway of four bytes), and
-- fewer than five bytes behind them, as those routes.
pub parse_cidr_routes-encode_all :
    (opts : Opts) (rs : List Classless) (rest : List ℕ)
    → opts option_classless_route_format ≡ some (encode_all rs rest)
    → All IsClassless rs
    → length rest < 5
    → parse_cidr_routes opts ≡ routes_of rs
unfolding parse_cidr_routes
parse_cidr_routes-encode_all opts rs rest o w l =
    let found =
      cidr_routes-encode_all (suc (length (encode_all rs rest))) rs rest w l
        (omega (arith, length-encode_all rs rest)) in
    rw (o, parse_cidr_routes, found) refl

-- Enough fuel: each round takes a byte at least.
length-drop : (n : ℕ) (xs : List ℕ) → length (drop n xs) ≤ length xs
length-drop zero xs = omega arith
length-drop (suc n) [] = omega arith
length-drop (suc n) (x ∷ xs) = omega (arith, length-drop n xs)

add_route_total :
    (r : Route) (m : Option (List Route))
    → (x : Option (List Route)) × (add_route r (some m) ≡ some x)
add_route_total r none = (none, refl)
add_route_total r (some rs) = (some (r ∷ rs), refl)

-- With more fuel than the option has bytes the loop of parseCIDRRoutes ends.
pub cidr_routes_total :
    (f : ℕ) (opt : List ℕ)
    → length opt < f
    → (r : Option (List Route)) × (cidr_routes f opt ≡ some r)
unfolding cidr_routes
cidr_routes_total zero opt h = absurd (omega (arith, h))
cidr_routes_total (suc f) [] h = (some [], refl)
cidr_routes_total (suc f) (width ∷ opt) h =
    let behind = drop (octets_of width) opt in
    let (m, q) =
      cidr_routes_total f (drop 4 behind)
        (omega (arith, h, length-drop (octets_of width) opt, length-drop 4 behind)) in
    elim (Bool-cases (ltb (length opt) 4)) [
      | inl t ↦ (some [], rw (t, cidr_routes) refl)
      | inr few ↦ elim (Bool-cases (ltb 32 width)) [
        | inl t ↦ (none, rw (few, t, cidr_routes) refl)
        | inr narrow ↦ elim (Bool-cases (ltb (length opt) (octets_of width + 4))) [
          | inl t ↦ (none, rw (few, narrow, t, cidr_routes) refl)
          | inr fits ↦
              let (x, e) =
                add_route_total (cidr_route width (take (octets_of width) opt) (take 4 behind)) m in
              (x, rw (few, narrow, fits, q, cidr_routes) e)
        ]
      ]
    ]
