-- ===== src/NodeRoutes/Reached.antt =====
-- That the routes of pkg/controller lead to every other node that is recorded or announced.
use village_net.Common.{
  ◌≡◌, refl, ap, Bool, true, false, List, [], ◌∷◌, Option, none, some, ok, err, text_eq, codes,
  Bool-cases, ◌⊎◌, inl, inr,
}
use village_net.Net.{Ip, IpNet}
use village_net.HostLocal.Store.{Text}
use village_net.Cni.Effects.{Eff, exists, ignore, for_each}
use village_net.Cni.Within.{Within, for_each-Within}
use village_net.NodeRoutes.{
  NodeNetInfo, HostGw, ControllerHost, sync_node_route, route_to, handle, sync_route,
}

-- A value of a list.
pub data Among {A : Type 0} (x : A) : List A → Type 0 where
  first : {xs : List A} → Among x (x ∷ xs)
  later : {y : A} {xs : List A} → Among x xs → Among x (y ∷ xs)

module _ {S A : Type 0} (P : S → Type 0) (body : A → Eff S (Unit {0}))
    (goes_on : (x : A) (s : S) → (body x s).0 ≡ ok tt)
    (kept : (x : A) → Within (λ s s'. P s → P s') (body x)) where
  for_each-goes_on : (xs : List A) (s : S) → (for_each xs body s).0 ≡ ok tt
  for_each-goes_on [] s = refl
  for_each-goes_on (x ∷ xs) s = rw (goes_on x s) (for_each-goes_on xs (body x s).1)

  for_each-kept : (xs : List A) → Within (λ s s'. P s → P s') (for_each xs body)
  for_each-kept xs =
      for_each-Within (λ s s'. P s → P s') (λ s p. p) (λ s s1 s2 f g p. g (f p)) xs body kept

  -- What one round brings about is so behind the loop.
  for_each-reached :
      (x : A) (xs : List A)
      → Among x xs
      → ((s : S) → P (body x s).1)
      → (s : S) → P (for_each xs body s).1
  for_each-reached x [] w there s = elim w [ ]
  for_each-reached x (x' ∷ xs) first there s =
      rw (goes_on x s) (for_each-kept xs (body x s).1 (there s))
  for_each-reached x (y ∷ xs) (later w) there s =
      rw (goes_on y s) (for_each-reached x xs w there (body y s).1)

module _ {S : Type 0} (h : ControllerHost S) (routed : S → IpNet → Bool) where
  -- What RouteAdd promises: where it succeeds, and where it refuses a route that exists, there is a
  -- route to the network; it removes none, and it does not panic. Of its other errors nothing is asked.
  pub record RouteLaws : Type 0 where
    pub added :
        (s s' : S) (n : IpNet) (gw : Ip) (link : Text)
        → h.route_add n gw link s ≡ (ok tt, s')
        → routed s' n ≡ true
    pub existing :
        (s s' : S) (n : IpNet) (gw : Ip) (link : Text)
        → h.route_add n gw link s ≡ (err exists, s')
        → routed s' n ≡ true
    pub kept :
        (s : S) (n m : IpNet) (gw : Ip) (link : Text)
        → routed s m ≡ true
        → routed (h.route_add n gw link s).1 m ≡ true
    pub returns :
        (s : S) (n : IpNet) (gw : Ip) (link : Text) → (ignore (h.route_add n gw link) s).0 ≡ ok tt

  module _ (laws : RouteLaws) (gw : HostGw) where
    route_to-goes_on :
        (info : NodeNetInfo) (o : Option IpNet) (s : S)
        → (ignore (route_to h gw info o) s).0 ≡ ok tt
    route_to-goes_on info none s = refl
    route_to-goes_on info (some n) s = laws.returns s n (h.parse_ip info.public_ip) gw.link

    handle-goes_on : (v : Option NodeNetInfo) (s : S) → (handle h gw v s).0 ≡ ok tt
    unfolding sync_node_route
    handle-goes_on none s = refl
    handle-goes_on (some info) s = elim (Bool-cases (text_eq gw.hostname info.hostname)) [
      | inl e ↦ rw e refl
      | inr e ↦ rw e (route_to-goes_on info (h.parse_cidr info.cidr) s)
    ]

    -- The kernel takes the route to a node, or has one to its network already.
    abbrev pub IsTaken : IpNet → NodeNetInfo → Type 0
    IsTaken n info =
        (s : S)
        → ((h.route_add n (h.parse_ip info.public_ip) gw.link s).0 ≡ ok tt)
          ⊎ ((h.route_add n (h.parse_ip info.public_ip) gw.link s).0 ≡ err exists)

    IsTaken-routed :
        (n : IpNet) (info : NodeNetInfo)
        → IsTaken n info
        → (s : S) → routed (h.route_add n (h.parse_ip info.public_ip) gw.link s).1 n ≡ true
    IsTaken-routed n info taken s =
        let to = h.parse_ip info.public_ip in
        let run = h.route_add n to gw.link s in
        elim (taken s) [
          | inl q ↦ laws.added s run.1 n to gw.link (ap (λ r. (r, run.1)) q)
          | inr q ↦ laws.existing s run.1 n to gw.link (ap (λ r. (r, run.1)) q)
        ]

    module _ (n : IpNet) where
      abbrev Leads : S → Type 0
      Leads s = routed s n ≡ true

      route_to-kept :
          (info : NodeNetInfo) (o : Option IpNet)
          → Within (λ s s'. Leads s → Leads s') (route_to h gw info o)
      route_to-kept info none s e = e
      route_to-kept info (some m) s e = laws.kept s m n (h.parse_ip info.public_ip) gw.link e

      handle-kept : (v : Option NodeNetInfo) → Within (λ s s'. Leads s → Leads s') (handle h gw v)
      unfolding sync_node_route
      handle-kept none s e = e
      handle-kept (some info) s e = elim (Bool-cases (text_eq gw.hostname info.hostname)) [
        | inl q ↦ rw q e
        | inr q ↦ rw q (route_to-kept info (h.parse_cidr info.cidr) s e)
      ]

      handle-reached :
          (info : NodeNetInfo)
          → text_eq gw.hostname info.hostname ≡ false
          → h.parse_cidr info.cidr ≡ some n
          → IsTaken n info
          → (s : S) → Leads (handle h gw (some info) s).1
      unfolding sync_node_route
      handle-reached info other parsed taken s = rw (other, parsed) (IsTaken-routed n info taken s)

      -- On a host where RouteAdd leaves a route to the network where it succeeds or refuses a
      -- route that exists, removes none and does not panic: for a node of another name whose CIDR
      -- can be parsed, whose route RouteAdd takes or refuses as existing, and that is recorded in
      -- etcd when SyncRoute reads it or told by an event of one of the batches that the watch
      -- brings, there is a route to that CIDR behind SyncRoute, though other values cannot be
      -- read and the routes to other nodes fail.
      pub sync_route-reached :
          (info : NodeNetInfo) (kvs : List (Option NodeNetInfo))
          (batches : List (List (Option NodeNetInfo))) (s s1 : S)
          → text_eq gw.hostname info.hostname ≡ false
          → h.parse_cidr info.cidr ≡ some n
          → IsTaken n info
          → h.etcd_get (codes "/village/nodes") s ≡ (ok kvs, s1)
          → Among (some info) kvs
            ⊎ ((events : List (Option NodeNetInfo)) × Among events batches
                × Among (some info) events)
          → routed (sync_route h gw batches s).1 n ≡ true
      unfolding sync_route
      sync_route-reached info kvs batches s s1 other parsed taken recorded w =
          let one = for_each-reached Leads (handle h gw) handle-goes_on handle-kept (some info) in
          let goes_on = for_each-goes_on Leads (handle h gw) handle-goes_on handle-kept in
          let keeps = for_each-kept Leads (handle h gw) handle-goes_on handle-kept in
          let round : List (Option NodeNetInfo) → Eff S (Unit {0}) =
            λ events. for_each events (handle h gw) in
          let s2 = (for_each kvs (handle h gw) s1).1 in
          elim w [
            | inl v ↦
                rw (recorded, goes_on kvs s1)
                  (for_each-kept Leads round goes_on keeps batches s2
                    (one kvs v (handle-reached info other parsed taken) s1))
            | inr (events, v, u) ↦
                rw (recorded, goes_on kvs s1)
                  (for_each-reached Leads round goes_on keeps events batches v
                    (one events u (handle-reached info other parsed taken)) s2)
          ]
