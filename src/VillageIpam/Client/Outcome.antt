-- ===== src/VillageIpam/Client/Outcome.antt =====
-- What AssignIp, DeleteIp and Check of plugins/ipam/village-ipam/client.go do to the bindings.
use village_net.Common.{
  ℕ, zero, suc, ◌+◌, ◌≡◌, ◌⊎◌, inl, inr, true, false, List, [], ◌∷◌, ◌++◌, none, some, arith,
  Option-cases, text_eq, text_eq_iff, Fueled-cases, Result-cases, length, ◌<◌, ok, err,
}
use village_net.Net.{Ip, IpNet, net_contains}
use village_net.HostLocal.Store.{Text}
use village_net.VillageIpam.Client.Maps.{
  Bindings, lookup, bind, remove_container, has_container, lookup-bind, has_container-bind,
  has_container-remove, lookup-remove_container,
}
use village_net.VillageIpam.Client.{
  NetText, bad_range, decoded, missing, bad_container_ips, IfConfig, ConfigMap, Api, Assigned,
  get_min, inc, scan, config_of, assign_one, assign_all, start, assign_from, assign_ip, check,
  delete_ip,
}

module _ (t : NetText) where
  -- An address that the loop finds lies in the network and is bound to nothing; else it is nil.
  pub scan-free :
      (f : ℕ) (net : IpNet) (bound : Bindings) (ip free : Ip)
      → scan t f net bound ip ≡ some free
      → (free ≡ []) ⊎ ((net_contains net free ≡ true) × (lookup (t.format free) bound ≡ none))
  unfolding scan
  scan-free zero net bound ip free e = cc
  scan-free (suc f) net bound ip free e = ground (arith, scan-free f net bound (inc ip) free)

  -- What one round of the loop has done, if it was not an error.
  assign_one-bound :
      (f : ℕ) (container : Text) (i : ℕ) (dev : IfConfig) (acc acc' : Assigned × Bindings)
      → assign_one t f container i dev acc ≡ some (ok acc')
      → (p : Ip × IpNet) × (free : Ip) × (t.parse_cidr dev.range ≡ some p)
        × (scan t f p.1 acc.1 (get_min p.0 p.1) ≡ some free)
        × (acc'.1 ≡ bind (t.format free) container acc.1)
  unfolding assign_one
  assign_one-bound f container i dev acc acc' e = elim (Option-cases (t.parse_cidr dev.range)) [
    | inl q ↦ absurd (bad (rw (q, assign_one) at e))
    | inr (p, q) ↦ elim (Option-cases (scan t f p.1 acc.1 (get_min p.0 p.1))) [
      | inl n ↦ absurd (ground (arith, q, n, e))
      | inr (free, n) ↦ (p, free, q, n, ground (arith, q, n, e))
    ]
  ]
    where
      bad : some (err bad_range) ≡ some (ok acc') → ⊥
      bad q = cc

  -- One interface: a binding of another address than nil stays, and the container has one.
  assign_one-keeps :
      (f : ℕ) (container : Text) (i : ℕ) (dev : IfConfig) (acc acc' : Assigned × Bindings)
      (k c : Text)
      → assign_one t f container i dev acc ≡ some (ok acc')
      → text_eq (t.format []) k ≡ false
      → lookup k acc.1 ≡ some c
      → lookup k acc'.1 ≡ some c
  assign_one-keeps f container i dev acc acc' k c e ne bound =
      let (p, free, q, n, b) = assign_one-bound f container i dev acc acc' e in
      rw (b, lookup-bind)
        (elim (scan-free f p.1 acc.1 (get_min p.0 p.1) free n) [
          | inl nil ↦ rw (nil, ne) bound
          | inr (inside, unbound) ↦ ground (arith, text_eq_iff (t.format free) k, bound, unbound)
        ])

  assign_one-has :
      (f : ℕ) (container : Text) (i : ℕ) (dev : IfConfig) (acc acc' : Assigned × Bindings)
      → assign_one t f container i dev acc ≡ some (ok acc')
      → has_container container acc'.1 ≡ true
  assign_one-has f container i dev acc acc' e =
      let (p, free, q, n, b) = assign_one-bound f container i dev acc acc' e in
      rw b (has_container-bind (t.format free) container acc.1)

  -- The loop over the interfaces.
  assign_all-keeps :
      (f : ℕ) (container : Text) (i : ℕ) (devs : List IfConfig) (acc acc' : Assigned × Bindings)
      (k c : Text)
      → assign_all t f container i devs acc ≡ some (ok acc')
      → text_eq (t.format []) k ≡ false
      → lookup k acc.1 ≡ some c
      → lookup k acc'.1 ≡ some c
  unfolding assign_all
  assign_all-keeps f container i [] acc acc' k c e ne bound = ground (arith, e, bound)
  assign_all-keeps f container i (dev ∷ devs) acc acc' k c e ne bound =
      elim (Fueled-cases (assign_one t f container i dev acc)) [
        | inl q ↦ absurd (ground (arith, q, e))
        | inr (inl (x, q)) ↦ absurd (ground (arith, q, e))
        | inr (inr (mid, q)) ↦
            assign_all-keeps f container (i + 1) devs mid acc' k c (rw (q, assign_all) at e) ne
              (assign_one-keeps f container i dev acc mid k c q ne bound)
      ]

  assign_all-has :
      (f : ℕ) (container : Text) (i : ℕ) (devs : List IfConfig) (acc acc' : Assigned × Bindings)
      → assign_all t f container i devs acc ≡ some (ok acc')
      → (has_container container acc.1 ≡ true) ⊎ (0 < length devs)
      → has_container container acc'.1 ≡ true
  unfolding assign_all
  assign_all-has f container i [] acc acc' e h = ground (arith, e, h)
  assign_all-has f container i (dev ∷ devs) acc acc' e h =
      elim (Fueled-cases (assign_one t f container i dev acc)) [
        | inl q ↦ absurd (ground (arith, q, e))
        | inr (inl (x, q)) ↦ absurd (ground (arith, q, e))
        | inr (inr (mid, q)) ↦
            assign_all-has f container (i + 1) devs mid acc' (rw (q, assign_all) at e)
              (inl (assign_one-has f container i dev acc mid q))
      ]

  -- Where the loop over an interface's range finds no address, the round is not an error: the
  -- interface is given the nil address and an empty mask, and the text of the nil address is
  -- bound to the container.
  pub assign_one-exhausted :
      (f : ℕ) (container : Text) (i : ℕ) (dev : IfConfig) (result : Assigned) (bound : Bindings)
      (ip : Ip) (net : IpNet)
      → t.parse_cidr dev.range ≡ some (ip, net)
      → scan t f net bound (get_min ip net) ≡ some []
      → assign_one t f container i dev (result, bound)
        ≡ some (
            ok (
              record {
                interfaces = result.interfaces ++ (dev.name ∷ []);
                ips = result.ips ++ (config_of t net [] i dev ∷ []);
              },
              bind (t.format []) container bound,
            ))
  unfolding assign_one
  assign_one-exhausted f container i dev result bound ip net q e = ground (arith, q, e)

-- What a config map that was written reads back as.
pub record ApiLaws {S : Type 0} (api : Api S) : Type 0 where
  pub get_updated :
      (cm : ConfigMap) (s : S)
      → (api.update_config_map cm s).0 ≡ ok tt
      → api.get_config_map (api.update_config_map cm s).1 ≡ ok cm

module _ (t : NetText) {S : Type 0} (api : Api S) (laws : ApiLaws api) where
  assign_ip-written :
      (f : ℕ) (container : Text) (s s' : S) (cm : ConfigMap) (devs : List IfConfig)
      (bound : Bindings) (result : Assigned)
      → api.get_config_map s ≡ ok cm
      → start cm ≡ ok (devs, bound)
      → assign_ip t api f container s ≡ some (ok result, s')
      → (bound' : Bindings) × (assign_all t f container 0 devs
            (record { interfaces = []; ips = [] }, bound)
          ≡ some (ok (result, bound')))
        × (api.get_config_map s' ≡ ok (record cm { container_ips = decoded bound' }))
  unfolding assign_ip assign_from
  assign_ip-written f container s s' cm devs bound result g m e =
      elim (Fueled-cases
        (assign_all t f container 0 devs (record { interfaces = []; ips = [] }, bound))) [
          | inl q ↦ absurd (ground (arith, g, m, q, e))
          | inr (inl (x, q)) ↦ absurd (ground (arith, g, m, q, e))
          | inr (inr ((r, b), q)) ↦
              elim (Result-cases
                (api.update_config_map (record cm { container_ips = decoded b }) s).0) [
                  | inl (x, w) ↦ absurd (ground (arith, g, m, q, w, e))
                  | inr (u, w) ↦
                      let same : r ≡ result = ground (arith, g, m, q, w, e) in
                      let state : (api.update_config_map (record cm { container_ips = decoded b })
                            s).1
                          ≡ s' =
                        ground (arith, g, m, q, w, e) in
                      (
                        b,
                        rw same at q,
                        rw state at
                            (laws.get_updated (record cm { container_ips = decoded b }) s w),
                      )
                ]
        ]

  -- Where what is written to the API server reads back, the config map lists at least one
  -- interface and AssignIp for a container returns a result, each binding whose address is not
  -- the text of the nil address is still there with its container, the rest of the config map is
  -- as it was, and Check finds an address of the container.
  pub assign_ip-keeps :
      (f : ℕ) (container : Text) (s s' : S) (cm : ConfigMap) (devs : List IfConfig)
      (bound : Bindings) (result : Assigned) (k c : Text)
      → api.get_config_map s ≡ ok cm
      → start cm ≡ ok (devs, bound)
      → 0 < length devs
      → assign_ip t api f container s ≡ some (ok result, s')
      → lookup k bound ≡ some c
      → text_eq (t.format []) k ≡ false
      → (bound' : Bindings) × (api.get_config_map s'
          ≡ ok (record cm { container_ips = decoded bound' }))
        × (lookup k bound' ≡ some c)
        × (check t api container s' ≡ ok true)
  unfolding check
  assign_ip-keeps f container s s' cm devs bound result k c g m some_dev e there ne =
      let (b, all, read) = assign_ip-written f container s s' cm devs bound result g m e in
      (
        b,
        read,
        assign_all-keeps t f container 0 devs _ _ k c all ne there,
        ground (arith, read, assign_all-has t f container 0 devs _ _ all (inr some_dev)),
      )

  -- Where what is written to the API server reads back, the config map has bindings and DeleteIp
  -- succeeds, Check finds no address of the container afterwards, the bindings of the other
  -- containers are still there, and the config map holds the bindings without the container's.
  pub check-delete_ip :
      (container : Text) (s : S) (cm : ConfigMap) (bound : Bindings)
      → api.get_config_map s ≡ ok cm
      → cm.container_ips ≡ decoded bound
      → (delete_ip t api container s).0 ≡ ok tt
      → (check t api container (delete_ip t api container s).1 ≡ ok false)
        × ((k c : Text)
            → lookup k bound ≡ some c
            → text_eq c container ≡ false
            → lookup k (remove_container container bound) ≡ some c)
        × (api.get_config_map (delete_ip t api container s).1
            ≡ ok (record cm { container_ips = decoded (remove_container container bound) }))
  unfolding check delete_ip
  check-delete_ip container s cm bound g m e =
      let cm' = record cm { container_ips = decoded (remove_container container bound) } in
      let done : delete_ip t api container s ≡ api.update_config_map cm' s = ground (arith, g, m) in
      let read = laws.get_updated cm' s (rw done at e) in
      (
        ground (arith, done, read, has_container-remove container bound),
        (λ k c there ne. lookup-remove_container container k c bound there ne),
        rw done read,
      )

module _ (t : NetText) {S : Type 0} (api : Api S) where
  -- Where the config map has interfaces and no bindings yet, AssignIp starts from an empty map,
  -- but Check and DeleteIp report malformed bindings, and DeleteIp leaves the state as it was.
  pub delete_ip_missing :
      (container : Text) (s : S) (cm : ConfigMap) (devs : List IfConfig)
      → api.get_config_map s ≡ ok cm
      → cm.container_ips ≡ missing
      → cm.interfaces ≡ decoded devs
      → (start cm ≡ ok (devs, []))
        × (check t api container s ≡ err bad_container_ips)
        × (delete_ip t api container s ≡ (err bad_container_ips, s))
  unfolding check delete_ip
  delete_ip_missing container s cm devs g m d =
      (ground (arith, m, d), ground (arith, g, m), ground (arith, g, m))
