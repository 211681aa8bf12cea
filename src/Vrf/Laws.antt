-- ===== src/Vrf/Laws.antt =====
-- The tables that plugins/meta/vrf/vrf.go chooses, and the check of main.go.
use village_net.Common.{
  ℕ, zero, suc, ◌+◌, ◌<◌, ◌≤◌, ◌≡◌, inl, inr, refl, Bool, true, false, Option, none, some, List, [],
  arith, ok, err, text_eq, Bool-cases, subst, ◌==◌,
}
use village_net.Net.{IpNet}
use village_net.HostLocal.Store.{Text}
use village_net.Cni.Effects.{link_not_found}
use village_net.Vrf.{
  VrfLink, VrfNetConf, VrfHost, taken_table, free_from, find_free_routing_table_id, check_vrf,
  find_vrf, cmd_check,
}

-- What a search from `res` to `end` says.
abbrev pub IsFirstFree : List VrfLink → ℕ → ℕ → Option ℕ → Type 0
IsFirstFree ls res end none = (k : ℕ) → res ≤ k → k < end → taken_table k ls ≡ true
IsFirstFree ls res end (some r) =
    (res ≤ r)
    × (r < end)
    × (taken_table r ls ≡ false)
    × ((k : ℕ) → res ≤ k → k < r → taken_table k ls ≡ true)

free_from-IsFirstFree :
    (rounds res : ℕ) (ls : List VrfLink)
    → IsFirstFree ls res (res + rounds) (free_from rounds res ls)
unfolding free_from
free_from-IsFirstFree zero res ls = λ k lo hi. absurd (omega (arith, lo, hi))
free_from-IsFirstFree (suc rounds) res ls = elim (Bool-cases (taken_table res ls)) [
  | inl t ↦
      rw (t, free_from)
        (step rounds res ls (free_from rounds (res + 1) ls) t
          (free_from-IsFirstFree rounds (res + 1) ls))
  | inr f ↦
      rw (f, free_from) (omega arith, omega arith, f, λ k lo hi. absurd (omega (arith, lo, hi)))
]
  where
    at_or_behind :
        (res k : ℕ) (ls : List VrfLink)
        → taken_table res ls ≡ true
        → res ≤ k
        → (res + 1 ≤ k → taken_table k ls ≡ true)
        → taken_table k ls ≡ true
    at_or_behind res k ls t lo f = elim (Bool-cases (k == res)) [
      | inl e ↦ let q : res ≡ k = ground (arith, e) in subst (λ x. taken_table x ls ≡ true) q t
      | inr e ↦ f (ground (arith, e, lo))
    ]

    step :
        (rounds res : ℕ) (ls : List VrfLink) (o : Option ℕ)
        → taken_table res ls ≡ true
        → IsFirstFree ls (res + 1) (res + 1 + rounds) o
        → IsFirstFree ls res (res + suc rounds) o
    step rounds res ls none t w =
        λ k lo hi. at_or_behind res k ls t lo (λ l. w k l (omega (arith, hi)))
    step rounds res ls (some r) t (lo, hi, f, w) =
        (omega (arith, lo), omega (arith, hi), f, λ k a b. at_or_behind res k ls t a (λ l. w k l b))

-- FindFreeRoutingTableID gives the least number from 1 to 2^32 - 2 that is the table of no VRF of
-- the links, and fails only where all of these are taken.
pub find_free_routing_table_id-IsFirstFree :
    (ls : List VrfLink) → IsFirstFree ls 1 4294967295 (find_free_routing_table_id ls)
unfolding find_free_routing_table_id
find_free_routing_table_id-IsFirstFree ls = free_from-IsFirstFree 4294967294 1 ls

module _ {S : Type 0} (h : VrfHost S) (addr_equal : IpNet → IpNet → Bool) where
  -- For a configuration with a name and a previous result, where the namespace can be opened and
  -- has no link of that name, what cmdCheck runs in the namespace fails, and cmdCheck succeeds.
  pub cmd_check-no_vrf :
      (netns if_name : Text) (conf : VrfNetConf) (s : S)
      → text_eq conf.vrf_name [] ≡ false
      → conf.has_prev_result ≡ true
      → h.get_ns netns s ≡ (ok tt, s)
      → h.link_by_name conf.vrf_name s ≡ (err link_not_found, s)
      → (check_vrf h addr_equal if_name conf s ≡ (err link_not_found, s))
        × (cmd_check h addr_equal netns if_name conf s ≡ (ok tt, s))
  unfolding cmd_check check_vrf find_vrf
  cmd_check-no_vrf netns if_name conf s n p g q = (rw q refl, rw (n, p, g, q) refl)
