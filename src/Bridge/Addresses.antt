-- ===== src/Bridge/Addresses.antt =====
-- What ensureAddr of pkg/bridge/bridge.go does to the addresses that a bridge has.
use village_net.Common.{
  ◌≡◌, ◌⊎◌, inl, inr, refl, Bool, true, false, List, [], ◌∷◌, text_eq, ok, err, Bool-cases,
}
use village_net.Net.{IpNet}
use village_net.HostLocal.Store.{Text}
use village_net.Cni.{Host, family_v4, Link}
use village_net.Cni.Effects.{address_conflict}
use village_net.Bridge.Links.{clear_way}

abbrev pub first_is : (IpNet → Text) → IpNet → List IpNet → Bool
first_is net_text ipn [] = false
first_is net_text ipn (a ∷ addrs) = text_eq (net_text a) (net_text ipn)

module _ {S : Type 0} (h : Host S) (net_text : IpNet → Text) where
  -- Without forceAddress the loop of ensureAddr over the IPv4 addresses of a bridge removes none
  -- and leaves the state as it was: it reports that the wanted address is missing if there is no
  -- address, that it is there if the first address is the wanted one, and a conflict if the first
  -- is another.
  pub clear_way-unforced :
      (br : Link) (ipn : IpNet) (addrs : List IpNet) (s : S)
      → ((addrs ≡ []) × (clear_way h net_text br family_v4 ipn false addrs s ≡ (ok false, s)))
        ⊎ (((first_is net_text ipn addrs ≡ true)
              × (clear_way h net_text br family_v4 ipn false addrs s ≡ (ok true, s)))
            ⊎ ((first_is net_text ipn addrs ≡ false)
                × (clear_way h net_text br family_v4 ipn false addrs s
                    ≡ (err address_conflict, s))))
  unfolding clear_way
  clear_way-unforced br ipn [] s = inl (refl, refl)
  clear_way-unforced br ipn (a ∷ addrs) s =
      elim (Bool-cases (text_eq (net_text a) (net_text ipn))) [
        | inl t ↦ inr (inl (t, rw (t, clear_way) refl))
        | inr f ↦ inr (inr (f, rw (f, clear_way) refl))
      ]
