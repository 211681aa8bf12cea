-- ===== src/Cni/Links.antt =====
-- Links by name: pkg/ip/link_linux.go, and netns.Do of pkg/ns.
use village_net.Common.{Bool, if◌then◌else◌, List, [], ◌∷◌}
use village_net.Net.{IpNet}
use village_net.HostLocal.Store.{Text}
use village_net.Cni.{Host, Ns}
use village_net.Cni.Effects.{Eff, failed, pure, failing_as, ◌>>=◌, ◌>>◌}

module _ {S : Type 0} (h : Host S) where
  -- netns.Do
  abbrev pub in_ns : {A : Type 0} → Ns → Eff S A → Eff S A
  in_ns ns body s = (h.enter_ns ns >>= λ _. body) s

  unfoldable pub rename_link : Ns → Text → Text → Eff S (Unit {0})
  rename_link ns cur_name new_name = do
    link ← h.link_by_name ns cur_name
    h.link_set_name ns link.name new_name

  unfoldable pub del_link_by_name : Ns → Text → Eff S (Unit {0})
  del_link_by_name ns if_name = do
    iface ← h.link_by_name ns if_name
    failing_as failed (h.link_del ns iface.name)

  -- The addresses of a link that is removed; the caller is given those that `is_global` selects.
  unfoldable pub del_link_by_name_addr : (IpNet → Bool) → Ns → Text → Eff S (List IpNet)
  del_link_by_name_addr is_global ns if_name = do
    iface ← h.link_by_name ns if_name
    addrs ← failing_as failed (h.addr_list ns iface.name)
    failing_as failed (h.link_del ns iface.name)
    pure (filter is_global addrs)
    where
      filter : (IpNet → Bool) → List IpNet → List IpNet
      filter p [] = []
      filter p (x ∷ xs) = let rest = filter p xs in if p x then x ∷ rest else rest
