-- ===== src/Village/Cleanup.antt =====
-- What cmdAdd of plugins/main/village/village.go undoes where it fails, and what it leaves behind.
use village_net.Common.{◌≡◌, refl, inl, inr, true, false, [], some, arith, text_eq, ok, err}
use village_net.HostLocal.Store.{Text}
use village_net.Cni.{NetConf, CniResult}
use village_net.Cni.Effects.{Error, on_error, on_error-cases, on_error-err}
use village_net.Village.{
  Parts, Split, mv0, split_result, wants_macvlan, add_interfaces, add_assigned, add_layer3, cmd_add,
}

module _ {S : Type 0} (p : Parts S) (conf : NetConf) (ipam_type if_name : Text) where
  cmd_add-assigned :
      (s s1 : S) (r : CniResult)
      → conf.ipam_type ≡ some ipam_type
      → text_eq ipam_type [] ≡ false
      → p.exec_add ipam_type s ≡ (ok r, s1)
      → cmd_add p conf if_name s
        ≡ on_error (add_assigned p conf if_name r) (p.exec_del ipam_type) s1
  unfolding cmd_add add_layer3
  cmd_add-assigned s s1 r c t a = rw (c, t, a) refl

  -- For a configuration with an IPAM plugin, where that plugin has assigned addresses and cmdAdd
  -- fails, whatever the plugin's release of the addresses establishes in every state holds in the
  -- state that cmdAdd leaves.
  pub cmd_add-released :
      (IsFree : S → Type 0) (s s1 : S) (r : CniResult) (e : Error)
      → conf.ipam_type ≡ some ipam_type
      → text_eq ipam_type [] ≡ false
      → ((s' : S) → IsFree (p.exec_del ipam_type s').1)
      → p.exec_add ipam_type s ≡ (ok r, s1)
      → (cmd_add p conf if_name s).0 ≡ err e
      → IsFree (cmd_add p conf if_name s).1
  cmd_add-released IsFree s s1 r e c t free a failed =
      let run = cmd_add-assigned s s1 r c t a in
      elim (on_error-cases (add_assigned p conf if_name r) (p.exec_del ipam_type) s1) [
        | inl (e', s', q, done) ↦ rw (run, done) (free s')
        | inr (u, s', q, done) ↦ absurd (ground (arith, run, done, failed))
      ]

  -- Where the addresses are assigned and divided, the bridge's part succeeds, a macvlan interface
  -- is wanted and adding it fails in a state that has the bridge's interface, and neither
  -- deleting mv0 nor releasing the addresses removes that interface, cmdAdd reports the error and
  -- leaves the bridge's interface in place.
  pub cmd_add-leaks :
      (HasBridgeIf : S → Type 0) (s s1 s2 s3 : S) (r : CniResult) (sp : Split) (e : Error)
      → conf.ipam_type ≡ some ipam_type
      → text_eq ipam_type [] ≡ false
      → p.exec_add ipam_type s ≡ (ok r, s1)
      → split_result r ≡ ok sp
      → p.bridge_add if_name conf (some sp.br) s1 ≡ (ok tt, s2)
      → wants_macvlan p conf sp ≡ true
      → p.macvlan_add mv0 conf sp.mv s2 ≡ (err e, s3)
      → HasBridgeIf s3
      → ((s' : S) → HasBridgeIf s' → HasBridgeIf (p.bridge_del mv0 conf s').1)
      → ((s' : S) → HasBridgeIf s' → HasBridgeIf (p.exec_del ipam_type s').1)
      → ((cmd_add p conf if_name s).0 ≡ err e) × HasBridgeIf (cmd_add p conf if_name s).1
  unfolding add_assigned add_interfaces
  cmd_add-leaks HasBridgeIf s s1 s2 s3 r sp e c t a q b wants mv has keeps_br keeps_ipam =
      let undone = on_error-err (p.macvlan_add mv0 conf sp.mv) (p.bridge_del mv0 conf) s2 s3 e mv in
      let step : add_assigned p conf if_name r s1 ≡ (err e, (p.bridge_del mv0 conf s3).1) =
        rw (q, add_assigned, b, add_interfaces, wants) undone in
      let all : cmd_add p conf if_name s
          ≡ (err e, (p.exec_del ipam_type (p.bridge_del mv0 conf s3).1).1) =
        rw (cmd_add-assigned s s1 r c t a)
          (on_error-err (add_assigned p conf if_name r) (p.exec_del ipam_type) s1 _ e step) in
      rw all (refl, keeps_ipam _ (keeps_br s3 has))
