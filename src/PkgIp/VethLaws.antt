-- ===== src/PkgIp/VethLaws.antt =====
-- The names that makeVeth of pkg/ip/link_linux.go draws, and the hardware addresses of pkg/utils/hwaddr.
use village_net.Common.{
  ℕ, suc, ◌+◌, ◌-◌, ◌<◌, ◌≡◌, refl, ◌∙◌, false, ◌&&◌, ◌==◌, [], ◌++◌, ok, err, subst, length, arith,
  inl, inr, Bool-cases, text_eq, take,
}
use village_net.Net.{Ip, is_nil, to4, v4_in_v6_prefix}
use village_net.HostLocal.Store.{Text}
use village_net.Cni.Effects.{failed, exists}
use village_net.PkgIp.Veth.{
  VethLink, VethHost, private_mac_prefix, generate_hardware_addr4, make_veth_pair, peer_exists,
  make_veth_tries, make_veth,
}

-- For an IPv4 address in either form, the hardware address is the private prefix and its four bytes.
pub generate_hardware_addr4-to4 :
    (ip : Ip)
    → is_nil (to4 ip) ≡ false
    → generate_hardware_addr4 ip private_mac_prefix ≡ ok (private_mac_prefix ++ to4 ip)
unfolding generate_hardware_addr4 to4
generate_hardware_addr4-to4 ip w = elim (Bool-cases (length ip == 4)) [
  | inl e ↦ let none_left : length ip - 4 ≡ 0 = ground (arith, e) in rw (w, e, none_left) refl
  | inr f ↦ elim (Bool-cases ((length ip == 16) && text_eq (take 12 ip) v4_in_v6_prefix)) [
    | inl e ↦ let twelve : length ip - 4 ≡ 12 = ground (arith, e) in rw (w, f, e, twelve) refl
    | inr g ↦ absurd (ground (arith, w, f, g))
  ]
]

module _ {S : Type 0} (h : VethHost S) (name : Text) (mtu : ℕ) where
  -- Tries whose drawn names are taken, from one state to another.
  pub data Collides : ℕ → S → S → Type 0 where
    none_yet : {s : S} → Collides 0 s s
    taken :
        {n : ℕ} {s s1 s2 s3 s' : S} {peer : Text} {l : VethLink}
        → h.random_name s ≡ (ok peer, s1)
        → h.link_add name peer mtu s1 ≡ (err exists, s2)
        → h.link_by_name false peer s2 ≡ (ok l, s3)
        → Collides n s3 s'
        → Collides (suc n) s s'

  -- A try that succeeds.
  pub record IsMade (s s' : S) (peer : Text) (veth : VethLink) : Type 0 where
    pub drawn_state : S
    pub added_state : S
    pub drawn : h.random_name s ≡ (ok peer, drawn_state)
    pub added : h.link_add name peer mtu drawn_state ≡ (ok tt, added_state)
    pub fetched : h.link_by_name false name added_state ≡ (ok veth, s')

  tries-made :
      (k : ℕ) (s s' : S) (peer : Text) (veth : VethLink)
      → IsMade s s' peer veth
      → make_veth_tries h (suc k) name [] mtu s ≡ (ok (peer, veth), s')
  unfolding make_veth_pair
  tries-made k s s' peer veth w = rw (w.drawn, w.added, w.fetched) refl

  tries-taken :
      {n : ℕ} {s s' : S} (k : ℕ)
      → Collides n s s'
      → make_veth_tries h (n + k) name [] mtu s ≡ make_veth_tries h k name [] mtu s'
  unfolding make_veth_pair peer_exists
  tries-taken k none_yet = let none_more : 0 + k ≡ k = omega arith in rw none_more refl
  tries-taken k (taken {n} drawn added there w) =
      let one_more : suc n + k ≡ suc (n + k) = omega arith in
      rw (one_more, drawn, added, there) (tries-taken k w)

  -- Where no name for the peer is given, the first n < 10 names that are drawn are names of
  -- links, each of which LinkAdd refuses as existing, and with the next one the pair is added and
  -- fetched, makeVeth returns that name and that link.
  pub make_veth-first_free :
      (n : ℕ) (s s1 s' : S) (peer : Text) (veth : VethLink)
      → n < 10
      → Collides n s s1
      → IsMade s1 s' peer veth
      → make_veth h name [] mtu s ≡ (ok (peer, veth), s')
  unfolding make_veth
  make_veth-first_free n s s1 s' peer veth lt w made =
      let k = 9 - n in
      let ten : n + suc k ≡ 10 = omega arith in
      subst (λ m. make_veth_tries h m name [] mtu s ≡ (ok (peer, veth), s')) ten
        (tries-taken (suc k) w ∙ tries-made k s1 s' peer veth made)

  pub make_veth-gives_up :
      (s s' : S) → Collides 10 s s' → make_veth h name [] mtu s ≡ (err failed, s')
  unfolding make_veth
  make_veth-gives_up s s' w = tries-taken 0 w
