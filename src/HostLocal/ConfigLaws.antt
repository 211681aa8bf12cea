-- ===== src/HostLocal/ConfigLaws.antt =====
-- What LoadIPAMConfig of plugins/ipam/host-local/backend/allocator/config.go guarantees.
use village_net.Common.{
  ◌≤◌, ◌<◌, ◌≡◌, refl, ap, ◌⊎◌, Bool, true, false, ◌&&◌, ◌||◌, List, [], ◌∷◌, ◌++◌, Option, none,
  some, arith, ltb, if◌then◌else◌, length, All, Result, ok, ◌>>=◌, Result-cases, chain_inverts,
  Bool-cases, inl, inr,
}
use village_net.Net.{Ip, is_nil}
use village_net.HostLocal.Store.{Text}
use village_net.HostLocal.Range.{Range}
use village_net.HostLocal.RangeSet
use village_net.HostLocal.RangeSet.{RangeSet}
use village_net.HostLocal.Config.{
  NetInput, IpamInput, IpamConf, single_range, canonicalize_ips, canonicalize_sets, count_sets,
  overlaps_any, any_overlap, check_sets, load_sets, load_ipam, env_ips, load_ipam_config, Apart,
}

overlaps_any-All :
    (p : RangeSet) (qs : List RangeSet)
    → overlaps_any p qs ≡ false
    → All (λ q. RangeSet.overlaps p q ≡ false) qs
overlaps_any-All p [] e = tt
overlaps_any-All p (q ∷ qs) e = (ground (arith, e), overlaps_any-All p qs (ground (arith, e)))

any_overlap-Apart : (ps : List RangeSet) → any_overlap ps ≡ false → Apart ps
any_overlap-Apart [] e = tt
any_overlap-Apart (p ∷ ps) e =
    (overlaps_any-All p ps (ground (arith, e)), any_overlap-Apart ps (ground (arith, e)))

-- Each set of a list, put in standard form.
pub data Canonical : List RangeSet → List RangeSet → Type 0 where
  nothing : Canonical [] []
  next :
      {p p' : RangeSet} {ps ps' : List RangeSet}
      → RangeSet.canonicalize p ≡ ok p'
      → Canonical ps ps'
      → Canonical (p ∷ ps) (p' ∷ ps')

Canonical-length : (ps qs : List RangeSet) → Canonical ps qs → length qs ≡ length ps
Canonical-length [] [] nothing = refl
Canonical-length [] (q ∷ qs) c = elim c [ ]
Canonical-length (p ∷ ps) [] c = elim c [ ]
Canonical-length (p ∷ ps) (q ∷ qs) (next e c) = omega (arith, Canonical-length ps qs c)

Canonical-append :
    (ps ps' qs : List RangeSet)
    → Canonical (ps ++ ps') qs
    → (rs rs' : List RangeSet) × (qs ≡ rs ++ rs') × Canonical ps rs × Canonical ps' rs'
Canonical-append [] ps' qs c = ([], qs, refl, nothing, c)
Canonical-append (p ∷ ps) ps' [] c = elim c [ ]
Canonical-append (p ∷ ps) ps' (q ∷ qs) (next e c) =
    let (rs, rs', same, l, r) = Canonical-append ps ps' qs c in
    (q ∷ rs, rs', ap (λ t. q ∷ t) same, next e l, r)

-- The set of the old single range: there is none without a range or without its subnet's address,
-- and else it is that range alone, in standard form.
abbrev pub IsOldRange : Option Range → List RangeSet → Type 0
IsOldRange none old = old ≡ []
IsOldRange (some r) old =
    ((r.subnet.ip ≡ []) × (old ≡ []))
    ⊎ ((¬ (r.subnet.ip ≡ []))
        × (q : RangeSet) × (RangeSet.canonicalize (r ∷ []) ≡ ok q)
        × (old ≡ q ∷ []))

Canonical-nothing : (old : List RangeSet) → Canonical [] old → old ≡ []
Canonical-nothing [] nothing = refl
Canonical-nothing (q ∷ qs) c = elim c [ ]

Canonical-alone :
    (p : RangeSet) (old : List RangeSet)
    → Canonical (p ∷ []) old
    → (q : RangeSet) × (RangeSet.canonicalize p ≡ ok q) × (old ≡ q ∷ [])
Canonical-alone p [] c = elim c [ ]
Canonical-alone p (q ∷ old) (next e c) = (q, e, ap (λ t. q ∷ t) (Canonical-nothing old c))

Canonical-one :
    (r : Range) (ip : Ip) (old : List RangeSet)
    → r.subnet.ip ≡ ip
    → Canonical (if is_nil ip then [] else (r ∷ []) ∷ []) old
    → IsOldRange (some r) old
Canonical-one r [] old e c = inl (e, Canonical-nothing old c)
Canonical-one r (b ∷ bs) old e c =
    let (q, made, same) = Canonical-alone (r ∷ []) old c in
    inr (λ n. absurd (cc (e, n)), q, made, same)

Canonical-single_range :
    (o : Option Range) (old : List RangeSet) → Canonical (single_range o) old → IsOldRange o old
unfolding single_range
Canonical-single_range none [] nothing = refl
Canonical-single_range none (q ∷ qs) c = elim c [ ]
Canonical-single_range (some r) old c = Canonical-one r r.subnet.ip old refl c

canonicalize_sets-Canonical :
    (ps qs : List RangeSet) → canonicalize_sets ps ≡ ok qs → Canonical ps qs
unfolding canonicalize_sets
canonicalize_sets-Canonical [] qs e =
    let none_left : [] ≡ qs = ground (arith, e) in rw (← none_left) nothing
canonicalize_sets-Canonical (p ∷ ps) qs e = elim (Result-cases (RangeSet.canonicalize p)) [
  | inl (x, q) ↦ absurd (ground (arith, q, e))
  | inr (p', q) ↦ elim (Result-cases (canonicalize_sets ps)) [
    | inl (x, r) ↦ absurd (ground (arith, q, r, e))
    | inr (rest, r) ↦
        let made : p' ∷ rest ≡ qs = ground (arith, q, r, e) in
        rw (← made) (next q (canonicalize_sets-Canonical ps rest r))
  ]
]

check_sets-ok :
    (is_old : Text → Bool) (v : Text) (ps qs : List RangeSet)
    → check_sets is_old v ps ≡ ok qs
    → (qs ≡ ps)
      × (any_overlap ps ≡ false)
      × (is_old v ≡ true → (count_sets true ps ≤ 1) × (count_sets false ps ≤ 1))
unfolding check_sets
check_sets-ok is_old v ps qs e =
    elim (Bool-cases ((ltb 1 (count_sets true ps) || ltb 1 (count_sets false ps)) && is_old v)) [
      | inl t ↦ absurd (ground (arith, t, e))
      | inr f ↦ elim (Bool-cases (any_overlap ps)) [
        | inl t ↦ absurd (ground (arith, f, t, e))
        | inr n ↦
            (ground (arith, f, n, e), n, λ old. (ground (arith, f, old), ground (arith, f, old)))
      ]
    ]

-- What a loaded configuration keeps: at least one set, no two that overlap, and for an old version
-- one of each family at most.
pub record IsLoaded (is_old : Text → Bool) (v : Text) (ps : List RangeSet) : Type 0 where
  pub some_set : 0 < length ps
  pub apart : Apart ps
  pub one_each : is_old v ≡ true → (count_sets true ps ≤ 1) × (count_sets false ps ≤ 1)

load_sets-IsLoaded :
    (is_old : Text → Bool) (v : Text) (p : RangeSet) (ps qs : List RangeSet)
    → (canonicalize_sets (p ∷ ps) >>= check_sets is_old v) ≡ ok qs
    → IsLoaded is_old v qs × Canonical (p ∷ ps) qs
load_sets-IsLoaded is_old v p ps qs e = elim (Result-cases (canonicalize_sets (p ∷ ps))) [
  | inl (x, q) ↦ absurd (ground (arith, q, e))
  | inr (cs, q) ↦
      let (same, apart, old) = check_sets-ok is_old v cs qs (rw q at e) in
      let made = canonicalize_sets-Canonical (p ∷ ps) cs q in
      rw same (
        record {
          some_set = omega (arith, Canonical-length (p ∷ ps) cs made);
          apart = any_overlap-Apart cs apart;
          one_each = old;
        },
        made,
      )
]

load_sets-some :
    (is_old : Text → Bool) (v : Text) (ps qs : List RangeSet)
    → load_sets is_old v ps ≡ ok qs
    → IsLoaded is_old v qs × Canonical ps qs
load_sets-some is_old v [] qs e = cc
load_sets-some is_old v (p ∷ ps) qs e = load_sets-IsLoaded is_old v p ps qs e

-- Where LoadIPAMConfig succeeds on a configuration with an ipam section, the range sets are at
-- least one, no two of them overlap, for an old CNI version there is one of each family at most,
-- and the sets are, each in standard form and in this order, the runtime's, the old single range
-- alone if there is one whose subnet has an address, and the section's other sets.
pub load_ipam_config-IsLoaded :
    (is_old : Text → Bool) (n : NetInput) (env : Result (Unit {0}) (Option Ip)) (ipam : IpamInput)
    (conf : IpamConf)
    → n.ipam ≡ some ipam
    → load_ipam_config is_old n env ≡ ok conf
    → IsLoaded is_old n.cni_version conf.ranges
      × (runtime old rest : List RangeSet) × (conf.ranges ≡ runtime ++ (old ++ rest))
      × Canonical n.runtime_ranges runtime
      × IsOldRange ipam.range old
      × Canonical ipam.ranges rest
unfolding load_ipam_config
load_ipam_config-IsLoaded is_old n env ipam conf i e =
    let loaded : load_ipam is_old n env ipam ≡ ok conf = ground (arith, i, e) in
    let (from_env, q, e1) = chain_inverts _ (env_ips env) conf loaded in
    let (ips, q1, e2) = chain_inverts _ (canonicalize_ips (from_env ++ n.args_ips)) conf e1 in
    let all = n.runtime_ranges ++ (single_range ipam.range ++ ipam.ranges) in
    let (sets, q2, e3) = chain_inverts _ (load_sets is_old n.cni_version all) conf e2 in
    let same : sets ≡ conf.ranges = ground (arith, e3) in
    let (good, made) = rw same at (load_sets-some is_old n.cni_version all sets q2) in
    let (runtime, behind, e4, c, c') =
      Canonical-append n.runtime_ranges (single_range ipam.range ++ ipam.ranges) conf.ranges made in
    let (old, rest, e5, c1, c2) =
      Canonical-append (single_range ipam.range) ipam.ranges behind c' in
    (
      good,
      runtime,
      old,
      rest,
      cc (e4, ap (λ t. runtime ++ t) e5),
      c,
      Canonical-single_range ipam.range old c1,
      c2,
    )
