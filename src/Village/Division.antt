-- ===== src/Village/Division.antt =====
-- How cmdAdd of plugins/main/village/village.go divides the addresses between the two interfaces.
use village_net.Common.{
  ℕ, suc, ltb, ◌&&◌, subst, ◌+◌, ◌≡◌, refl, ap, ◌∙◌, inl, inr, Bool, true, false, List, [], ◌∷◌,
  ◌++◌, none, some, arith, if◌then◌else◌, length, Option-cases, Bool-cases, ok, Result-cases,
  length-append,
}
use village_net.Cni.{Interface, IpConfig, CniResult}
use village_net.Village.{Split, is_mv, nth?, append_both, split_one, split_all, split_result}

-- The lists of interfaces that the two controllers are given.
abbrev pub all_mv : List Interface → Bool
all_mv [] = true
all_mv (x ∷ xs) = if is_mv x.name then all_mv xs else false

abbrev pub no_mv : List Interface → Bool
no_mv [] = true
no_mv (x ∷ xs) = if is_mv x.name then false else no_mv xs

all_mv-append :
    (xs : List Interface) (x : Interface)
    → all_mv xs ≡ true
    → is_mv x.name ≡ true
    → all_mv (xs ++ (x ∷ [])) ≡ true
all_mv-append [] x e f = ground (arith, f)
all_mv-append (y ∷ ys) x e f = ground (arith, all_mv-append ys x, e, f)

no_mv-append :
    (xs : List Interface) (x : Interface)
    → no_mv xs ≡ true
    → is_mv x.name ≡ false
    → no_mv (xs ++ (x ∷ [])) ≡ true
no_mv-append [] x e f = ground (arith, f)
no_mv-append (y ∷ ys) x e f = ground (arith, no_mv-append ys x, e, f)

-- The numbering of addresses: each refers to the interface at its own index.
abbrev pub Numbered : ℕ → List IpConfig → Type 0
Numbered i [] = Unit
Numbered i (x ∷ xs) = (x.interface ≡ some i) × Numbered (i + 1) xs

Numbered-append :
    (i : ℕ) (xs : List IpConfig) (x : IpConfig)
    → Numbered i xs
    → x.interface ≡ some (i + length xs)
    → Numbered i (xs ++ (x ∷ []))
Numbered-append i [] x n e = (e ∙ ap some (omega arith), tt)
Numbered-append i (y ∷ ys) x (a, n) e =
    (a, Numbered-append (i + 1) ys x n (e ∙ ap some (omega arith)))

-- What holds between two rounds of the loop.
pub record IsSplit (sp : Split) : Type 0 where
  pub only_mv : all_mv sp.mv.interfaces ≡ true
  pub never_mv : no_mv sp.br.interfaces ≡ true
  pub mv_paired : length sp.mv.ips ≡ length sp.mv.interfaces
  pub mv_numbered : Numbered 0 sp.mv.ips

-- The three ways that a round adds an address.
Grown : Split → Split → Type 0
Grown sp sp' =
    IsSplit sp'
    × (length sp'.br.ips + length sp'.mv.ips ≡ suc (length sp.br.ips + length sp.mv.ips))

Grown-loose :
    (sp : Split) (ip : IpConfig)
    → IsSplit sp
    → Grown sp (record sp { br = record sp.br { ips = sp.br.ips ++ (ip ∷ []) } })
unfolding Grown
Grown-loose sp ip w = (
  record {
    only_mv = w.only_mv;
    never_mv = w.never_mv;
    mv_paired = w.mv_paired;
    mv_numbered = w.mv_numbered;
  },
  omega (arith, length-append sp.br.ips (ip ∷ [])),
)

Grown-br :
    (sp : Split) (inf : Interface) (ip : IpConfig)
    → IsSplit sp
    → is_mv inf.name ≡ false
    → Grown sp (record sp { br = append_both sp.br inf ip })
unfolding Grown append_both
Grown-br sp inf ip w f = (
  record {
    only_mv = w.only_mv;
    never_mv = no_mv-append sp.br.interfaces inf w.never_mv f;
    mv_paired = w.mv_paired;
    mv_numbered = w.mv_numbered;
  },
  omega (
    arith,
    length-append sp.br.ips (record ip { interface = some (length sp.br.interfaces) } ∷ []),
  ),
)

Grown-mv :
    (sp : Split) (inf : Interface) (ip : IpConfig)
    → IsSplit sp
    → is_mv inf.name ≡ true
    → Grown sp (record sp { mv = append_both sp.mv inf ip })
unfolding Grown append_both
Grown-mv sp inf ip w t =
    let ip' = record ip { interface = some (length sp.mv.interfaces) } in
    let more = length-append sp.mv.ips (ip' ∷ []) in
    (
      record {
        only_mv = all_mv-append sp.mv.interfaces inf w.only_mv t;
        never_mv = w.never_mv;
        mv_paired = omega (arith, more, length-append sp.mv.interfaces (inf ∷ []), w.mv_paired);
        mv_numbered =
            Numbered-append 0 sp.mv.ips ip' w.mv_numbered (ap some (omega (arith, w.mv_paired)));
      },
      omega (arith, more),
    )

split_one-Grown :
    (infs : List Interface) (sp sp' : Split) (ip : IpConfig)
    → IsSplit sp
    → split_one infs sp ip ≡ ok sp'
    → Grown sp sp'
unfolding split_one
split_one-Grown infs sp sp' ip w e = elim (Option-cases ip.interface) [
  | inl q ↦ subst (Grown sp) (ground (arith, q, e)) (Grown-loose sp ip w)
  | inr (idx, q) ↦ elim (Option-cases (nth? infs idx)) [
    | inl n ↦ absurd (ground (arith, q, n, e))
    | inr (inf, n) ↦ elim (Bool-cases (is_mv inf.name)) [
      | inl t ↦ subst (Grown sp) (ground (arith, q, n, t, e)) (Grown-mv sp inf ip w t)
      | inr f ↦ subst (Grown sp) (ground (arith, q, n, f, e)) (Grown-br sp inf ip w f)
    ]
  ]
]

split_all-IsSplit :
    (infs : List Interface) (sp sp' : Split) (ips : List IpConfig)
    → IsSplit sp
    → split_all infs sp ips ≡ ok sp'
    → IsSplit sp'
      × (length sp'.br.ips + length sp'.mv.ips ≡ (length sp.br.ips + length sp.mv.ips) + length ips)
unfolding split_all Grown
split_all-IsSplit infs sp sp' [] w e =
    subst
      (λ x.
        IsSplit x × (length x.br.ips + length x.mv.ips ≡ (length sp.br.ips + length sp.mv.ips) + 0))
      (ground (arith, e)) (w, omega arith)
split_all-IsSplit infs sp sp' (ip ∷ ips) w e = elim (Result-cases (split_one infs sp ip)) [
  | inl (x, q) ↦ absurd (ground (arith, q, e))
  | inr (mid, q) ↦
      let (w', one) = split_one-Grown infs sp mid ip w q in
      let (last, all) = split_all-IsSplit infs mid sp' ips w' (rw (q, split_all) at e) in
      (last, omega (arith, one, all))
]

-- Where cmdAdd divides a result, the macvlan part has only interfaces whose name begins with mv,
-- one for each of its addresses, which refer to them in order, the bridge's part has no such
-- interface, and the two have together as many addresses as the result.
pub split_result-IsSplit :
    (r : CniResult) (sp : Split)
    → split_result r ≡ ok sp
    → IsSplit sp × (length sp.br.ips + length sp.mv.ips ≡ length r.ips)
unfolding split_result
split_result-IsSplit r sp e =
    let (w, all) =
      split_all-IsSplit r.interfaces _ sp r.ips
        (record { only_mv = refl; never_mv = refl; mv_paired = refl; mv_numbered = tt }) e in
    (w, omega (arith, all))

-- The addresses whose interface exists.
abbrev pub indexed : ℕ → List IpConfig → Bool
indexed n [] = true
indexed n (ip ∷ ips) = (elim ip.interface [ none ↦ true | some i ↦ ltb i n ]) && indexed n ips
