-- ===== src/Portmap/Texts.antt =====
-- The texts of plugins/meta/portmap/utils.go and pkg/utils/utils.go.
use village_net.Common.{
  ℕ, zero, suc, ◌+◌, ◌*◌, ◌<◌, ◌≤◌, ◌≡◌, refl, ap, Bool, true, false, ◌||◌, ◌==◌, leb, ltb,
  if◌then◌else◌, List, [], ◌∷◌, ◌++◌, append_assoc, map, Option, none, some, arith, ◌∙◌, length,
  length-append, take, All, codes, Bool-cases, inl, inr,
}
use village_net.Net.{Ip, is_nil, to4}
use village_net.HostLocal.Store.{Text}

-- MustFormatHashWithPrefix, which panics on a bad length; the hash is the text of sha512, a parameter.
abbrev pub max_hash_len : ℕ
max_hash_len = 128

unfoldable pub must_format_hash_with_prefix : (Text → Text) → ℕ → Text → Text → Option Text
must_format_hash_with_prefix hash len prefix to_hash =
    if leb len (length prefix) || ltb max_hash_len len
    then none
    else some (take len (prefix ++ hash to_hash))

abbrev pub max_chain_length : ℕ
max_chain_length = 28

unfoldable pub must_format_chain_name_with_prefix : (Text → Text) → Text → Text → Text → Option Text
unfolding must_format_hash_with_prefix
must_format_chain_name_with_prefix hash name id prefix =
    must_format_hash_with_prefix hash max_chain_length (codes "CNI-" ++ prefix) (name ++ id)

unfoldable pub format_chain_name : (Text → Text) → Text → Text → Option Text
unfolding must_format_chain_name_with_prefix
format_chain_name hash name id = must_format_chain_name_with_prefix hash name id []

-- fmtIpPort and localhostIP
unfoldable pub fmt_ip_port : (Ip → Text) → (ℕ → Text) → Ip → ℕ → Text
fmt_ip_port ip_text itoa ip port =
    if is_nil (to4 ip)
    then codes "[" ++ (ip_text ip ++ (codes "]:" ++ itoa port))
    else ip_text ip ++ (codes ":" ++ itoa port)

unfoldable pub localhost_ip : Bool → Text
localhost_ip is_v6 = if is_v6 then codes "::1" else codes "127.0.0.1"

unfoldable pub trim_comment : Text → Text
trim_comment val = if leb (length val) 255 then val else take 253 val ++ codes "..."

-- splitPortList: the groups that are joined by commas; `acc` is the group that is being filled.
module _ {ℓ} {A : Type ℓ} where
  abbrev flush : Bool → List A → List (List A) → List (List A)
  flush full acc groups = if full then acc ∷ groups else groups

  unfoldable pub port_groups : List A → List A → List (List A)
  port_groups acc [] = flush (ltb 0 (length acc)) acc []
  port_groups acc (i ∷ l) =
      let acc' = acc ++ (i ∷ []) in
      let full = length acc' == 15 in flush full acc' (port_groups (if full then [] else acc') l)

abbrev pub join : Text → List Text → Text
join sep [] = []
join sep (t ∷ []) = t
join sep (t ∷ (u ∷ us)) = t ++ (sep ++ join sep (u ∷ us))

unfoldable pub split_port_list : (ℕ → Text) → List ℕ → List Text
unfolding port_groups
split_port_list itoa l = map (join (codes ",")) (port_groups [] (map itoa l))

module _ {ℓ} {A : Type ℓ} where
  abbrev pub concat : List (List A) → List A
  concat [] = []
  concat (x ∷ xs) = x ++ concat xs

  -- A group that multiport takes.
  abbrev pub FitsMultiport : List A → Type 0
  FitsMultiport g = (0 < length g) × (length g ≤ 15)

  port_groups-invariant :
      (acc l : List A)
      → length acc < 15
      → (concat (port_groups acc l) ≡ acc ++ l)
        × All FitsMultiport (port_groups acc l)
        × (15 * length (port_groups acc l) < length acc + length l + 15)
  unfolding port_groups
  port_groups-invariant [] [] h = (refl, tt, omega arith)
  port_groups-invariant (x ∷ acc) [] h =
      let t : ltb 0 (suc (length acc)) ≡ true = ground arith in
      rw t (refl, ((omega arith, omega (arith, h)), tt), omega (arith, h))
  port_groups-invariant acc (i ∷ l) h = elim (Bool-cases (length (acc ++ (i ∷ [])) == 15)) [
    | inl t ↦
        let len = length-append acc (i ∷ []) in
        let (c, w, n) = port_groups-invariant [] l (omega arith) in
        rw t (
          rw c (append_assoc acc (i ∷ []) l),
          ((ground (arith, len), ground (arith, t)), w),
          ground (arith, n, len, t),
        )
    | inr f ↦
        let len = length-append acc (i ∷ []) in
        let (c, w, n) = port_groups-invariant (acc ++ (i ∷ [])) l (ground (arith, f, len)) in
        rw f (c ∙ append_assoc acc (i ∷ []) l, w, omega (arith, n, len))
  ]

-- The texts of splitPortList are the comma-joined groups of a division of the ports in their
-- order, in which each group has at least one port and at most fifteen, and which has no more
-- groups than needed.
pub split_port_list-groups :
    (itoa : ℕ → Text) (ports : List ℕ)
    → (gs : List (List Text)) × (split_port_list itoa ports ≡ map (join (codes ",")) gs)
      × (concat gs ≡ map itoa ports)
      × All FitsMultiport gs
      × (15 * length gs < length (map itoa ports) + 15)
unfolding split_port_list
split_port_list-groups itoa ports =
    let (c, w, n) = port_groups-invariant [] (map itoa ports) (omega arith) in
    (port_groups [] (map itoa ports), refl, c, w, omega (arith, n))

length-take : (n : ℕ) (xs : Text) → n ≤ length xs → length (take n xs) ≡ n
length-take zero xs h = refl
length-take (suc n) [] h = absurd (omega (arith, h))
length-take (suc n) (x ∷ xs) h = omega (arith, length-take n xs (omega (arith, h)))

-- A text of at most 255 bytes is kept, and a longer one becomes one of 256.
pub length-trim_comment :
    (val : Text)
    → (length val ≤ 255 → trim_comment val ≡ val)
      × (255 < length val → length (trim_comment val) ≡ 256)
unfolding trim_comment
length-trim_comment val = (
  λ h. ground (arith, h),
  λ h.
      let long : leb (length val) 255 ≡ false = ground (arith, h) in
      rw long (
        omega (
          arith,
          length-append (take 253 val) (codes "..."),
          length-take 253 val (omega (arith, h)),
        )),
)

take-append_short :
    (n : ℕ) (xs ys : Text) → length xs ≤ n → (rest : Text) × (take n (xs ++ ys) ≡ xs ++ rest)
take-append_short n [] ys h = (take n ys, refl)
take-append_short zero (x ∷ xs) ys h = absurd (omega (arith, h))
take-append_short (suc n) (x ∷ xs) ys h =
    let (rest, q) = take-append_short n xs ys (omega (arith, h)) in (rest, ap (λ l. x ∷ l) q)

-- Where the hash has 128 characters and the prefix fewer than 24, the name does not panic, has 28
-- characters and begins with the prefixes.
pub must_format_chain_name_with_prefix-length :
    (hash : Text → Text) (name id prefix : Text)
    → ((t : Text) → length (hash t) ≡ max_hash_len)
    → length prefix < 24
    → (r rest : Text) × (must_format_chain_name_with_prefix hash name id prefix ≡ some r)
      × (length r ≡ max_chain_length)
      × (r ≡ (codes "CNI-" ++ prefix) ++ rest)
unfolding must_format_chain_name_with_prefix must_format_hash_with_prefix
must_format_chain_name_with_prefix-length hash name id prefix size h =
    let all = (codes "CNI-" ++ prefix) ++ hash (name ++ id) in
    let len = length-append prefix (hash (name ++ id)) in
    let (rest, q) =
      take-append_short max_chain_length (codes "CNI-" ++ prefix) (hash (name ++ id))
        (omega (arith, h)) in
    let room : leb max_chain_length (length (codes "CNI-" ++ prefix)) ≡ false = ground (arith, h) in
    (
      take max_chain_length all,
      rest,
      rw room refl,
      length-take max_chain_length all (omega (arith, len, size (name ++ id))),
      q,
    )
