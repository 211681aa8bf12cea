-- ===== src/Sbr/Tables.antt =====
-- The table that doRoutes of plugins/meta/sbr/main.go picks.
use village_net.Common.{
  ℕ, zero, suc, ◌+◌, ◌<◌, ◌≤◌, ◌≡◌, refl, true, false, ◌==◌, leb, if◌then◌else◌, List, [], ◌∷◌,
  ◌++◌, map, some, arith, length, inl, inr, Bool-cases,
}
use village_net.Sbr.{IpRule, HostRoute, one_of_tables, pick_table, free_table, first_table_id}

-- How many entries are not below a number.
abbrev count_from : ℕ → List ℕ → ℕ
count_from t [] = 0
count_from t (u ∷ us) = let rest = count_from t us in if leb t u then suc rest else rest

count_from-suc : (t : ℕ) (us : List ℕ) → count_from (t + 1) us ≤ count_from t us
count_from-suc t [] = omega arith
count_from-suc t (u ∷ us) = ground (arith, count_from-suc t us)

count_from-taken :
    (t : ℕ) (us : List ℕ) → one_of_tables t us ≡ true → count_from (t + 1) us < count_from t us
count_from-taken t [] h = absurd (ground (arith, h))
count_from-taken t (u ∷ us) h = elim (Bool-cases (u == t)) [
  | inl e ↦ ground (arith, e, count_from-suc t us)
  | inr e ↦ ground (arith, e, count_from-taken t us (ground (arith, e, h)))
]

count_from-length : (t : ℕ) (us : List ℕ) → count_from t us ≤ length us
count_from-length t [] = omega arith
count_from-length t (u ∷ us) = ground (arith, count_from-length t us)

pick_table-free :
    (f t : ℕ) (taken : List ℕ)
    → count_from t taken < f
    → (r : ℕ) × (pick_table f t taken ≡ some r) × (t ≤ r) × (one_of_tables r taken ≡ false)
unfolding pick_table
pick_table-free zero t taken h = absurd (omega (arith, h))
pick_table-free (suc f) t taken h = elim (Bool-cases (one_of_tables t taken)) [
  | inr e ↦ (t, rw (e, pick_table) refl, omega arith, e)
  | inl e ↦
      let (r, q, lo, free) =
        pick_table-free f (t + 1) taken (omega (arith, h, count_from-taken t taken e)) in
      (r, rw (e, pick_table) q, omega (arith, lo), free)
]

-- The search for a table ends, with a table from 100 on that no rule and no route has.
pub free_table_total :
    (rules : List IpRule) (routes : List HostRoute)
    → (r : ℕ) × (free_table rules routes ≡ some r)
      × (first_table_id ≤ r)
      × (one_of_tables r (map (λ x. x.table) rules ++ map (λ x. x.table) routes) ≡ false)
unfolding free_table
free_table_total rules routes =
    let taken = map (λ x. x.table) rules ++ map (λ x. x.table) routes in
    pick_table-free (suc (length taken)) first_table_id taken
      (omega (arith, count_from-length first_table_id taken))
