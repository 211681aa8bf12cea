-- ===== src/Cni/Effects.antt =====
-- Actions that change a state and may fail; what was done before an error stays done.
use village_net.Common.{
  Bool, true, false, All, ℕ, arith, ◌≡◌, ◌⊎◌, inl, inr, ap, Result-cases, refl, List, [], ◌∷◌,
  Result, ok, err,
}

pub data Error : Type 0 where
  panic failed link_not_found exists : Error
  no_interfaces invalid_interface_index missing_ip_config unknown_mode bad_mac : Error
  hairpin_and_promisc no_prev_result sandbox_mismatch mode_mismatch mac_mismatch : Error
  missing_name missing_sandbox not_macvlan not_bridge not_veth promisc_mismatch : Error
  unknown_ip address_conflict port_not_up not_found : Error
  rule_not_found not_run chain_not_found rule_missing no_tables : Error
  exit_status : ℕ → Error

abbrev pub Eff : Type 0 → Type 0 → Type 0
Eff S A = S → Result Error A × S

module _ {A : Type 0} where
  -- A panic is never handled: it passes through every use of an error.
  abbrev pub rename_error : Error → Result Error A → Result Error A
  rename_error e (ok a) = ok a
  rename_error e (err panic) = err panic
  rename_error e (err _) = err e

  pub rename_error-ok :
      (x : Error) (r : Result Error A) (a : A) → rename_error x r ≡ ok a → r ≡ ok a
  rename_error-ok x (ok b) a e = e
  rename_error-ok x (err panic) a e = absurd (ground (arith, e))
  rename_error-ok x (err _) a e = absurd (ground (arith, e))

  abbrev pub as_value : Result Error A → Result Error (Result Error A)
  as_value (ok a) = ok (ok a)
  as_value (err panic) = err panic
  as_value (err e) = ok (err e)

  abbrev without_value : Result Error A → Result Error (Unit {0})
  without_value (ok a) = ok tt
  without_value (err panic) = err panic
  without_value (err e) = ok tt

module _ {S : Type 0} where
  abbrev pub when : Bool → Eff S (Unit {0}) → Eff S (Unit {0})
  when true m = m
  when false m = λ s. (ok tt, s)

module _ {S A : Type 0} where
  abbrev pub pure : A → Eff S A
  pure a s = (ok a, s)

  abbrev pub raise : Error → Eff S A
  raise e s = (err e, s)

  -- The result of an action as a value.
  abbrev pub attempt : Eff S A → Eff S (Result Error A)
  attempt m s = let (r, s') = m s in (as_value r, s')

  -- An error that is replaced by another.
  abbrev pub failing_as : Error → Eff S A → Eff S A
  failing_as e m s = let (r, s') = m s in (rename_error e r, s')

  -- `_ = f()`
  abbrev pub ignore : Eff S A → Eff S (Unit {0})
  ignore m s = let (r, s') = m s in (without_value r, s')

module _ {S A B : Type 0} where
  abbrev pub bind_result : Result Error A → (A → Eff S B) → Eff S B
  bind_result (ok a) f s = f a s
  bind_result (err e) f s = (err e, s)

  infixl 5 ◌>>=◌ ◌>>◌
  abbrev pub ◌>>=◌ : Eff S A → (A → Eff S B) → Eff S B
  ◌>>=◌ m f s = let (r, s') = m s in bind_result r f s'

  abbrev pub ◌>>◌ : Eff S A → Eff S B → Eff S B
  m >> n = m >>= λ _. n

  -- A sequence that succeeds: both of its actions do.
  pub succeeds :
      (m : Eff S A) (f : A → Eff S B) (s s' : S) (b : B)
      → (m >>= f) s ≡ (ok b, s')
      → (a : A) × (s1 : S) × (m s ≡ (ok a, s1)) × (f a s1 ≡ (ok b, s'))
  succeeds m f s s' b e = elim (Result-cases (m s).0) [
    | inl (x, q) ↦ absurd (ground (arith, q, e))
    | inr (a, q) ↦ (a, (m s).1, ap (λ r. (r, (m s).1)) q, rw q at e)
  ]

module _ {S A : Type 0} where
  abbrev pub fail_after : Result Error A → Eff S (Unit {0}) → Eff S A
  fail_after (ok a) clean s = (ok a, s)
  fail_after (err e) clean s = (err e, (clean s).1)

  -- A deferred clean-up that runs where the action fails; its own result is dropped.
  abbrev pub on_error : Eff S A → Eff S (Unit {0}) → Eff S A
  on_error m clean s = let (r, s') = m s in fail_after r clean s'

  pub on_error-err :
      (m : Eff S A) (clean : Eff S (Unit {0})) (s s' : S) (e : Error)
      → m s ≡ (err e, s')
      → on_error m clean s ≡ (err e, (clean s').1)
  on_error-err m clean s s' e q = rw q refl

  pub on_error-cases :
      (m : Eff S A) (clean : Eff S (Unit {0})) (s : S)
      → ((e : Error) × (s' : S) × (m s ≡ (err e, s'))
          × (on_error m clean s ≡ (err e, (clean s').1)))
        ⊎ ((a : A) × (s' : S) × (m s ≡ (ok a, s')) × (on_error m clean s ≡ (ok a, s')))
  on_error-cases m clean s = elim (Result-cases (m s).0) [
    | inl (e, q) ↦ inl (e, (m s).1, ap (λ r. (r, (m s).1)) q, rw q refl)
    | inr (a, q) ↦ inr (a, (m s).1, ap (λ r. (r, (m s).1)) q, rw q refl)
  ]

module _ {S A : Type 0} where
  -- A loop over a list.
  abbrev pub for_each : List A → (A → Eff S (Unit {0})) → Eff S (Unit {0})
  for_each [] body s = (ok tt, s)
  for_each (x ∷ xs) body s = (body x >> for_each xs body) s

  -- A loop whose rounds leave the state alone.
  pub for_each-same {κ} :
      (P : A → Type κ) (body : A → Eff S (Unit {0})) (s : S) (xs : List A)
      → ((x : A) → P x → body x s ≡ (ok tt, s))
      → All P xs
      → for_each xs body s ≡ (ok tt, s)
  for_each-same P body s [] f w = refl
  for_each-same P body s (x ∷ xs) f (p, w) = rw (f x p) (for_each-same P body s xs f w)
