-- ===== src/Cni/Within.antt =====
-- Actions that move the state only along a relation that is reflexive and transitive.
use village_net.Common.{◌≡◌, refl, Bool, true, false, if◌then◌else◌, List, [], ◌∷◌, Result, ok, err}
use village_net.Cni.Effects.{Error, Eff, when, on_error, fail_after, bind_result, for_each, ◌>>=◌}

module _ {S : Type 0} (R : S → S → Type 0) where
  abbrev pub Within : {A : Type 0} → Eff S A → Type 0
  Within m = (s : S) → R s (m s).1

module _ {S : Type 0} (R : S → S → Type 0) (R-refl : (s : S) → R s s)
    (R-trans : (s s1 s2 : S) → R s s1 → R s1 s2 → R s s2) where
  result-Within :
      {A B : Type 0}
      → (r : Result Error A) (f : A → Eff S B) → ((a : A) → Within R (f a))
      → Within R (bind_result r f)
  result-Within (ok a) f w s = w a s
  result-Within (err e) f w s = R-refl s

  pub bind-Within :
      {A B : Type 0}
      → (m : Eff S A) (f : A → Eff S B) → Within R m
      → ((a : A) → Within R (f a))
      → Within R (m >>= f)
  bind-Within m f v w s =
      R-trans s (m s).1 ((m >>= f) s).1 (v s) (result-Within (m s).0 f w (m s).1)

  pub for_each-Within :
      {A : Type 0}
      → (xs : List A) (body : A → Eff S (Unit {0})) → ((a : A) → Within R (body a))
      → Within R (for_each xs body)
  for_each-Within [] body w s = R-refl s
  for_each-Within (x ∷ xs) body w s =
      bind-Within (body x) (λ u. for_each xs body) (w x) (λ u. for_each-Within xs body w) s

  fail-Within :
      {A : Type 0}
      → (r : Result Error A) (clean : Eff S (Unit {0})) → Within R clean
      → Within R (fail_after r clean)
  fail-Within (ok a) clean w s = R-refl s
  fail-Within (err e) clean w s = w s

  pub on_error-Within :
      {A : Type 0}
      → (m : Eff S A) (clean : Eff S (Unit {0})) → Within R m
      → Within R clean
      → Within R (on_error m clean)
  on_error-Within m clean v w s =
      R-trans s (m s).1 (on_error m clean s).1 (v s) (fail-Within (m s).0 clean w (m s).1)

  pub when-Within :
      (b : Bool) (m : Eff S (Unit {0})) → (b ≡ true → Within R m) → Within R (when b m)
  when-Within true m w = w refl
  when-Within false m w = R-refl

  pub if-Within :
      {A : Type 0}
      → (b : Bool) (m n : Eff S A) → Within R m
      → Within R n
      → Within R (if b then m else n)
  if-Within true m n v w = v
  if-Within false m n v w = w

module _ {S A B : Type 0} (P : Result Error B → S → Type 0) (f : A → Eff S B) where
  result-ends :
      (r : Result Error A) (s : S)
      → ((e : Error) → r ≡ err e → P (err e) s)
      → ((a : A) → r ≡ ok a → P (f a s).0 (f a s).1)
      → P (bind_result r f s).0 (bind_result r f s).1
  result-ends (ok a) s v w = w a refl
  result-ends (err e) s v w = v e refl

  -- What holds behind each end of a sequence holds behind it.
  pub bind-ends :
      (m : Eff S A) (s : S)
      → ((e : Error) → (m s).0 ≡ err e → P (err e) (m s).1)
      → ((a : A) → (m s).0 ≡ ok a → P (f a (m s).1).0 (f a (m s).1).1)
      → P ((m >>= f) s).0 ((m >>= f) s).1
  bind-ends m s = result-ends (m s).0 (m s).1
