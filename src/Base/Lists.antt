-- ===== src/Base/Lists.antt =====
-- Lists measured and indexed by native numbers, under the library's names: the C arrays.
use Prim.Native.Nat.{ℕ, zero, suc, ◌+◌, ◌<◌}
use mathlib.Core.Path.{◌≡◌, refl, ap}
use mathlib.Core.Logic.{◌≢◌}
use mathlib.Core.List.{List, [], ◌∷◌, ◌++◌, map}
use mathlib.Core.Option.{Option, none, some}
use native.Mathlib.Omega.{arith}
use operating_system_se.Base.Tests.{◌==◌, if◌then◌else◌}

module _ {ℓ} {A : Type ℓ} where
  abbrev pub length : List A → ℕ
  length [] = 0
  length (x ∷ xs) = suc (length xs)

  abbrev pub get_elem? : List A → ℕ → Option A
  get_elem? [] i = none
  get_elem? (x ∷ xs) zero = some x
  get_elem? (x ∷ xs) (suc i) = get_elem? xs i

  abbrev pub get_or : List A → ℕ → A → A
  get_or [] i d = d
  get_or (x ∷ xs) zero d = x
  get_or (x ∷ xs) (suc i) d = get_or xs i d

  -- A write out of bounds changes nothing.
  abbrev pub set : List A → ℕ → A → List A
  set [] i v = []
  set (x ∷ xs) zero v = v ∷ xs
  set (x ∷ xs) (suc i) v = x ∷ set xs i v

  abbrev pub take : ℕ → List A → List A
  take zero xs = []
  take (suc n) [] = []
  take (suc n) (x ∷ xs) = x ∷ take n xs

  abbrev pub drop : ℕ → List A → List A
  drop zero xs = xs
  drop (suc n) [] = []
  drop (suc n) (x ∷ xs) = drop n xs

  abbrev pub replicate : ℕ → A → List A
  replicate zero a = []
  replicate (suc n) a = a ∷ replicate n a

-- A predicate by recursion computes to tuples, which the tactics read and build.
abbrev pub All {ℓ κ} : {A : Type ℓ} → (A → Type κ) → List A → Type κ
All P [] = Unit
All P (x ∷ xs) = P x × All P xs

module _ {ℓ} {A : Type ℓ} where
  pub length-append : (xs ys : List A) → length (xs ++ ys) ≡ length xs + length ys
  length-append [] ys = omega arith
  length-append (x ∷ xs) ys = omega (arith, length-append xs ys)

  pub length-set : (xs : List A) (i : ℕ) (v : A) → length (set xs i v) ≡ length xs
  length-set [] i v = refl
  length-set (x ∷ xs) zero v = refl
  length-set (x ∷ xs) (suc i) v = ap suc (length-set xs i v)

  pub get_elem?-set_self :
      (xs : List A) (i : ℕ) (v : A) → i < length xs → get_elem? (set xs i v) i ≡ some v
  get_elem?-set_self [] i v h = elim h [ ]
  get_elem?-set_self (x ∷ xs) zero v h = refl
  get_elem?-set_self (x ∷ xs) (suc i) v h = get_elem?-set_self xs i v (omega arith)

  pub get_elem?-set_ne :
      (xs : List A) {i j : ℕ} (v : A) → i ≢ j → get_elem? (set xs i v) j ≡ get_elem? xs j
  get_elem?-set_ne [] v h = refl
  get_elem?-set_ne (x ∷ xs) {i = zero} {j = zero} v h = absurd (h refl)
  get_elem?-set_ne (x ∷ xs) {i = zero} {j = suc j} v h = refl
  get_elem?-set_ne (x ∷ xs) {i = suc i} {j = zero} v h = refl
  get_elem?-set_ne (x ∷ xs) {i = suc i} {j = suc j} v h = get_elem?-set_ne xs v (λ e. h (ap suc e))

  -- An index that holds an element is in bounds.
  pub lt_of_get_elem? : (xs : List A) (i : ℕ) (v : A) → get_elem? xs i ≡ some v → i < length xs
  lt_of_get_elem? [] i v h = absurd (cc)
  lt_of_get_elem? (x ∷ xs) zero v h = omega arith
  lt_of_get_elem? (x ∷ xs) (suc i) v h = omega (arith, lt_of_get_elem? xs i v h)

  pub All-get {κ} :
      (P : A → Type κ) (xs : List A) (i : ℕ) (v : A) → All P xs → get_elem? xs i ≡ some v → P v
  All-get P [] i v a h = absurd (cc)
  All-get P (x ∷ xs) zero v a h = rw (← some_inj h) a.0
    where
      some_inj : {p q : A} → some p ≡ some q → p ≡ q
      some_inj e = cc
  All-get P (x ∷ xs) (suc i) v a h = All-get P xs i v a.1 h

  pub All-set {κ} :
      (P : A → Type κ) (xs : List A) (i : ℕ) (v : A) → All P xs → P v → All P (set xs i v)
  All-set P [] i v a h = tt
  All-set P (x ∷ xs) zero v a h = (h, a.1)
  All-set P (x ∷ xs) (suc i) v a h = (a.0, All-set P xs i v a.1 h)

  pub All-map {κ} :
      (P : A → Type κ) (f : A → A) (xs : List A)
      → ((x : A) → P x → P (f x))
      → All P xs
      → All P (map f xs)
  All-map P f [] k a = tt
  All-map P f (x ∷ xs) k a = (k x a.0, All-map P f xs k a.1)

  pub length-map : (f : A → A) (xs : List A) → length (map f xs) ≡ length xs
  length-map f [] = refl
  length-map f (x ∷ xs) = ap suc (length-map f xs)

  -- f applied to the element at index `i`.
  abbrev pub modify : (A → A) → List A → ℕ → List A
  modify f [] i = []
  modify f (x ∷ xs) zero = f x ∷ xs
  modify f (x ∷ xs) (suc i) = x ∷ modify f xs i

  pub length-modify : (f : A → A) (xs : List A) (i : ℕ) → length (modify f xs i) ≡ length xs
  length-modify f [] i = refl
  length-modify f (x ∷ xs) zero = refl
  length-modify f (x ∷ xs) (suc i) = ap suc (length-modify f xs i)

  pub get_elem?-modify_self :
      (f : A → A) (xs : List A) (i : ℕ) (v : A)
      → get_elem? xs i ≡ some v
      → get_elem? (modify f xs i) i ≡ some (f v)
  get_elem?-modify_self f [] i v h = cc
  get_elem?-modify_self f (x ∷ xs) zero v h = ap (λ o. some (f (from_some o))) h
    where
      from_some : Option A → A
      from_some none = x
      from_some (some a) = a
  get_elem?-modify_self f (x ∷ xs) (suc i) v h = get_elem?-modify_self f xs i v h

  pub get_elem?-modify_ne :
      (f : A → A) (xs : List A) {i j : ℕ} → i ≢ j → get_elem? (modify f xs i) j ≡ get_elem? xs j
  get_elem?-modify_ne f [] h = refl
  get_elem?-modify_ne f (x ∷ xs) {i = zero} {j = zero} h = absurd (h refl)
  get_elem?-modify_ne f (x ∷ xs) {i = zero} {j = suc j} h = refl
  get_elem?-modify_ne f (x ∷ xs) {i = suc i} {j = zero} h = refl
  get_elem?-modify_ne f (x ∷ xs) {i = suc i} {j = suc j} h =
      get_elem?-modify_ne f xs (λ e. h (ap suc e))

  pub All-modify {κ} :
      (P : A → Type κ) (f : A → A) (xs : List A) (i : ℕ)
      → ((x : A) → P x → P (f x))
      → All P xs
      → All P (modify f xs i)
  All-modify P f [] i k a = tt
  All-modify P f (x ∷ xs) zero k a = (k x a.0, a.1)
  All-modify P f (x ∷ xs) (suc i) k a = (a.0, All-modify P f xs i k a.1)

  pub get_elem?-map :
      (f : A → A) (xs : List A) (i : ℕ) (v : A)
      → get_elem? xs i ≡ some v
      → get_elem? (map f xs) i ≡ some (f v)
  get_elem?-map f [] i v h = cc
  get_elem?-map f (x ∷ xs) zero v h = get_elem?-modify_self f (x ∷ xs) 0 v h
  get_elem?-map f (x ∷ xs) (suc i) v h = get_elem?-map f xs i v h

  pub get_elem?-set :
      (xs : List A) (i j : ℕ) (v : A)
      → i < length xs
      → get_elem? (set xs i v) j ≡ (if i == j then some v else get_elem? xs j)
  get_elem?-set [] i j v h = absurd (omega arith)
  get_elem?-set (x ∷ xs) zero zero v h = refl
  get_elem?-set (x ∷ xs) zero (suc j) v h = ground arith
  get_elem?-set (x ∷ xs) (suc i) zero v h = ground arith
  get_elem?-set (x ∷ xs) (suc i) (suc j) v h = ground (arith, get_elem?-set xs i j v)
