-- ===== src/Prelude/Lists.antt =====
-- Lists measured by native numbers, and the comprehensions of the sources as functions that run.
use Prim.Native.Nat.{ℕ, zero, suc, ◌+◌, ◌≤◌}
use mathlib.Core.Path.{◌≡◌, refl}
use mathlib.Core.Bool.{Bool, true, false, ◌&&◌, ◌||◌}
use mathlib.Core.Option.{Option, none, some}
use mathlib.Core.List.{List, [], ◌∷◌, ◌++◌}
use mathlib.Core.List.{Mem, mem-cons_self, mem-cons_of_mem}
use native.Mathlib.Omega.{arith}
use notary_platform.Prelude.Tests.{if◌then◌else◌}

module _ {ℓ} {A : Type ℓ} where
  abbrev pub length : List A → ℕ
  length [] = 0
  length (x ∷ xs) = suc (length xs)

  -- `bool(xs)`
  abbrev pub nonempty : List A → Bool
  nonempty [] = false
  nonempty (x ∷ xs) = true

  abbrev pub get_elem? : List A → ℕ → Option A
  get_elem? [] i = none
  get_elem? (x ∷ xs) zero = some x
  get_elem? (x ∷ xs) (suc i) = get_elem? xs i

  abbrev pub first : List A → Option A
  first [] = none
  first (x ∷ xs) = some x

  -- `xs[-1] if xs else None`
  abbrev pub last : List A → Option A
  last [] = none
  last (x ∷ []) = some x
  last (x ∷ y ∷ xs) = last (y ∷ xs)

  abbrev pub All {κ} : (A → Type κ) → List A → Type κ
  All P [] = Unit
  All P (x ∷ xs) = P x × All P xs

module _ {ℓ} {A : Type ℓ} where
  pub All-map {κ μ} :
      {P : A → Type κ} {Q : A → Type μ}
      → ((x : A) → P x → Q x)
      → (xs : List A) → All P xs
      → All Q xs
  All-map f [] h = tt
  All-map f (x ∷ xs) h = (f x h.0, All-map f xs h.1)

  -- every element of a list is a member of it
  pub All-Mem : (xs : List A) → All (λ x. Mem x xs) xs
  All-Mem [] = tt
  All-Mem (x ∷ xs) = (mem-cons_self, All-map (λ y. mem-cons_of_mem x) xs (All-Mem xs))

  pub All-both {κ μ} :
      (P : A → Type κ) (Q : A → Type μ) (xs : List A)
      → All P xs
      → All Q xs
      → All (λ x. P x × Q x) xs
  All-both P Q [] h k = tt
  All-both P Q (x ∷ xs) h k = ((h.0, k.0), All-both P Q xs h.1 k.1)

module _ {ℓ} {A : Type ℓ} (p : A → Bool) where
  -- `[x for x in xs if p(x)]`
  unfoldable pub keep : List A → List A
  keep [] = []
  keep (x ∷ xs) = let rest = keep xs in if p x then x ∷ rest else rest

  -- `any(p(x) for x in xs)`
  unfoldable pub any : List A → Bool
  any [] = false
  any (x ∷ xs) = p x || any xs

  -- `all(p(x) for x in xs)`
  unfoldable pub all : List A → Bool
  all [] = true
  all (x ∷ xs) = p x && all xs

  -- `next((x for x in xs if p(x)), None)`
  unfoldable pub next : List A → Option A
  next [] = none
  next (x ∷ xs) = let rest = next xs in if p x then some x else rest

  pub any-false-keep : (xs : List A) → any xs ≡ false → keep xs ≡ []
  unfolding any keep
  any-false-keep [] h = refl
  any-false-keep (x ∷ xs) h = ground (arith, any-false-keep xs)

  pub any-true-keep : (xs : List A) → any xs ≡ true → nonempty (keep xs) ≡ true
  unfolding any keep
  any-true-keep [] h = ground arith
  any-true-keep (x ∷ xs) h = ground (arith, any-true-keep xs)

  pub next-some : (xs : List A) (x : A) → next xs ≡ some x → p x ≡ true
  unfolding next
  next-some [] x h = ground arith
  next-some (y ∷ xs) x h = ground (arith, next-some xs x)

  pub All-keep : (xs : List A) → All (λ x. p x ≡ true) (keep xs)
  unfolding keep
  All-keep [] = tt
  All-keep (x ∷ xs) = ground (arith, All-keep xs)

  pub keep-append : (xs ys : List A) → keep (xs ++ ys) ≡ keep xs ++ keep ys
  unfolding keep
  keep-append [] ys = refl
  keep-append (x ∷ xs) ys = ground (arith, keep-append xs ys)

  pub keep-All : (xs : List A) → All (λ x. p x ≡ true) xs → keep xs ≡ xs
  unfolding keep
  keep-All [] h = refl
  keep-All (x ∷ xs) h = ground (arith, keep-All xs h.1)

  pub length-keep-le : (xs : List A) → length (keep xs) ≤ length xs
  unfolding keep
  length-keep-le [] = omega arith
  length-keep-le (x ∷ xs) = ground (arith, length-keep-le xs)

module _ {ℓ} {A : Type ℓ} where
  pub length-append : (xs ys : List A) → length (xs ++ ys) ≡ length xs + length ys
  length-append [] ys = omega arith
  length-append (x ∷ xs) ys = omega (arith, length-append xs ys)

  pub nonempty-append : (xs ys : List A) → nonempty (xs ++ ys) ≡ (nonempty xs || nonempty ys)
  nonempty-append [] ys = refl
  nonempty-append (x ∷ xs) ys = refl

  pub All-append {κ} : (P : A → Type κ) (xs ys : List A) → All P xs → All P ys → All P (xs ++ ys)
  All-append P [] ys hx hy = hy
  All-append P (x ∷ xs) ys hx hy = (hx.0, All-append P xs ys hx.1 hy)
