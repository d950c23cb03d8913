-- ===== src/Prelude/Text.antt =====
-- What the sources do with whole texts: truthiness, membership, joining, and `str` of a number.
use Prim.Native.Nat.{ℕ, zero, suc, ◌/◌, ◌%◌, Ordering}
use Prim.Native.String.{String, ◌++◌, compare, slice, len}
use mathlib.Core.Path.{◌≡◌, refl}
use mathlib.Core.Bool.{Bool, true, false, ◌||◌, not}
use mathlib.Core.List.{List, [], ◌∷◌}
use text.Mathlib.Text.{◌==◌, find?, starts_with}
use text.Mathlib.TextEquality.{eq_iff}
use text.Mathlib.TextPositions.{starts_with-append}
use native.Mathlib.Omega.{arith}
use mathlib.Core.Logic.{inl, inr}
use mathlib.Core.Path.{ap, sym, ◌∙◌}
use notary_platform.Prelude.Tests.{if◌then◌else◌, nat_eq, is_some, Bool-cases}

infixr 65 ◌<>◌
-- Concatenation of texts, as in an f-string.
abbrev pub ◌<>◌ : String → String → String
s <> t = s ++ t

-- `bool(s)` of a text
abbrev pub nonblank : String → Bool
nonblank s = not (s == "")

-- a text that begins with a text that is not blank
pub nonblank-append : (s t : String) → starts_with "" s ≡ false → nonblank (s <> t) ≡ true
nonblank-append s t given = elim (Bool-cases ((s <> t) == "")) [
  | inl blank ↦ absurd (
      let none_left = ap (λ u. starts_with u s) ((eq_iff _ _).0 blank) in
      let marked = starts_with-append s t in ground arith)
  | inr other ↦ rw other
]

-- texts with different beginnings of one length differ
pub apart_append :
    (a b s t : String) → len a ≡ len b → (a == b) ≡ false → ((a <> s) == (b <> t)) ≡ false
apart_append a b s t same differ = elim (Bool-cases ((a <> s) == (b <> t))) [
  | inr other ↦ other
  | inl equal ↦ absurd (
      let starts : slice (a <> s) 0 (len a) ≡ a = (eq_iff _ _).0 (starts_with-append a s) in
      let starts' : slice (b <> t) 0 (len b) ≡ b = (eq_iff _ _).0 (starts_with-append b t) in
      let one : a ≡ b =
        sym starts
        ∙ ap (λ u. slice u 0 (len a)) ((eq_iff _ _).0 equal)
        ∙ ap (slice (b <> t) 0) same
        ∙ starts' in
      let no : (a == b) ≡ true = (eq_iff a b).1 one in ground arith)
]

-- `x in xs`
unfoldable pub elem : String → List String → Bool
elem x [] = false
elem x (y ∷ ys) = x == y || elem x ys

-- `sep.join(xs)`
unfoldable pub join : String → List String → String
join sep [] = ""
join sep (x ∷ []) = x
join sep (x ∷ y ∷ ys) = x <> sep <> join sep (y ∷ ys)

-- `t in s`: `t` is a substring of `s`
unfoldable pub is_in : String → String → Bool
is_in t s = is_some (find? s t)

digit : ℕ → String
digit zero = "0"
digit (suc zero) = "1"
digit (suc (suc zero)) = "2"
digit (suc (suc (suc zero))) = "3"
digit (suc (suc (suc (suc zero)))) = "4"
digit (suc (suc (suc (suc (suc zero))))) = "5"
digit (suc (suc (suc (suc (suc (suc zero)))))) = "6"
digit (suc (suc (suc (suc (suc (suc (suc zero))))))) = "7"
digit (suc (suc (suc (suc (suc (suc (suc (suc zero)))))))) = "8"
digit _ = "9"

show_from : ℕ → ℕ → String → String
show_from zero n acc = acc
show_from (suc fuel) n acc =
    let now = digit (n % 10) <> acc in
    let rest = show_from fuel (n / 10) now in if nat_eq (n / 10) 0 then now else rest

-- `str(n)`; a number has at most as many digits as it has units, so this fuel is enough.
unfoldable pub show : ℕ → String
unfolding digit show_from
show n = show_from (suc n) n ""

show_test : show 10075 ≡ "10075"
unfolding show
show_test = refl

-- `a <= b` of texts: by code points, which is the order of their bytes.
unfoldable pub text_le : String → String → Bool
text_le a b = elim (compare a b) [ Ordering.gt ↦ false | _ ↦ true ]

module _ {ℓ} {A : Type ℓ} (key : A → String) where
  insert_by : A → List A → List A
  insert_by x [] = x ∷ []
  insert_by x (y ∷ ys) =
      let rest = insert_by x ys in if text_le (key x) (key y) then x ∷ y ∷ ys else y ∷ rest

  -- `sorted(xs, key=key)`, which is stable
  unfoldable pub sort_by : List A → List A
  unfolding insert_by text_le
  sort_by [] = []
  sort_by (x ∷ xs) = insert_by x (sort_by xs)
