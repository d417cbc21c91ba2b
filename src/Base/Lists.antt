-- ===== src/Base/Lists.antt =====
-- Lists counted by native numbers, and membership and filters by Boolean tests.
use Prim.Native.Nat.{ℕ, zero, suc, ◌+◌}
use mathlib.Core.Path.{◌≡◌, refl}
use mathlib.Core.Logic.{◌⊎◌, inl, inr}
use mathlib.Core.Bool.{Bool, true, false, ◌||◌}
use mathlib.Core.Option.{Option, none, some}
use mathlib.Core.List.{List, [], ◌∷◌, ◌++◌, Memᴰ}
use native.Mathlib.Omega.{arith}
use Prim.Native.String.{String}
use text.Mathlib.Text.{◌==◌}
use edlink_rostering.Base.Tests.{if◌then◌else◌, Bool-cases}

module _ {ℓ} {A : Type ℓ} where
  abbrev pub length : List A → ℕ
  length [] = 0
  length (x ∷ xs) = suc (length xs)

  abbrev pub take : ℕ → List A → List A
  take zero xs = []
  take (suc n) [] = []
  take (suc n) (x ∷ xs) = x ∷ take n xs

  pub length-append : (xs ys : List A) → length (xs ++ ys) ≡ length xs + length ys
  length-append [] ys = omega arith
  length-append (x ∷ xs) ys = omega (arith, length-append xs ys)

  -- The items that pass a test, in order.
  abbrev pub keep : (A → Bool) → List A → List A
  keep p [] = []
  keep p (x ∷ xs) = if p x then x ∷ keep p xs else keep p xs

  abbrev pub count : (A → Bool) → List A → ℕ
  count p [] = 0
  count p (x ∷ xs) = if p x then suc (count p xs) else count p xs

  abbrev pub any : (A → Bool) → List A → Bool
  any p [] = false
  any p (x ∷ xs) = p x || any p xs

  -- The first item that passes a test.
  abbrev pub find : (A → Bool) → List A → Option A
  find p [] = none
  find p (x ∷ xs) = if p x then some x else find p xs

  pub any-append : (p : A → Bool) (xs ys : List A) → any p (xs ++ ys) ≡ (any p xs || any p ys)
  any-append p [] ys = refl
  any-append p (x ∷ xs) ys = ground (arith, any-append p xs ys)

  pub count-append : (p : A → Bool) (xs ys : List A) → count p (xs ++ ys) ≡ count p xs + count p ys
  count-append p [] ys = omega arith
  count-append p (x ∷ xs) ys = ground (arith, count-append p xs ys)

-- `s in xs` for a collection of texts.
abbrev pub mem : String → List String → Bool
mem s [] = false
mem s (x ∷ xs) = s == x || mem s xs

pub mem-append : (s : String) (xs ys : List String) → mem s (xs ++ ys) ≡ (mem s xs || mem s ys)
mem-append s [] ys = refl
mem-append s (x ∷ xs) ys = ground (arith, mem-append s xs ys)

pub List-cases {ℓ} : {A : Type ℓ} (xs : List A) → (xs ≡ []) ⊎ (any (λ x. true) xs ≡ true)
List-cases [] = inl refl
List-cases (x ∷ xs) = inr refl

module _ {ℓ} {A : Type ℓ} where
  -- An item of `keep p xs` is an item of `xs` that passes the test.
  pub keep_mem :
      (p : A → Bool) (xs : List A) {a : A} → Memᴰ a (keep p xs) → Memᴰ a xs × (p a ≡ true)
  keep_mem p [] m = elim m [ ]
  keep_mem p (x ∷ xs) {a} m = elim (Bool-cases (p x)) [
    | inl passes ↦ at_head (keep_mem p xs) passes (rw passes at m)
    | inr fails ↦ let r = keep_mem p xs (rw fails at m) in (Memᴰ.tail r.0, r.1)
  ]
    where
      at_head :
          (Memᴰ a (keep p xs) → Memᴰ a xs × (p a ≡ true))
          → p x ≡ true
          → Memᴰ a (x ∷ keep p xs)
          → Memᴰ a (x ∷ xs) × (p a ≡ true)
      at_head below e (Memᴰ.head here) = (Memᴰ.head here, rw here e)
      at_head below e (Memᴰ.tail there) = let r = below there in (Memᴰ.tail r.0, r.1)

  pub keep-append : (p : A → Bool) (xs ys : List A) → keep p (xs ++ ys) ≡ keep p xs ++ keep p ys
  keep-append p [] ys = refl
  keep-append p (x ∷ xs) ys = ground (arith, keep-append p xs ys)

module _ {ℓ} {A : Type ℓ} {x : A} where
  pub cons_mem :
      {a : A} {xs ys : List A} → (Memᴰ x xs → Memᴰ x ys) → Memᴰ x (a ∷ xs) → Memᴰ x (a ∷ ys)
  cons_mem f (Memᴰ.head here) = Memᴰ.head here
  cons_mem f (Memᴰ.tail there) = Memᴰ.tail (f there)

  pub swap_mem : {a b : A} {xs : List A} → Memᴰ x (a ∷ b ∷ xs) → Memᴰ x (b ∷ a ∷ xs)
  swap_mem (Memᴰ.head here) = Memᴰ.tail (Memᴰ.head here)
  swap_mem (Memᴰ.tail (Memᴰ.head here)) = Memᴰ.head here
  swap_mem (Memᴰ.tail (Memᴰ.tail there)) = Memᴰ.tail (Memᴰ.tail there)
