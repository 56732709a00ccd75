-- ===== src/Base/Lists.antt =====
-- Lists measured by native numbers, and the list operations that a table query compiles to.
use Prim.Native.Nat.{ℕ, suc, ◌+◌, ◌≤◌}
use mathlib.Core.Path.{◌≡◌, refl, ap, ◌∙◌}
use mathlib.Core.Logic.{◌⊎◌, inl, inr}
use mathlib.Core.Bool.{Bool, true, false, ◌||◌, ◌&&◌}
use mathlib.Core.List.{List, [], ◌∷◌, ◌++◌}
use mathlib.Core.Option.{Option, none, some}
use native.Mathlib.Omega.{arith}
use restiq_backend.Base.Tests.{if◌then◌else◌, Bool-cases, or_else, is_some}

-- The type with no element, at every level.
pub data Nothing {ℓ} : Type ℓ where

module _ {ℓ} {A : Type ℓ} where
  abbrev pub length : List A → ℕ
  length [] = 0
  length (x ∷ xs) = suc (length xs)

  -- `findFirst`, in the order of the list.
  abbrev pub find : (A → Bool) → List A → Option A
  find p [] = none
  find p (x ∷ xs) = if p x then some x else find p xs

  -- `findMany`
  abbrev pub select : (A → Bool) → List A → List A
  select p [] = []
  select p (x ∷ xs) = let rest = select p xs in if p x then x ∷ rest else rest

  -- `count`
  abbrev pub count_where : (A → Bool) → List A → ℕ
  count_where p [] = 0
  count_where p (x ∷ xs) = let rest = count_where p xs in if p x then suc rest else rest

  -- `updateMany`
  abbrev pub update_where : (A → Bool) → (A → A) → List A → List A
  update_where p f [] = []
  update_where p f (x ∷ xs) = (if p x then f x else x) ∷ update_where p f xs

  abbrev pub any : (A → Bool) → List A → Bool
  any p [] = false
  any p (x ∷ xs) = p x || any p xs

  abbrev pub all : (A → Bool) → List A → Bool
  all p [] = true
  all p (x ∷ xs) = p x && all p xs

  abbrev pub All {κ} : (A → Type κ) → List A → Type κ
  All P [] = Unit
  All P (x ∷ xs) = P x × All P xs

  -- `a` is an entry of the list.
  abbrev pub In : A → List A → Type ℓ
  In a [] = Nothing
  In a (x ∷ xs) = (a ≡ x) ⊎ In a xs

  pub length-append : (xs ys : List A) → length (xs ++ ys) ≡ length xs + length ys
  length-append [] ys = omega arith
  length-append (x ∷ xs) ys = omega (arith, length-append xs ys)

  -- What `find` returns passes the test.
  pub find-passes : (p : A → Bool) (xs : List A) (a : A) → find p xs ≡ some a → p a ≡ true
  find-passes p [] a h = cc
  find-passes p (x ∷ xs) a h = ground (arith, find-passes p xs a)

  pub count_where-le : (p : A → Bool) (xs : List A) → count_where p xs ≤ length xs
  count_where-le p [] = omega arith
  count_where-le p (x ∷ xs) = ground (arith, count_where-le p xs)

  pub length-update_where :
      (p : A → Bool) (f : A → A) (xs : List A) → length (update_where p f xs) ≡ length xs
  length-update_where p f [] = refl
  length-update_where p f (x ∷ xs) = ap suc (length-update_where p f xs)

  -- An update that keeps the tested columns finds the updated row.
  pub find-update_where :
      (p : A → Bool) (f : A → A) (xs : List A) (a : A)
      → ((x : A) → p (f x) ≡ p x)
      → find p xs ≡ some a
      → find p (update_where p f xs) ≡ some (f a)
  find-update_where p f [] a keep h = cc
  find-update_where p f (x ∷ xs) a keep h = ground (arith, keep x, find-update_where p f xs a keep)

  pub All-weaken {κ ι} :
      (P : A → Type κ) (Q : A → Type ι) (xs : List A) → ((x : A) → P x → Q x) → All P xs → All Q xs
  All-weaken P Q [] f h = tt
  All-weaken P Q (x ∷ xs) f (p, h) = (f x p, All-weaken P Q xs f h)

  pub find-In : (p : A → Bool) (xs : List A) (a : A) → find p xs ≡ some a → In a xs
  find-In p [] a h = cc
  find-In p (x ∷ xs) a h = ground (arith, find-In p xs a)

  pub All-append : (P : A → Type 0) (xs ys : List A) → All P xs → All P ys → All P (xs ++ ys)
  All-append P [] ys h k = k
  All-append P (x ∷ xs) ys (p, h) k = (p, All-append P xs ys h k)

  -- A search by one test after an update by another, which keeps what the search reads.
  pub find-update_other :
      (p q : A → Bool) (f : A → A) (xs : List A) (a : A)
      → ((x : A) → p (f x) ≡ p x)
      → find p xs ≡ some a
      → find p (update_where q f xs) ≡ some (if q a then f a else a)
  find-update_other p q f [] a keep h = cc
  find-update_other p q f (x ∷ xs) a keep h =
      ground (arith, keep x, find-update_other p q f xs a keep)

  -- An update that turns the test off leaves no row that passes it.
  pub count-update_off :
      (p : A → Bool) (f : A → A) (xs : List A)
      → ((x : A) → p (f x) ≡ false)
      → count_where p (update_where p f xs) ≡ 0
  count-update_off p f [] off = refl
  count-update_off p f (x ∷ xs) off = ground (arith, off x, count-update_off p f xs off)

  pub find-append :
      (p : A → Bool) (xs : List A) (x a : A) → find p xs ≡ some a → find p (xs ++ x ∷ []) ≡ some a
  find-append p [] x a h = cc
  find-append p (y ∷ ys) x a h = ground (arith, find-append p ys x a)

  pub count-append :
      (p : A → Bool) (xs : List A) (x : A)
      → count_where p (xs ++ x ∷ []) ≡ (if p x then suc (count_where p xs) else count_where p xs)
  count-append p [] x = ground arith
  count-append p (y ∷ ys) x = ground (arith, count-append p ys x)

  pub count-fewer :
      (p q : A → Bool) (f : A → A) (xs : List A)
      → ((x : A) → p (f x) ≡ false)
      → count_where p (update_where q f xs) ≤ count_where p xs
  count-fewer p q f [] off = omega arith
  count-fewer p q f (x ∷ xs) off = ground (arith, off x, count-fewer p q f xs off)

  -- No row passes the test.
  pub any-count : (p : A → Bool) (xs : List A) → any p xs ≡ false → count_where p xs ≡ 0
  any-count p [] h = refl
  any-count p (x ∷ xs) h = ground (arith, any-count p xs)

  -- Switching off the row that was found leaves fewer.
  pub count-drop :
      (p q : A → Bool) (f : A → A) (xs : List A) (a : A)
      → find p xs ≡ some a
      → q a ≡ true
      → ((x : A) → p (f x) ≡ false)
      → suc (count_where p (update_where q f xs)) ≤ count_where p xs
  count-drop p q f [] a found hit off = cc
  count-drop p q f (x ∷ xs) a found hit off = elim (Bool-cases (p x)) [
    | inl hits ↦
        let same : x ≡ a = ap (λ o. or_else o a) (rw hits at found) in
        let on : q x ≡ true = ap q same ∙ hit in ground (arith, off x, count-fewer p q f xs off)
    | inr misses ↦
        let rest = count-drop p q f xs a (rw misses at found) hit off in ground (arith, off x)
  ]

  pub find-count : (p : A → Bool) (xs : List A) → is_some (find p xs) ≡ false → count_where p xs ≡ 0
  find-count p [] h = refl
  find-count p (x ∷ xs) h = ground (arith, find-count p xs)
