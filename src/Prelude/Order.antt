-- ===== src/Prelude/Order.antt =====
-- Python's orders on texts and integers, `sorted`, and membership that keeps the element.
use Prim.Native.Nat.{ℕ, ◌+◌, ◌-◌}
use Prim.Native.String.{String}
use mathlib.Core.Path.{◌≡◌, refl, ap}
use mathlib.Core.Logic.{◌⊎◌, inl, inr}
use mathlib.Core.Bool.{Bool, true, false, ◌&&◌, ◌||◌}
use mathlib.Core.List.{List, [], ◌∷◌, ◌++◌, map, Perm}
use mathlib.Core.List.Perm
use native.Mathlib.Omega.{arith}
use nguyen_dinh_b.Prelude.Tests.{ltb, leb, eqb, if◌then◌else◌, Bool-cases}
use nguyen_dinh_b.Prelude.Lists.{any, keep}
use nguyen_dinh_b.Prelude.Text.{codes}
use nguyen_dinh_b.Prelude.Int.{ℤ, pos, negsuc}

-- `s <= t`, by code points
unfoldable pub codes_leb : List ℕ → List ℕ → Bool
codes_leb [] t = true
codes_leb (c ∷ s) [] = false
codes_leb (c ∷ s) (d ∷ t) = ltb c d || (eqb c d && codes_leb s t)

unfoldable pub str_leb : String → String → Bool
unfolding codes_leb
str_leb s t = codes_leb (codes s) (codes t)

abbrev pub int_leb : ℤ → ℤ → Bool
int_leb (pos a) (pos b) = leb a b
int_leb (pos a) (negsuc b) = false
int_leb (negsuc a) (pos b) = true
int_leb (negsuc a) (negsuc b) = leb b a

abbrev pub int_eqb : ℤ → ℤ → Bool
int_eqb (pos a) (pos b) = eqb a b
int_eqb (negsuc a) (negsuc b) = eqb a b
int_eqb _ _ = false

-- `abs(a - b)`
abbrev pub distance : ℤ → ℤ → ℕ
distance (pos a) (pos b) = (a - b) + (b - a)
distance (pos a) (negsuc b) = a + b + 1
distance (negsuc a) (pos b) = a + b + 1
distance (negsuc a) (negsuc b) = (a - b) + (b - a)

module _ {A : Type 0} (le : A → A → Bool) where
  insert_sorted : A → List A → List A
  insert_sorted x [] = x ∷ []
  insert_sorted x (y ∷ ys) = if le x y then x ∷ y ∷ ys else y ∷ insert_sorted x ys

  -- `sorted(xs)`: stable, so that it does not matter by which algorithm.
  unfoldable pub sort : List A → List A
  unfolding insert_sorted
  sort [] = []
  sort (x ∷ xs) = insert_sorted x (sort xs)

  insert_sorted-perm : (x : A) (xs : List A) → Perm (insert_sorted x xs) (x ∷ xs)
  unfolding insert_sorted
  insert_sorted-perm x [] = Perm.refl (x ∷ [])
  insert_sorted-perm x (y ∷ ys) = elim (Bool-cases (le x y)) [
    | inl e ↦ rw e (Perm.refl (x ∷ y ∷ ys))
    | inr e ↦ rw e (Perm.trans (Perm.cons y (insert_sorted-perm x ys)) (Perm.swap x y ys))
  ]

  pub sort-perm : (xs : List A) → Perm (sort xs) xs
  unfolding sort
  sort-perm [] = Perm.refl []
  sort-perm (x ∷ xs) = Perm.trans (insert_sorted-perm x (sort xs)) (Perm.cons x (sort-perm xs))

  -- Neighbours are in order.
  abbrev pub IsSorted : List A → Type 0
  IsSorted [] = Unit
  IsSorted (x ∷ []) = Unit
  IsSorted (x ∷ y ∷ ys) = (le x y ≡ true) × IsSorted (y ∷ ys)

  module _ (total : (x y : A) → le x y ≡ false → le y x ≡ true) where
    insert_sorted-IsSorted : (x : A) (xs : List A) → IsSorted xs → IsSorted (insert_sorted x xs)
    unfolding insert_sorted
    insert_sorted-IsSorted x [] h = tt
    insert_sorted-IsSorted x (y ∷ []) h = elim (Bool-cases (le x y)) [
      | inl e ↦ rw e (e, tt)
      | inr e ↦ rw e (total x y e, tt)
    ]
    insert_sorted-IsSorted x (y ∷ z ∷ zs) (p, h) =
        let rest = insert_sorted-IsSorted x (z ∷ zs) h in
        elim (Bool-cases (le x y)) [
          | inl e ↦ rw e (e, (p, h))
          | inr e ↦ rw e (elim (Bool-cases (le x z)) [
            | inl q ↦ let r = rw q at rest in rw q (total x y e, r)
            | inr q ↦ let r = rw q at rest in rw q (p, r)
          ])
        ]

    pub sort-IsSorted : (xs : List A) → IsSorted (sort xs)
    unfolding sort
    sort-IsSorted [] = tt
    sort-IsSorted (x ∷ xs) = insert_sorted-IsSorted x (sort xs) (sort-IsSorted xs)

pub codes_leb_total : (s t : List ℕ) → codes_leb s t ≡ false → codes_leb t s ≡ true
unfolding codes_leb
codes_leb_total [] t h = cc
codes_leb_total (c ∷ s) [] h = refl
codes_leb_total (c ∷ s) (d ∷ t) h = ground (arith, codes_leb_total s t)

module _ {A : Type 0} where
  -- `a` stands in the list.
  abbrev pub In : A → List A → Type 0
  In a [] = ⊥
  In a (x ∷ xs) = (x ≡ a) ⊎ In a xs

  pub In-any : (p : A → Bool) (a : A) (xs : List A) → p a ≡ true → In a xs → any p xs ≡ true
  In-any p a [] h e = absurd e
  In-any p a (x ∷ xs) h (inl e) = rw (e, h)
  In-any p a (x ∷ xs) h (inr e) = ground (arith, In-any p a xs)

  pub any-In : (p : A → Bool) (xs : List A) → any p xs ≡ true → (a : A) × In a xs × (p a ≡ true)
  any-In p [] h = absurd (cc h)
  any-In p (x ∷ xs) h = elim (Bool-cases (p x)) [
    | inl e ↦ (x, inl refl, e)
    | inr e ↦ let (a, i, q) = any-In p xs (rw e at h) in (a, inr i, q)
  ]

  pub In-keep : (p : A → Bool) (a : A) (xs : List A) → p a ≡ true → In a xs → In a (keep p xs)
  unfolding keep
  In-keep p a [] h e = absurd e
  In-keep p a (x ∷ xs) h (inl e) = rw (e, h) (inl refl)
  In-keep p a (x ∷ xs) h (inr e) = elim (Bool-cases (p x)) [
    | inl t ↦ rw t (inr (In-keep p a xs h e))
    | inr f ↦ rw f (In-keep p a xs h e)
  ]

  pub keep-In : (p : A → Bool) (a : A) (xs : List A) → In a (keep p xs) → In a xs × (p a ≡ true)
  unfolding keep
  keep-In p a [] e = absurd e
  keep-In p a (x ∷ xs) e = elim (Bool-cases (p x)) [
    | inl t ↦ elim (rw t at e) [
      | inl q ↦ (inl q, rw (← q) t)
      | inr i ↦ let (j, q) = keep-In p a xs i in (inr j, q)
    ]
    | inr f ↦ let (j, q) = keep-In p a xs (rw f at e) in (inr j, q)
  ]

  pub In-append_left : (a : A) (xs ys : List A) → In a xs → In a (xs ++ ys)
  In-append_left a [] ys e = absurd e
  In-append_left a (x ∷ xs) ys (inl e) = inl e
  In-append_left a (x ∷ xs) ys (inr e) = inr (In-append_left a xs ys e)

  pub In-append_right : (a : A) (xs ys : List A) → In a ys → In a (xs ++ ys)
  In-append_right a [] ys e = e
  In-append_right a (x ∷ xs) ys e = inr (In-append_right a xs ys e)

  pub append-In : (a : A) (xs ys : List A) → In a (xs ++ ys) → In a xs ⊎ In a ys
  append-In a [] ys e = inr e
  append-In a (x ∷ xs) ys (inl e) = inl (inl e)
  append-In a (x ∷ xs) ys (inr e) = elim (append-In a xs ys e) [
    | inl i ↦ inl (inr i)
    | inr i ↦ inr i
  ]

module _ {A : Type 0} (le : A → A → Bool) where
  In-insert : (a x : A) (xs : List A) → In a (x ∷ xs) → In a (insert_sorted le x xs)
  unfolding insert_sorted
  In-insert a x [] i = i
  In-insert a x (y ∷ ys) i = elim (Bool-cases (le x y)) [
    | inl t ↦ rw t i
    | inr f ↦ rw f (elim i [
      | inl e ↦ inr (In-insert a x ys (inl e))
      | inr (inl e) ↦ inl e
      | inr (inr j) ↦ inr (In-insert a x ys (inr j))
    ])
  ]

  insert-In : (a x : A) (xs : List A) → In a (insert_sorted le x xs) → In a (x ∷ xs)
  unfolding insert_sorted
  insert-In a x [] i = i
  insert-In a x (y ∷ ys) i = elim (Bool-cases (le x y)) [
    | inl t ↦ rw t at i
    | inr f ↦ elim (rw f at i) [
      | inl e ↦ inr (inl e)
      | inr j ↦ elim (insert-In a x ys j) [ inl e ↦ inl e | inr k ↦ inr (inr k) ]
    ]
  ]

  pub In-sort : (a : A) (xs : List A) → In a xs → In a (sort le xs)
  unfolding sort
  In-sort a [] i = i
  In-sort a (x ∷ xs) (inl e) = In-insert a x (sort le xs) (inl e)
  In-sort a (x ∷ xs) (inr i) = In-insert a x (sort le xs) (inr (In-sort a xs i))

  pub sort-In : (a : A) (xs : List A) → In a (sort le xs) → In a xs
  unfolding sort
  sort-In a [] i = i
  sort-In a (x ∷ xs) i = elim (insert-In a x (sort le xs) i) [
    | inl e ↦ inl e
    | inr j ↦ inr (sort-In a xs j)
  ]

module _ {A B : Type 0} (f : A → B) where
  pub In-map : (a : A) (xs : List A) → In a xs → In (f a) (map f xs)
  In-map a [] e = absurd e
  In-map a (x ∷ xs) (inl e) = inl (ap f e)
  In-map a (x ∷ xs) (inr e) = inr (In-map a xs e)

  pub map-In : (b : B) (xs : List A) → In b (map f xs) → (a : A) × In a xs × (f a ≡ b)
  map-In b [] e = absurd e
  map-In b (x ∷ xs) (inl e) = (x, inl refl, e)
  map-In b (x ∷ xs) (inr e) = let (a, i, q) = map-In b xs e in (a, inr i, q)
