-- ===== src/Prelude/Sort.antt =====
-- `order_by`: a stable sort by a test that says which row goes first, and the rows after an offset.
use balance_tracker.Prelude.Tests.{if◌then◌else◌, Bool-cases}
use balance_tracker.Prelude.Lists.{length, take}
use Prim.Native.Nat.{ℕ, zero, suc, ◌-◌}
use mathlib.Core.Path.{◌≡◌, refl, ◌∙◌, ap}
use mathlib.Core.Logic.{inl, inr}
use mathlib.Core.Bool.{Bool}
use mathlib.Core.List.{List, [], ◌∷◌, Memᴰ}
use native.Mathlib.Omega.{arith}

module _ {ℓ} {A : Type ℓ} (first : A → A → Bool) where
  abbrev pub insert_by : A → List A → List A
  insert_by a [] = a ∷ []
  insert_by a (x ∷ xs) = let rest = insert_by a xs in if first x a then x ∷ rest else a ∷ x ∷ xs

  abbrev pub sort_by : List A → List A
  sort_by [] = []
  sort_by (x ∷ xs) = insert_by x (sort_by xs)

  length-insert_by : (a : A) (xs : List A) → length (insert_by a xs) ≡ suc (length xs)
  length-insert_by a [] = refl
  length-insert_by a (x ∷ xs) = ground (arith, length-insert_by a xs)

  pub length-sort_by : (xs : List A) → length (sort_by xs) ≡ length xs
  length-sort_by [] = refl
  length-sort_by (x ∷ xs) = length-insert_by x (sort_by xs) ∙ ap suc (length-sort_by xs)

  mem-insert_by_head : (a : A) (xs : List A) → Memᴰ a (insert_by a xs)
  mem-insert_by_head a [] = Memᴰ.head refl
  mem-insert_by_head a (x ∷ xs) = elim (Bool-cases (first x a)) [
    | inl e ↦ rw e (Memᴰ.tail (mem-insert_by_head a xs))
    | inr e ↦ rw e (Memᴰ.head refl)
  ]

  mem-insert_by_tail : (a b : A) (xs : List A) → Memᴰ b xs → Memᴰ b (insert_by a xs)
  mem-insert_by_tail a b [] m = elim m [ ]
  mem-insert_by_tail a b (x ∷ xs) m = elim (Bool-cases (first x a)) [
    | inl e ↦ rw e (elim m [
      | Memᴰ.head q ↦ Memᴰ.head q
      | Memᴰ.tail r ↦ Memᴰ.tail (mem-insert_by_tail a b xs r)
    ])
    | inr e ↦ rw e (Memᴰ.tail m)
  ]

  -- Sorting loses no row.
  pub mem_sort_by : (a : A) (xs : List A) → Memᴰ a xs → Memᴰ a (sort_by xs)
  mem_sort_by a [] m = m
  mem_sort_by a (x ∷ xs) (Memᴰ.head q) = rw q (mem-insert_by_head x (sort_by xs))
  mem_sort_by a (x ∷ xs) (Memᴰ.tail m) = mem-insert_by_tail x a (sort_by xs) (mem_sort_by a xs m)

  mem-insert_by : (a b : A) (xs : List A) → Memᴰ b (insert_by a xs) → Memᴰ b (a ∷ xs)
  mem-insert_by a b [] m = m
  mem-insert_by a b (x ∷ xs) m = elim (Bool-cases (first x a)) [
    | inl e ↦ elim (rw e at m) [
      | Memᴰ.head q ↦ Memᴰ.tail (Memᴰ.head q)
      | Memᴰ.tail r ↦ elim (mem-insert_by a b xs r) [
        | Memᴰ.head q ↦ Memᴰ.head q
        | Memᴰ.tail t ↦ Memᴰ.tail (Memᴰ.tail t)
      ]
    ]
    | inr e ↦ rw e at m
  ]

  -- Sorting adds no row.
  pub mem-sort_by : (a : A) (xs : List A) → Memᴰ a (sort_by xs) → Memᴰ a xs
  mem-sort_by a [] m = m
  mem-sort_by a (x ∷ xs) m = elim (mem-insert_by x a (sort_by xs) m) [
    | Memᴰ.head q ↦ Memᴰ.head q
    | Memᴰ.tail r ↦ Memᴰ.tail (mem-sort_by a xs r)
  ]

module _ {ℓ} {A : Type ℓ} where
  abbrev pub drop : ℕ → List A → List A
  drop zero xs = xs
  drop (suc n) [] = []
  drop (suc n) (x ∷ xs) = drop n xs

  pub length-drop : (n : ℕ) (xs : List A) → length (drop n xs) ≡ length xs - n
  length-drop zero xs = omega arith
  length-drop (suc n) [] = omega arith
  length-drop (suc n) (x ∷ xs) = omega (arith, length-drop n xs)

  pub mem-take : (n : ℕ) (a : A) (xs : List A) → Memᴰ a (take n xs) → Memᴰ a xs
  mem-take zero a xs m = elim m [ ]
  mem-take (suc n) a [] m = m
  mem-take (suc n) a (x ∷ xs) (Memᴰ.head q) = Memᴰ.head q
  mem-take (suc n) a (x ∷ xs) (Memᴰ.tail m) = Memᴰ.tail (mem-take n a xs m)
