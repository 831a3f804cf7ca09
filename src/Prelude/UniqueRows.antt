-- ===== src/Prelude/UniqueRows.antt =====
-- Rows picked out by a test that at most one row passes, such as a primary key.
use balance_tracker.Prelude.Tests.{Bool-cases}
use balance_tracker.Prelude.Lists.{any, count_if, update_where, All}
use balance_tracker.Prelude.Rows.{count_if_pos, any_of_count_if}
use Prim.Native.Nat.{◌+◌, ◌≤◌}
use mathlib.Core.Path.{◌≡◌, refl, sym, subst, ap, ◌∙◌}
use mathlib.Core.Logic.{inl, inr}
use mathlib.Core.Bool.{Bool, true, false}
use mathlib.Core.List.{List, [], ◌∷◌, Memᴰ}
use native.Mathlib.Omega.{arith}

module _ {ℓ} {A : Type ℓ} (p : A → Bool) where
  pub unique_row :
      (a b : A) (xs : List A)
      → count_if p xs ≤ 1
      → Memᴰ a xs
      → Memᴰ b xs
      → p a ≡ true
      → p b ≡ true
      → a ≡ b
  unique_row a b [] u m n s t = elim m [ ]
  unique_row a b (x ∷ xs) u (Memᴰ.head q) (Memᴰ.head r) s t = q ∙ sym r
  unique_row a b (x ∷ xs) u (Memᴰ.head q) (Memᴰ.tail n) s t =
      let e : p x ≡ true = subst (λ y. p y ≡ true) q s in
      absurd (ground (arith, count_if_pos p b xs t n))
  unique_row a b (x ∷ xs) u (Memᴰ.tail m) (Memᴰ.head r) s t =
      let e : p x ≡ true = subst (λ y. p y ≡ true) r t in
      absurd (ground (arith, count_if_pos p a xs s m))
  unique_row a b (x ∷ xs) u (Memᴰ.tail m) (Memᴰ.tail n) s t =
      unique_row a b xs (ground arith) m n s t

  pub All-update_where_mem {κ} :
      (P : A → Type κ) (f : A → A) (xs : List A)
      → ((x : A) → Memᴰ x xs → p x ≡ true → P x → P (f x))
      → All P xs
      → All P (update_where p f xs)
  All-update_where_mem P f [] h all = tt
  All-update_where_mem P f (x ∷ xs) h all = elim (Bool-cases (p x)) [
    | inl e ↦ (
      rw e (h x (Memᴰ.head refl) e all.0),
      All-update_where_mem P f xs (λ y m. h y (Memᴰ.tail m)) all.1,
    )
    | inr e ↦ (rw e all.0, All-update_where_mem P f xs (λ y m. h y (Memᴰ.tail m)) all.1)
  ]

  pub mem-update_where :
      (f : A → A) (a : A) (xs : List A) → p a ≡ true → Memᴰ a xs → Memᴰ (f a) (update_where p f xs)
  mem-update_where f a [] t m = elim m [ ]
  mem-update_where f a (x ∷ xs) t (Memᴰ.head q) =
      let e : p x ≡ true = subst (λ y. p y ≡ true) q t in rw e (Memᴰ.head (ap f q))
  mem-update_where f a (x ∷ xs) t (Memᴰ.tail m) = Memᴰ.tail (mem-update_where f a xs t m)

  -- A row that fails the test is still there.
  pub mem_untouched :
      (f : A → A) (a : A) (xs : List A) → p a ≡ false → Memᴰ a xs → Memᴰ a (update_where p f xs)
  mem_untouched f a [] n m = m
  mem_untouched f a (x ∷ xs) n (Memᴰ.head r) =
      let e : p x ≡ false = ap p (sym r) ∙ n in rw e (Memᴰ.head r)
  mem_untouched f a (x ∷ xs) n (Memᴰ.tail m) = Memᴰ.tail (mem_untouched f a xs n m)

  -- An update that no row passes changes nothing.
  pub update_where_none : (f : A → A) (xs : List A) → any p xs ≡ false → update_where p f xs ≡ xs
  update_where_none f [] h = refl
  update_where_none f (x ∷ xs) h = ground (arith, update_where_none f xs)

  -- An update of the one row that passes, to one that fails `q`.
  pub count_if-update_where_less :
      (q : A → Bool) (f : A → A) (a : A) (xs : List A)
      → count_if p xs ≤ 1
      → p a ≡ true
      → q a ≡ true
      → Memᴰ a xs
      → ((x : A) → q (f x) ≡ false)
      → count_if q (update_where p f xs) + 1 ≡ count_if q xs
  count_if-update_where_less q f a [] u t s m h = elim m [ ]
  count_if-update_where_less q f a (x ∷ xs) u t s (Memᴰ.head r) h =
      let e : p x ≡ true = subst (λ y. p y ≡ true) r t in
      let g : q x ≡ true = subst (λ y. q y ≡ true) r s in
      ground (arith, h x, update_where_none f xs (any_of_count_if p xs (ground arith)))
  count_if-update_where_less q f a (x ∷ xs) u t s (Memᴰ.tail m) h = elim (Bool-cases (p x)) [
    | inl e ↦ absurd (ground (arith, count_if_pos p a xs t m))
    | inr e ↦ ground (arith, count_if-update_where_less q f a xs (ground arith) t s m h)
  ]

  pub count_if-update_where_le_mem :
      (q : A → Bool) (f : A → A) (xs : List A)
      → ((x : A) → Memᴰ x xs → p x ≡ true → q (f x) ≡ true → q x ≡ true)
      → count_if q (update_where p f xs) ≤ count_if q xs
  count_if-update_where_le_mem q f [] h = omega arith
  count_if-update_where_le_mem q f (x ∷ xs) h =
      ground (
        arith,
        h x (Memᴰ.head refl),
        count_if-update_where_le_mem q f xs (λ y m. h y (Memᴰ.tail m)),
      )
