-- ===== src/Prelude/Rows.antt =====
-- Laws of the operations on tables.
use balance_tracker.Prelude.Tests.{if◌then◌else◌, Bool-cases, Option-cases}
use balance_tracker.Prelude.Lists.{keep, any, find?, count_if, update_where, All, best, length}
use Prim.Native.Nat.{◌≤◌}
use mathlib.Core.Path.{◌≡◌, refl, sym, subst, ◌∙◌}
use mathlib.Core.Logic.{inl, inr}
use mathlib.Core.Bool.{Bool, true, false}
use mathlib.Core.Option.{none, some}
use mathlib.Core.List.{List, [], ◌∷◌, Memᴰ}
use native.Mathlib.Omega.{arith}

module _ {ℓ} {A : Type ℓ} where
  pub mem-keep :
      (p : A → Bool) (a : A) (xs : List A) → Memᴰ a (keep p xs) → (p a ≡ true) × Memᴰ a xs
  mem-keep p a [] h = elim h [ ]
  mem-keep p a (x ∷ xs) h = elim (Bool-cases (p x)) [
    | inl e ↦ elim (rw e at h) [
      | Memᴰ.head q ↦ (subst (λ y. p y ≡ true) (sym q) e, Memᴰ.head q)
      | Memᴰ.tail r ↦ let (t, m) = mem-keep p a xs r in (t, Memᴰ.tail m)
    ]
    | inr e ↦ let (t, m) = mem-keep p a xs (rw e at h) in (t, Memᴰ.tail m)
  ]

  -- A row that passes is kept.
  pub mem_keep : (p : A → Bool) (a : A) (xs : List A) → p a ≡ true → Memᴰ a xs → Memᴰ a (keep p xs)
  mem_keep p a [] t h = elim h [ ]
  mem_keep p a (x ∷ xs) t (Memᴰ.head q) = rw (subst (λ y. p y ≡ true) q t) (Memᴰ.head q)
  mem_keep p a (x ∷ xs) t (Memᴰ.tail r) = elim (Bool-cases (p x)) [
    | inl e ↦ rw e (Memᴰ.tail (mem_keep p a xs t r))
    | inr e ↦ rw e (mem_keep p a xs t r)
  ]

  pub All-mem {κ} : (P : A → Type κ) (a : A) (xs : List A) → All P xs → Memᴰ a xs → P a
  All-mem P a [] all h = elim h [ ]
  All-mem P a (x ∷ xs) all (Memᴰ.head q) = subst P (sym q) all.0
  All-mem P a (x ∷ xs) all (Memᴰ.tail r) = All-mem P a xs all.1 r

  pub any-mem : (p : A → Bool) (a : A) (xs : List A) → any p xs ≡ false → Memᴰ a xs → p a ≡ false
  any-mem p a [] n h = elim h [ ]
  any-mem p a (x ∷ xs) n (Memᴰ.head q) = subst (λ y. p y ≡ false) (sym q) (ground arith)
  any-mem p a (x ∷ xs) n (Memᴰ.tail r) = any-mem p a xs (ground arith) r

  pub length-keep_count : (p : A → Bool) (xs : List A) → length (keep p xs) ≡ count_if p xs
  length-keep_count p [] = refl
  length-keep_count p (x ∷ xs) = ground (arith, length-keep_count p xs)

  pub count_if_zero : (p : A → Bool) (xs : List A) → any p xs ≡ false → count_if p xs ≡ 0
  count_if_zero p [] h = refl
  count_if_zero p (x ∷ xs) h = ground (arith, count_if_zero p xs)

  pub any_of_count_if : (p : A → Bool) (xs : List A) → count_if p xs ≡ 0 → any p xs ≡ false
  any_of_count_if p [] h = refl
  any_of_count_if p (x ∷ xs) h = ground (arith, any_of_count_if p xs)

  pub count_if_pos :
      (p : A → Bool) (a : A) (xs : List A) → p a ≡ true → Memᴰ a xs → 1 ≤ count_if p xs
  count_if_pos p a [] t h = elim h [ ]
  count_if_pos p a (x ∷ xs) t (Memᴰ.head q) =
      let e = subst (λ y. p y ≡ true) q t in rw e (omega arith)
  count_if_pos p a (x ∷ xs) t (Memᴰ.tail r) = ground (arith, count_if_pos p a xs t r)

  pub length-update_where :
      (p : A → Bool) (f : A → A) (xs : List A) → length (update_where p f xs) ≡ length xs
  length-update_where p f [] = refl
  length-update_where p f (x ∷ xs) = ground (arith, length-update_where p f xs)

  -- An update that turns no row into one that passes `q` does not raise their number.
  pub count_if-update_where_le :
      (q p : A → Bool) (f : A → A) (xs : List A)
      → ((x : A) → p x ≡ true → q (f x) ≡ true → q x ≡ true)
      → count_if q (update_where p f xs) ≤ count_if q xs
  count_if-update_where_le q p f [] h = omega arith
  count_if-update_where_le q p f (x ∷ xs) h =
      ground (arith, h x, count_if-update_where_le q p f xs h)

  pub count_if-update_where_eq :
      (q p : A → Bool) (f : A → A) (xs : List A)
      → ((x : A) → p x ≡ true → q (f x) ≡ q x)
      → count_if q (update_where p f xs) ≡ count_if q xs
  count_if-update_where_eq q p f [] h = refl
  count_if-update_where_eq q p f (x ∷ xs) h =
      ground (arith, h x, count_if-update_where_eq q p f xs h)

  pub All-update_where {κ} :
      (P : A → Type κ) (p : A → Bool) (f : A → A) (xs : List A)
      → ((x : A) → P x → P (f x))
      → All P xs
      → All P (update_where p f xs)
  All-update_where P p f [] h all = all
  All-update_where P p f (x ∷ xs) h all = elim (Bool-cases (p x)) [
    | inl e ↦ (rw e (h x all.0), All-update_where P p f xs h all.1)
    | inr e ↦ (rw e all.0, All-update_where P p f xs h all.1)
  ]

  pub All-mono {κ μ} :
      {P : A → Type κ} {Q : A → Type μ}
      → ((x : A) → P x → Q x)
      → (xs : List A) → All P xs
      → All Q xs
  All-mono h [] all = tt
  All-mono h (x ∷ xs) all = (h x all.0, All-mono h xs all.1)

  pub any-update_where :
      (q p : A → Bool) (f : A → A) (xs : List A)
      → ((x : A) → p x ≡ true → q (f x) ≡ true)
      → any p xs ≡ true
      → any q (update_where p f xs) ≡ true
  any-update_where q p f [] h a = cc
  any-update_where q p f (x ∷ xs) h a = ground (arith, h x, any-update_where q p f xs h)

  pub any_of_mem : (p : A → Bool) (a : A) (xs : List A) → p a ≡ true → Memᴰ a xs → any p xs ≡ true
  any_of_mem p a [] t h = elim h [ ]
  any_of_mem p a (x ∷ xs) t (Memᴰ.head q) = let e = subst (λ y. p y ≡ true) q t in rw e refl
  any_of_mem p a (x ∷ xs) t (Memᴰ.tail r) = ground (arith, any_of_mem p a xs t r)

  pub find?_total : (p : A → Bool) (xs : List A) → any p xs ≡ true → (a : A) × (find? p xs ≡ some a)
  find?_total p [] h = cc
  find?_total p (x ∷ xs) h = elim (Bool-cases (p x)) [
    | inl e ↦ (x, rw e)
    | inr e ↦ let (a, q) = find?_total p xs (rw e at h) in (a, rw e q)
  ]

  pub find?-mem : (p : A → Bool) (xs : List A) (a : A) → find? p xs ≡ some a → Memᴰ a xs
  find?-mem p [] a h = cc
  find?-mem p (x ∷ xs) a h = elim (Bool-cases (p x)) [
    | inl e ↦ Memᴰ.head (cc (rw e at h))
    | inr e ↦ Memᴰ.tail (find?-mem p xs a (rw e at h))
  ]

module _ {ℓ} {A : Type ℓ} (beats : A → A → Bool) where
  pub best-none : (xs : List A) → best beats xs ≡ none → xs ≡ []
  best-none [] h = refl
  best-none (x ∷ xs) h = elim (Option-cases (best beats xs)) [
    | inl e ↦ cc (rw e at h)
    | inr (y, e) ↦ cc (rw e at h)
  ]

  pub best-mem : (xs : List A) (a : A) → best beats xs ≡ some a → Memᴰ a xs
  best-mem [] a h = cc
  best-mem (x ∷ xs) a h = elim (Option-cases (best beats xs)) [
    | inl e ↦ Memᴰ.head (cc (rw e at h))
    | inr (y, e) ↦ elim (Bool-cases (beats y x)) [
      | inl b ↦ Memᴰ.tail (best-mem xs a (e ∙ cc (rw (e, b) at h)))
      | inr b ↦ Memᴰ.head (cc (rw (e, b) at h))
    ]
  ]

  -- For a strict weak order nothing beats the chosen row.
  module _ (asym : (x y : A) → beats x y ≡ true → beats y x ≡ false)
      (trans : (x y z : A) → beats x y ≡ false → beats y z ≡ false → beats x z ≡ false) where
    irrefl : (x : A) → beats x x ≡ false
    irrefl x = elim (Bool-cases (beats x x)) [ inl t ↦ asym x x t | inr f ↦ f ]

    head_or_rest :
        (x y c : A) (xs : List A)
        → beats x c ≡ false
        → (Memᴰ y xs → beats y c ≡ false)
        → Memᴰ y (x ∷ xs)
        → beats y c ≡ false
    head_or_rest x y c xs f rest (Memᴰ.head q) = subst (λ z. beats z c ≡ false) (sym q) f
    head_or_rest x y c xs f rest (Memᴰ.tail k) = rest k

    pub best-maximal :
        (xs : List A) (a y : A) → best beats xs ≡ some a → Memᴰ y xs → beats y a ≡ false
    best-maximal [] a y h m = cc
    best-maximal (x ∷ xs) a y h m = elim (Option-cases (best beats xs)) [
      | inl e ↦
          let q : x ≡ a = cc (rw e at h) in
          subst (λ z. beats y z ≡ false) q
            (head_or_rest x y x xs (irrefl x) (λ k. elim (subst (Memᴰ y) (best-none xs e) k) [ ]) m)
      | inr (b, e) ↦ elim (Bool-cases (beats b x)) [
        | inl t ↦
            let q : b ≡ a = cc (rw (e, t) at h) in
            subst (λ z. beats y z ≡ false) q
              (head_or_rest x y b xs (asym b x t) (λ k. best-maximal xs b y e k) m)
        | inr f ↦
            let q : x ≡ a = cc (rw (e, f) at h) in
            subst (λ z. beats y z ≡ false) q
              (head_or_rest x y x xs (irrefl x) (λ k. trans y b x (best-maximal xs b y e k) f) m)
      ]
    ]

module _ {ℓ} {A : Type ℓ} where
  keep-nil : (p : A → Bool) (xs : List A) → keep p xs ≡ [] → any p xs ≡ false
  keep-nil p [] h = refl
  keep-nil p (x ∷ xs) h = ground (arith, keep-nil p xs)

-- A query with a `where`, an `order_by` and `limit(1)`.
module _ {ℓ} {A : Type ℓ} (beats : A → A → Bool) (p : A → Bool) (xs : List A) where
  pub best-keep-none : best beats (keep p xs) ≡ none → any p xs ≡ false
  best-keep-none h = keep-nil p xs (best-none beats (keep p xs) h)

  pub best-keep_sound : (a : A) → best beats (keep p xs) ≡ some a → (p a ≡ true) × Memᴰ a xs
  best-keep_sound a h = mem-keep p a xs (best-mem beats (keep p xs) a h)

  pub best-keep_total : any p xs ≡ true → (a : A) × (best beats (keep p xs) ≡ some a)
  best-keep_total t = elim (Option-cases (best beats (keep p xs))) [
    | inl e ↦ cc (best-keep-none e)
    | inr found ↦ found
  ]

-- A search by a test that an update does not touch.
module _ {ℓ} {A : Type ℓ} (q g : A → Bool) (f : A → A) where
  pub find?-update_where :
      (xs : List A) (a : A)
      → ((x : A) → q (f x) ≡ q x)
      → find? q xs ≡ some a
      → find? q (update_where g f xs) ≡ some (if g a then f a else a)
  find?-update_where [] a same h = cc
  find?-update_where (x ∷ xs) a same h = ground (arith, find?-update_where xs a same, same x)
