-- ===== src/Base/Search.antt =====
-- What a search by a test says of a table, and tables whose rows a test tells apart.
use Prim.Native.Nat.{ℕ}
use mathlib.Core.Path.{◌≡◌, refl, ap, ◌∙◌}
use mathlib.Core.Logic.{inl, inr}
use mathlib.Core.Bool.{Bool, true, false, ◌&&◌, ◌||◌}
use mathlib.Core.Option.{some}
use mathlib.Core.List.{List, [], ◌∷◌, ◌++◌}
use native.Mathlib.Omega.{arith}
use labour_baba_backend.Base.Tests.{if◌then◌else◌, ◌==◌, Bool-cases}
use labour_baba_backend.Base.Lists.{
  any, update_where, count_where, filter_where, All, Keyed, find?, All-find?,
}
use labour_baba_backend.Base.Counts.{
  count_where-filter_where, count_where-append, none-count_where, All-map, All-both,
}

module _ {ℓ} {A : Type ℓ} where
  pub everywhere {κ} : {P : A → Type κ} (xs : List A) → ((x : A) → P x) → All P xs
  everywhere [] h = tt
  everywhere (x ∷ xs) h = (h x, everywhere xs h)

  -- What holds of every row that fits holds if some row fits.
  pub any-All {κ} :
      {Q : Type κ} (p : A → Bool) (xs : List A) → any p xs ≡ true → All (λ x. p x ≡ true → Q) xs → Q
  any-All p [] h a = absurd (ground arith)
  any-All p (x ∷ xs) h a = elim (Bool-cases (p x)) [
    | inl fits ↦ a.0 fits
    | inr unfit ↦ any-All p xs (ground arith) a.1
  ]

  pub any-filter_where :
      (p q : A → Bool) (xs : List A)
      → any p (filter_where q xs) ≡ true
      → any (λ x. p x && q x) xs ≡ true
  any-filter_where p q [] h = ground arith
  any-filter_where p q (x ∷ xs) h = ground (arith, any-filter_where p q xs)

  -- A table of which no two rows are the same by a test.
  abbrev pub Distinct : (A → A → Bool) → List A → Type 0
  Distinct same [] = Unit
  Distinct same (x ∷ xs) = (count_where (λ y. same y x) xs ≡ 0) × Distinct same xs

  count_where-alike :
      (p q : A → Bool) (f : A → A) (xs : List A)
      → ((x : A) → q (f x) ≡ q x)
      → count_where q (update_where p f xs) ≡ count_where q xs
  count_where-alike p q f [] keep = refl
  count_where-alike p q f (x ∷ xs) keep = ground (arith, keep x, count_where-alike p q f xs keep)

  pub update_where-Distinct :
      (same : A → A → Bool) (p : A → Bool) (f : A → A) (xs : List A)
      → ((x y : A) → same (f x) y ≡ same x y)
      → ((x y : A) → same x (f y) ≡ same x y)
      → Distinct same xs
      → Distinct same (update_where p f xs)
  update_where-Distinct same p f [] l r d = tt
  update_where-Distinct same p f (x ∷ xs) l r d =
      (go (p x), update_where-Distinct same p f xs l r d.1)
    where
      here :
          (z : A)
          → count_where (λ y. same y z) (update_where p f xs) ≡ count_where (λ y. same y z) xs
      here z = count_where-alike p (λ y. same y z) f xs (λ y. l y z)

      moved : (ys : List A) → count_where (λ y. same y (f x)) ys ≡ count_where (λ y. same y x) ys
      moved [] = refl
      moved (y ∷ ys) = ground (arith, r y x, moved ys)

      go : (b : Bool) → count_where (λ y. same y (if b then f x else x)) (update_where p f xs) ≡ 0
      go true = rw (here (f x), moved xs) d.0
      go false = rw (here x) d.0

  pub filter_where-Distinct :
      (same : A → A → Bool) (k : A → Bool) (xs : List A)
      → Distinct same xs
      → Distinct same (filter_where k xs)
  filter_where-Distinct same k [] d = tt
  filter_where-Distinct same k (x ∷ xs) d = elim (Bool-cases (k x)) [
    | inl stays ↦ rw stays (
      ground (arith, count_where-filter_where (λ y. same y x) k xs),
      filter_where-Distinct same k xs d.1,
    )
    | inr goes ↦ rw goes (filter_where-Distinct same k xs d.1)
  ]

  pub append-Distinct :
      (same : A → A → Bool) (xs : List A) (y : A)
      → Distinct same xs
      → All (λ x. same y x ≡ false) xs
      → Distinct same (xs ++ y ∷ [])
  append-Distinct same [] y d fresh = (refl, tt)
  append-Distinct same (x ∷ xs) y d fresh = (
    ground (arith, count_where-append (λ z. same z x) xs y, fresh.0),
    append-Distinct same xs y d.1 fresh.1,
  )

  any-none : (p : A → Bool) (xs : List A) → All (λ x. p x ≡ false) xs → any p xs ≡ false
  any-none p [] h = refl
  any-none p (x ∷ xs) h = ground (arith, any-none p xs h.1)

  -- In a keyed table a row fits if some row with its key fits.
  pub any-Keyed :
      (key : A → ℕ) (q : A → Bool) (xs : List A)
      → Keyed key xs
      → All (λ e. any (λ x. key x == key e && q x) xs ≡ true → q e ≡ true) xs
  any-Keyed key q [] k = tt
  any-Keyed key q (y ∷ ys) k =
      let others = none-count_where (λ z. key z == key y) ys k.0 in
      (
        λ h.
            let rest =
              any-none (λ x. key x == key y && q x) ys (All-map ys (λ x o. ground arith) others) in
            ground arith,
        All-both ys (λ e o i h. i (ground arith)) others (any-Keyed key q ys k.1),
      )

  pub find?-also :
      (p q : A → Bool) (xs : List A) {x : A}
      → find? p xs ≡ some x
      → q x ≡ true
      → find? (λ y. p y && q y) xs ≡ some x
  find?-also p q [] h fits = ground arith
  find?-also p q (y ∷ ys) {x} h fits = elim (Bool-cases (p y)) [
    | inl this ↦
        let same : y ≡ x = ground arith in
        let also : q y ≡ true = ap q same ∙ fits in rw (this, also) (ap some same)
    | inr other ↦ ground (arith, find?-also p q ys {x = x})
  ]

  -- In a keyed table the row that a search finds is the only one with its key.
  pub found_only :
      (key : A → ℕ) (q : A → Bool) (xs : List A) {p : A}
      → Keyed key xs
      → find? q xs ≡ some p
      → All (λ z. (key z == key p) ≡ true → z ≡ p) xs
  found_only key q [] k found = tt
  found_only key q (y ∷ ys) {p} k found =
      let others = none-count_where (λ z. key z == key y) ys k.0 in
      elim (Bool-cases (q y)) [
        | inl this ↦
            let same : y ≡ p = ground arith in
            rw (← same) (λ _. refl, All-map ys (λ z o e. absurd (ground arith)) others)
        | inr other ↦
            let later : find? q ys ≡ some p = ground arith in
            let apart = All-find? (λ z. (key z == key y) ≡ false) q ys others later in
            (λ e. absurd (ground arith), found_only key q ys k.1 later)
      ]

  pub any-update_where :
      (q p : A → Bool) (f : A → A) (xs : List A)
      → ((x : A) → q (f x) ≡ q x)
      → any q (update_where p f xs) ≡ any q xs
  any-update_where q p f [] keep = refl
  any-update_where q p f (x ∷ xs) keep = ground (arith, keep x, any-update_where q p f xs keep)

  pub any-append : (q : A → Bool) (xs : List A) (y : A) → any q (xs ++ y ∷ []) ≡ (any q xs || q y)
  any-append q [] y = ground arith
  any-append q (x ∷ xs) y = ground (arith, any-append q xs y)

  pub filter_where-All : (q : A → Bool) (xs : List A) → All (λ x. q x ≡ true) (filter_where q xs)
  filter_where-All q [] = tt
  filter_where-All q (x ∷ xs) = elim (Bool-cases (q x)) [
    | inl stays ↦ rw (stays, filter_where) (stays, filter_where-All q xs)
    | inr goes ↦ rw goes (filter_where-All q xs)
  ]

  pub any-none-All : (p : A → Bool) (xs : List A) → any p xs ≡ false → All (λ x. p x ≡ false) xs
  any-none-All p [] h = tt
  any-none-All p (x ∷ xs) h = (ground arith, any-none-All p xs (ground arith))

  pub count_where-any :
      (p : A → Bool) (xs : List A) → (count_where p xs == 0) ≡ false → any p xs ≡ true
  count_where-any p [] h = ground arith
  count_where-any p (x ∷ xs) h = elim (Bool-cases (p x)) [
    | inl fits ↦ rw fits refl
    | inr unfit ↦ ground (arith, count_where-any p xs)
  ]
