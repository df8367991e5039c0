-- ===== src/Base/Counts.antt =====
-- Counting the rows of a table over its updates.
use Prim.Native.Nat.{ℕ, ◌+◌, ◌≤◌}
use mathlib.Core.Path.{◌≡◌, refl}
use mathlib.Core.Logic.{inl, inr}
use mathlib.Core.Bool.{Bool, true, false}
use mathlib.Core.List.{List, [], ◌∷◌, ◌++◌}
use mathlib.Core.Option.{some}
use native.Mathlib.Omega.{arith}
use labour_baba_backend.Base.Tests.{if◌then◌else◌, ◌==◌, Bool-cases}
use labour_baba_backend.Base.Lists.{
  find?, find?-sound, update_where, count_where, filter_where, All, Keyed,
}

module _ {ℓ} {A : Type ℓ} where
  pub All-map {κ μ} :
      {P : A → Type κ} {Q : A → Type μ} (xs : List A) → ((x : A) → P x → Q x) → All P xs → All Q xs
  All-map [] h a = tt
  All-map (x ∷ xs) h a = (h x a.0, All-map xs h a.1)

  pub All-both {κ μ ν} :
      {P : A → Type κ} {Q : A → Type μ} {R : A → Type ν} (xs : List A)
      → ((x : A) → P x → Q x → R x)
      → All P xs
      → All Q xs
      → All R xs
  All-both [] h a b = tt
  All-both (x ∷ xs) h a b = (h x a.0 b.0, All-both xs h a.1 b.1)

  pub All-append {κ} :
      (P : A → Type κ) (xs : List A) {y : A} → All P xs → P y → All P (xs ++ y ∷ [])
  All-append P [] a h = (h, tt)
  All-append P (x ∷ xs) a h = (a.0, All-append P xs a.1 h)

  pub All-filter_where {κ} :
      (P : A → Type κ) (k : A → Bool) (xs : List A) → All P xs → All P (filter_where k xs)
  All-filter_where P k [] a = tt
  All-filter_where P k (x ∷ xs) a = elim (Bool-cases (k x)) [
    | inl stays ↦ rw stays (a.0, All-filter_where P k xs a.1)
    | inr goes ↦ rw goes (All-filter_where P k xs a.1)
  ]

  pub count_where-append :
      (q : A → Bool) (xs : List A) (y : A)
      → count_where q (xs ++ y ∷ []) ≡ count_where q xs + (if q y then 1 else 0)
  count_where-append q [] y = ground arith
  count_where-append q (x ∷ xs) y = ground (arith, count_where-append q xs y)

  pub count_where-filter_where :
      (q k : A → Bool) (xs : List A) → count_where q (filter_where k xs) ≤ count_where q xs
  count_where-filter_where q k [] = ground arith
  count_where-filter_where q k (x ∷ xs) = ground (arith, count_where-filter_where q k xs)

  -- An update by which rows stop to fit takes from the count.
  pub count_where-unfit :
      (p q : A → Bool) (f : A → A) (xs : List A)
      → ((x : A) → q (f x) ≡ false)
      → count_where q (update_where p f xs) ≤ count_where q xs
  count_where-unfit p q f [] stop = ground arith
  count_where-unfit p q f (x ∷ xs) stop = ground (arith, stop x, count_where-unfit p q f xs stop)

  pub count_where-taken :
      (p q : A → Bool) (f : A → A) (xs : List A)
      → ((x : A) → q (f x) ≡ false)
      → All (λ x. p x ≡ true → q x ≡ true) xs
      → count_where q (update_where p f xs) + count_where p xs ≡ count_where q xs
  count_where-taken p q f [] stop fit = ground arith
  count_where-taken p q f (x ∷ xs) stop fit =
      let rest = count_where-taken p q f xs stop fit.1 in
      elim (Bool-cases (p x)) [
        | inl this ↦ let fits = fit.0 this in ground (arith, stop x)
        | inr other ↦ ground (arith, stop x)
      ]

  pub count_where-all :
      (q : A → Bool) (f : A → A) (p : A → Bool) (xs : List A)
      → ((x : A) → q (f x) ≡ false)
      → ((x : A) → q x ≡ true → p x ≡ true)
      → count_where q (update_where p f xs) ≡ 0
  count_where-all q f p [] stop fit = refl
  count_where-all q f p (x ∷ xs) stop fit =
      ground (arith, stop x, fit x, count_where-all q f p xs stop fit)

  pub count_where-none :
      (q : A → Bool) (xs : List A) → All (λ x. q x ≡ false) xs → count_where q xs ≡ 0
  count_where-none q [] h = refl
  count_where-none q (x ∷ xs) h = ground (arith, count_where-none q xs h.1)

  pub none-count_where :
      (q : A → Bool) (xs : List A) → count_where q xs ≡ 0 → All (λ x. q x ≡ false) xs
  none-count_where q [] h = tt
  none-count_where q (x ∷ xs) h = (ground arith, none-count_where q xs (ground arith))

  pub Keyed-append :
      (key : A → ℕ) (xs : List A) (y : A)
      → Keyed key xs
      → All (λ x. (key y == key x) ≡ false) xs
      → Keyed key (xs ++ y ∷ [])
  Keyed-append key [] y k fresh = (refl, tt)
  Keyed-append key (x ∷ xs) y k fresh = (
    ground (arith, count_where-append (λ z. key z == key x) xs y, fresh.0),
    Keyed-append key xs y k.1 fresh.1,
  )

  pub Keyed-filter_where :
      (key : A → ℕ) (q : A → Bool) (xs : List A) → Keyed key xs → Keyed key (filter_where q xs)
  Keyed-filter_where key q [] k = tt
  Keyed-filter_where key q (x ∷ xs) k = elim (Bool-cases (q x)) [
    | inl stays ↦ rw stays (
      ground (arith, count_where-filter_where (λ z. key z == key x) q xs),
      Keyed-filter_where key q xs k.1,
    )
    | inr goes ↦ rw goes (Keyed-filter_where key q xs k.1)
  ]

  -- On a keyed table the rows with the key of the row that is found agree with it.
  pub find?-alike :
      (key attr : A → ℕ) (n : ℕ) (xs : List A) {x : A}
      → Keyed key xs
      → find? (λ z. key z == n) xs ≡ some x
      → All (λ z. (key z == key x) ≡ true → attr z ≡ attr x) xs
  find?-alike key attr n [] k h = tt
  find?-alike key attr n (y ∷ ys) {x} k h = elim (Bool-cases (key y == n)) [
    | inl this ↦
        let same : y ≡ x = ground arith in
        rw (← same) (
          λ _. refl,
          All-map ys (λ z differs e. absurd (ground arith))
              (none-count_where (λ z. key z == key y) ys k.0),
        )
    | inr other ↦
        let later : find? (λ z. key z == n) ys ≡ some x = ground arith in
        (
          λ e. absurd (ground (arith, find?-sound (λ z. key z == n) ys later)),
          find?-alike key attr n ys k.1 later,
        )
  ]
