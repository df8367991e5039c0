-- ===== src/Base/Lists.antt =====
-- Tables: lists of rows with the queries that the services send to the database.
use Prim.Native.Nat.{ℕ, suc, ◌+◌, ◌≤◌}
use mathlib.Core.Path.{◌≡◌, refl}
use mathlib.Core.Bool.{Bool, true, false, ◌||◌, ◌&&◌}
use mathlib.Core.List.{List, [], ◌∷◌, ◌++◌}
use mathlib.Core.Option.{Option, none, some}
use native.Mathlib.Omega.{arith}
use mathlib.Core.Path.{sym, subst}
use mathlib.Core.Logic.{inl, inr}
use labour_baba_backend.Base.Tests.{if◌then◌else◌, ◌==◌, ==_iff, Bool-cases}

module _ {ℓ} {A : Type ℓ} where
  abbrev pub length : List A → ℕ
  length [] = 0
  length (_ ∷ xs) = suc (length xs)

  -- `xs.some(p)`
  abbrev pub any : (A → Bool) → List A → Bool
  any p [] = false
  any p (x ∷ xs) = p x || any p xs

  -- `findFirst({ where })`: the first row that fits
  abbrev pub find? : (A → Bool) → List A → Option A
  find? p [] = none
  find? p (x ∷ xs) = if p x then some x else find? p xs

  -- `updateMany({ where, data })`: every row that fits is rewritten
  abbrev pub update_where : (A → Bool) → (A → A) → List A → List A
  update_where p f [] = []
  update_where p f (x ∷ xs) = (if p x then f x else x) ∷ update_where p f xs

  -- `count({ where })`, also the `count` that `updateMany` returns
  abbrev pub count_where : (A → Bool) → List A → ℕ
  count_where p [] = 0
  count_where p (x ∷ xs) = (if p x then 1 else 0) + count_where p xs

  -- `findMany({ where })`
  abbrev pub filter_where : (A → Bool) → List A → List A
  filter_where p [] = []
  filter_where p (x ∷ xs) = if p x then x ∷ filter_where p xs else filter_where p xs

  -- every row of a table
  abbrev pub All {κ} : (A → Type κ) → List A → Type κ
  All P [] = Unit
  All P (x ∷ xs) = P x × All P xs

module _ {ℓ} {A : Type ℓ} where
  pub find?-sound : (p : A → Bool) (xs : List A) {x : A} → find? p xs ≡ some x → p x ≡ true
  find?-sound p [] h = ground arith
  find?-sound p (y ∷ ys) {x} h = ground (arith, find?-sound p ys {x = x})

  pub count_where-find? :
      (p : A → Bool) (xs : List A) {x : A} → find? p xs ≡ some x → 1 ≤ count_where p xs
  count_where-find? p [] h = ground arith
  count_where-find? p (y ∷ ys) {x} h = ground (arith, count_where-find? p ys {x = x})

  -- An update that keeps the rows' fit changes what a search finds by the update.
  pub find?-update_where :
      (p q : A → Bool) (f : A → A) (xs : List A)
      → ((x : A) → q (f x) ≡ q x)
      → find? q (update_where p f xs)
        ≡ elim (find? q xs) [ none ↦ none | some x ↦ some (if p x then f x else x) ]
  find?-update_where p q f [] keep = refl
  find?-update_where p q f (x ∷ xs) keep = ground (arith, keep x, find?-update_where p q f xs keep)

  pub All-update_where {κ} :
      (P : A → Type κ) (p : A → Bool) (f : A → A) (xs : List A)
      → ((x : A) → P x → p x ≡ true → P (f x))
      → All P xs
      → All P (update_where p f xs)
  All-update_where P p f [] keep h = tt
  All-update_where P p f (x ∷ xs) keep h = (go (p x) refl, All-update_where P p f xs keep h.1)
    where
      go : (b : Bool) → p x ≡ b → P (if b then f x else x)
      go true e = keep x h.0 e
      go false e = h.0

  pub All-find? {κ} :
      (P : A → Type κ) (p : A → Bool) (xs : List A) {x : A} → All P xs → find? p xs ≡ some x → P x
  All-find? P p [] h e = ground arith
  All-find? P p (y ∷ ys) {x} h e = ground (arith, All-find? P p ys {x = x} h.1)

  pub filter_where-append :
      (p : A → Bool) (xs : List A) (y : A)
      → filter_where p (xs ++ y ∷ []) ≡ filter_where p xs ++ (if p y then y ∷ [] else [])
  filter_where-append p [] y = ground arith
  filter_where-append p (x ∷ xs) y = ground (arith, filter_where-append p xs y)

  -- A table whose rows differ in their key.
  abbrev pub Keyed : (A → ℕ) → List A → Type 0
  Keyed key [] = Unit
  Keyed key (x ∷ xs) = (count_where (λ y. key y == key x) xs ≡ 0) × Keyed key xs

module _ {ℓ} {A : Type ℓ} where
  pub update_where-none :
      (p : A → Bool) (f : A → A) (xs : List A) → count_where p xs ≡ 0 → update_where p f xs ≡ xs
  update_where-none p f [] h = refl
  update_where-none p f (x ∷ xs) h = ground (arith, update_where-none p f xs)

  -- An update by key rewrites the one row that is found, so it keeps what its rewriting keeps.
  pub All-update_found {κ} :
      (P : A → Type κ) (key : A → ℕ) (n : ℕ) (f : A → A) (xs : List A) {x : A}
      → Keyed key xs
      → find? (λ y. key y == n) xs ≡ some x
      → (P x → P (f x))
      → All P xs
      → All P (update_where (λ y. key y == n) f xs)
  All-update_found P key n f [] k found keep h = tt
  All-update_found P key n f (y ∷ ys) {x} k found keep h = elim (Bool-cases (key y == n)) [
    | inl this ↦
        let same : y ≡ x = ground arith in
        let rest : update_where (λ z. key z == n) f ys ≡ ys =
          update_where-none (λ z. key z == n) f ys (rw (← (==_iff (key y) n).0 this) k.0) in
        rw (this, rest) (subst (λ z. P (f z)) (sym same) (keep (subst P same h.0)), h.1)
    | inr other ↦ rw other (h.0, All-update_found P key n f ys {x = x} k.1 (ground arith) keep h.1)
  ]

  count_where-update_where :
      (key : A → ℕ) (n : ℕ) (p : A → Bool) (f : A → A) (xs : List A)
      → ((x : A) → key (f x) ≡ key x)
      → count_where (λ y. key y == n) (update_where p f xs) ≡ count_where (λ y. key y == n) xs
  count_where-update_where key n p f [] keep = refl
  count_where-update_where key n p f (x ∷ xs) keep =
      ground (arith, keep x, count_where-update_where key n p f xs keep)

  pub update_where-Keyed :
      (key : A → ℕ) (p : A → Bool) (f : A → A) (xs : List A)
      → ((x : A) → key (f x) ≡ key x)
      → Keyed key xs
      → Keyed key (update_where p f xs)
  update_where-Keyed key p f [] keep h = tt
  update_where-Keyed key p f (x ∷ xs) keep h = (headless, update_where-Keyed key p f xs keep h.1)
    where
      same : key (if p x then f x else x) ≡ key x
      same = ground (arith, keep x)

      headless : count_where (λ y. key y == key (if p x then f x else x)) (update_where p f xs) ≡ 0
      headless = rw (same, count_where-update_where key (key x) p f xs keep) h.0

  -- The row that a search with further conditions finds is the row with its key.
  pub find?-Keyed :
      (key : A → ℕ) (n : ℕ) (q : A → Bool) (xs : List A) {x : A}
      → Keyed key xs
      → find? (λ y. key y == n && q y) xs ≡ some x
      → find? (λ y. key y == n) xs ≡ some x
  find?-Keyed key n q [] k h = h
  find?-Keyed key n q (y ∷ ys) {x} k h = elim (Bool-cases (key y == n)) [
    | inl this ↦ elim (Bool-cases (q y)) [
      | inl fits ↦ ground arith
      | inr unfit ↦
          let none_left =
            subst (λ m. count_where (λ z. key z == m) ys ≡ 0) ((==_iff (key y) n).0 this) k.0 in
          let rest : find? (λ z. key z == n && q z) ys ≡ some x = ground arith in
          let seen = count_where-find? (λ z. key z == n) ys (find?-Keyed key n q ys k.1 rest) in
          absurd (omega arith)
    ]
    | inr other ↦ ground (arith, find?-Keyed key n q ys {x = x} k.1)
  ]
