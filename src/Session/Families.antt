-- ===== src/Session/Families.antt =====
-- Token families: one live session at most, over any interleaving.
use labour_baba_backend.Base.{
  ℕ, ◌≤◌, ◌≡◌, refl, ◌⊎◌, inl, inr, Bool, true, false, ◌&&◌, List, [], ◌∷◌, ◌++◌, arith, ◌==◌,
  ==_iff, ==_refl, Bool-cases, update_where, count_where, filter_where, All, Keyed,
  All-update_where, update_where-Keyed,
}
use labour_baba_backend.Session.Table.{RevokeReason, SessionRow, is_active}
use labour_baba_backend.Session.Service.{revoke, revoke_where}
use labour_baba_backend.Session.Steps.{is_drawn}
use labour_baba_backend.Base.{
  All-map, All-both, All-append, All-filter_where, count_where-append, count_where-filter_where,
  count_where-unfit, Keyed-append, Keyed-filter_where,
}

-- the live sessions of a family
abbrev pub is_live : ℕ → SessionRow → Bool
is_live f s = s.family_id == f && is_active s.status

-- Rows come from identifiers that were drawn.
abbrev pub IsDrawn : List ℕ → SessionRow → Type 0
IsDrawn drawn s = (is_drawn s.id drawn ≡ true) × (is_drawn s.family_id drawn ≡ true)

-- A session that a request holds, and the rows with its id, have one family.
abbrev pub IsAlike : List SessionRow → SessionRow → Type 0
IsAlike rows h = All (λ r. (r.id == h.id) ≡ true → r.family_id ≡ h.family_id) rows

pub record IsSound (rows held : List SessionRow) (drawn : List ℕ) : Type 0 where
  pub keyed : Keyed (λ s. s.id) rows
  pub single : (f : ℕ) → count_where (is_live f) rows ≤ 1
  pub rows_drawn : All (IsDrawn drawn) rows
  pub held_drawn : All (IsDrawn drawn) held
  pub alike : All (IsAlike rows) held

-- An update that keeps ids and families, and makes no session live, keeps all of it.
pub update-IsSound :
    (p : SessionRow → Bool) (f : SessionRow → SessionRow) (rows held : List SessionRow)
    (drawn : List ℕ)
    → ((s : SessionRow)
        → ((f s).id ≡ s.id) × ((f s).family_id ≡ s.family_id) × (is_active (f s).status ≡ false))
    → IsSound rows held drawn
    → IsSound (update_where p f rows) held drawn
update-IsSound p f rows held drawn keep h = record {
  keyed = update_where-Keyed (λ s. s.id) p f rows (λ s. (keep s).0) h.keyed;
  single = λ g.
      omega (
        arith,
        h.single g,
        count_where-unfit p (is_live g) f rows (λ s. ground (arith, (keep s).2)),
      );
  rows_drawn =
      All-update_where (IsDrawn drawn) p f rows (λ s d _. rw ((keep s).0, (keep s).1) d)
        h.rows_drawn;
  held_drawn = h.held_drawn;
  alike = All-map {P = IsAlike rows} {Q = IsAlike (update_where p f rows)} held updated h.alike;
}
  where
    updated : (x : SessionRow) → IsAlike rows x → IsAlike (update_where p f rows) x
    updated x a =
        All-update_where (λ r. (r.id == x.id) ≡ true → r.family_id ≡ x.family_id) p f rows
          (λ s same _ e. ground (arith, same, keep s)) a

pub revoke-IsSound :
    (p : SessionRow → Bool) (now : ℕ) (reason : RevokeReason) (rows held : List SessionRow)
    (drawn : List ℕ)
    → IsSound rows held drawn
    → IsSound (revoke_where p now reason rows).1 held drawn
revoke-IsSound p now reason rows held drawn h =
    update-IsSound p (revoke now reason) rows held drawn (λ s. (refl, refl, refl)) h

pub filter-IsSound :
    (k : SessionRow → Bool) (rows held : List SessionRow) (drawn : List ℕ)
    → IsSound rows held drawn
    → IsSound (filter_where k rows) held drawn
filter-IsSound k rows held drawn h = record {
  keyed = Keyed-filter_where (λ s. s.id) k rows h.keyed;
  single = λ g. omega (arith, h.single g, count_where-filter_where (is_live g) k rows);
  rows_drawn = All-filter_where (IsDrawn drawn) k rows h.rows_drawn;
  held_drawn = h.held_drawn;
  alike =
      All-map {P = IsAlike rows} {Q = IsAlike (filter_where k rows)} held
        (λ x a. All-filter_where (λ r. (r.id == x.id) ≡ true → r.family_id ≡ x.family_id) k rows a)
        h.alike;
}

pub draw-IsSound :
    (n : ℕ) (rows held : List SessionRow) (drawn : List ℕ)
    → IsSound rows held drawn
    → IsSound rows held (n ∷ drawn)
draw-IsSound n rows held drawn h = record {
  keyed = h.keyed;
  single = h.single;
  rows_drawn = All-map rows (λ s d. (ground (arith, d.0), ground (arith, d.1))) h.rows_drawn;
  held_drawn = All-map held (λ s d. (ground (arith, d.0), ground (arith, d.1))) h.held_drawn;
  alike = h.alike;
}

-- An identifier that was not drawn differs from one that was.
pub drawn_apart :
    (m n : ℕ) (drawn : List ℕ)
    → is_drawn m drawn ≡ false
    → is_drawn n drawn ≡ true
    → (m == n) ≡ false
drawn_apart m n drawn fresh old = elim (Bool-cases (m == n)) [
  | inr apart ↦ apart
  | inl same ↦ let e = (==_iff m n).0 same in ground arith
]

-- A row with a new id, in a family without a live session.
pub append-IsSound :
    (rows held : List SessionRow) (drawn : List ℕ) (y : SessionRow)
    → is_drawn y.id drawn ≡ false
    → count_where (is_live y.family_id) rows ≡ 0
    → is_drawn y.family_id (y.id ∷ drawn) ≡ true
    → IsSound rows held drawn
    → IsSound (rows ++ y ∷ []) held (y.id ∷ drawn)
append-IsSound rows held drawn y fresh vacant family h =
    let more = draw-IsSound y.id rows held drawn h in
    record {
      keyed =
          Keyed-append (λ s. s.id) rows y h.keyed
            (All-map rows (λ s d. drawn_apart y.id s.id drawn fresh d.0) h.rows_drawn);
      single = λ g. one g (Bool-cases (y.family_id == g));
      rows_drawn =
          All-append (IsDrawn (y.id ∷ drawn)) rows more.rows_drawn
            (ground (arith, ==_refl y.id), family);
      held_drawn = more.held_drawn;
      alike =
          All-both {P = IsDrawn drawn} {Q = IsAlike rows} {R = IsAlike (rows ++ y ∷ [])} held
            (λ x d a.
              All-append (λ r. (r.id == x.id) ≡ true → r.family_id ≡ x.family_id) rows a
                (λ e. absurd (ground (arith, e, drawn_apart y.id x.id drawn fresh d.0))))
            h.held_drawn h.alike;
    }
  where
    one :
        (g : ℕ)
        → ((y.family_id == g) ≡ true) ⊎ ((y.family_id == g) ≡ false)
        → count_where (is_live g) (rows ++ y ∷ []) ≤ 1
    one g (inl same) =
        let e = (==_iff y.family_id g).0 same in
        ground (arith, count_where-append (is_live g) rows y, vacant)
    one g (inr other) = ground (arith, count_where-append (is_live g) rows y, h.single g)
