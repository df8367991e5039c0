-- ===== src/Access/Filter.antt =====
-- The query scopes that the policies hand to the database: a `where` object as the list of its
-- conditions, all of which a row must meet, and the row that it is put to.
use labour_baba_backend.Base.{ℕ, Bool, true, ◌&&◌, Option, none, some, List, [], ◌∷◌, ◌==◌}

-- The parties of a booking, as the policies on bookings, payments, reviews and chats see them.
pub record Parties : Type 0 where
  pub id : ℕ
  pub customer_id : ℕ
  pub worker_id : ℕ

pub data Condition : Type 0 where
  id_is customer_is worker_is : ℕ → Condition

-- The id that no row has: the nil UUID.
abbrev pub nil_id : ℕ
nil_id = 0

abbrev pub meets : Parties → Condition → Bool
meets b (id_is n) = b.id == n
meets b (customer_is n) = b.customer_id == n
meets b (worker_is n) = b.worker_id == n

abbrev pub meets_all : Parties → List Condition → Bool
meets_all b [] = true
meets_all b (c ∷ cs) = meets b c && meets_all b cs

-- `id ? { id } : {}`
abbrev pub id_filter : Option ℕ → List Condition
id_filter none = []
id_filter (some n) = id_is n ∷ []

-- Whether a row is the one asked for: any, when no id is given.
abbrev pub is_asked : Option ℕ → ℕ → Bool
is_asked none _ = true
is_asked (some n) i = i == n
