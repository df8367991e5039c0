-- ===== src/Access/Role.antt =====
-- src/type/userRole.ts and the actor roles of the three lifecycle modules. A role is a string:
-- a constructor for each string that the program names, `other` for any further one.
use labour_baba_backend.Base.{
  ℕ, Bool, true, false, ◌||◌, List, [], ◌∷◌, Text, text, text_eq, to_lower, ◌≡◌, text_eq_unique,
}

pub data Role : Type 0 where
  customer worker admin system dispatch_worker : Role
  other : Text → Role

abbrev pub role_text : Role → Text
role_text customer = text "customer"
role_text worker = text "worker"
role_text admin = text "admin"
role_text system = text "SYSTEM"
role_text dispatch_worker = text "DISPATCH_WORKER"
role_text (other t) = t

-- `String(role).toLowerCase() === name`
unfoldable pub lower_is : Role → Text → Bool
lower_is r name = text_eq (to_lower (role_text r)) name

pub lower_is_unique :
    (r : Role) (s t : Text) → lower_is r s ≡ true → lower_is r t ≡ true → text_eq s t ≡ true
unfolding lower_is
lower_is_unique r s t p q = text_eq_unique (to_lower (role_text r)) s t p q

-- `a === b` on roles
abbrev pub same_role : Role → Role → Bool
same_role customer customer = true
same_role worker worker = true
same_role admin admin = true
same_role system system = true
same_role dispatch_worker dispatch_worker = true
same_role (other s) (other t) = text_eq s t
same_role _ _ = false

-- `roles.includes(role)`
abbrev pub role_in : List Role → Role → Bool
role_in [] r = false
role_in (q ∷ qs) r = same_role q r || role_in qs r

-- `isValidUserRole`
abbrev pub is_valid_user_role : Text → Bool
is_valid_user_role t =
    text_eq t (text "customer") || (text_eq t (text "worker") || text_eq t (text "admin"))

-- `AuthenticatedUser`: identifiers are compared only, so they are numbers.
pub record Actor : Type 0 where
  pub id : ℕ
  pub role : Role
