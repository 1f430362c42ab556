-- ===== src/Types/Command.antt =====
-- CommandType and DesiredStateCommand of api/types/desired_state.go.
use update_manager.Base.{String, Bool, true, ◌≡◌, refl, subst, ◌↔◌, str_eq, eq_iff, Eq, false, ap}

-- `other` stands for a text that is none of the named constants.
pub data CommandType : Type 0 where
  download update activate rollback cleanup : CommandType
  other : String → CommandType

-- The `==` of two commands.
unfoldable pub command_beq : CommandType → CommandType → Bool
command_beq (other s) (other t) = str_eq s t
command_beq download download = true
command_beq update update = true
command_beq activate activate = true
command_beq rollback rollback = true
command_beq cleanup cleanup = true
command_beq _ _ = false

command_beq_self : (a : CommandType) → command_beq a a ≡ true
unfolding command_beq
command_beq_self (other s) = (eq_iff s s).1 refl
command_beq_self _ = refl

eq_of_beq : (a b : CommandType) → command_beq a b ≡ true → a ≡ b
unfolding command_beq
eq_of_beq (other s) (other t) h = ap other ((eq_iff s t).0 h)
eq_of_beq download download h = refl
eq_of_beq update update h = refl
eq_of_beq activate activate h = refl
eq_of_beq rollback rollback h = refl
eq_of_beq cleanup cleanup h = refl
eq_of_beq _ _ h = cc

pub command_beq_iff : (a b : CommandType) → (command_beq a b ≡ true) ↔ (a ≡ b)
command_beq_iff a b =
    (eq_of_beq a b, λ e. subst (λ c. command_beq a c ≡ true) e (command_beq_self a))

instance abbrev pub command_eq : Eq CommandType
command_eq = record { test = command_beq; agrees = command_beq_iff }

pub record DesiredStateCommand : Type 0 where
  pub command : CommandType
  pub baseline : String
