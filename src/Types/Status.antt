-- ===== src/Types/Status.antt =====
-- StatusType of api/types/desired_state_feedback.go. `other` stands for a text that is none of the
-- named constants; `other ""` is the zero value.
use update_manager.Base.{
  ℕ, String, Bool, true, ◌≡◌, refl, sym, ◌∙◌, ap, subst, ◌↔◌, ◌≢◌, arith, str_eq, eq_iff, nat_beq,
  nat_beq_iff, if◌then◌else◌, Eq,
}

pub data StatusType : Type 0 where
  identifying identified identification_failed running completed incomplete : StatusType
  incomplete_inconsistent superseded : StatusType
  downloading download_success download_failure : StatusType
  rollback rollback_success rollback_failure : StatusType
  updating update_success update_failure : StatusType
  activating activation_success activation_failure : StatusType
  cleanup cleanup_success cleanup_failure : StatusType
  other : String → StatusType

-- The zero value of the Go type.
abbrev pub no_status : StatusType
no_status = other ""

tag : StatusType → ℕ
tag (other s) = 0
tag identifying = 1
tag identified = 2
tag identification_failed = 3
tag running = 4
tag completed = 5
tag incomplete = 6
tag incomplete_inconsistent = 7
tag superseded = 8
tag downloading = 9
tag download_success = 10
tag download_failure = 11
tag rollback = 12
tag rollback_success = 13
tag rollback_failure = 14
tag updating = 15
tag update_success = 16
tag update_failure = 17
tag activating = 18
tag activation_success = 19
tag activation_failure = 20
tag cleanup = 21
tag cleanup_success = 22
tag cleanup_failure = 23

-- The `==` of two statuses.
unfoldable pub status_beq : StatusType → StatusType → Bool
unfolding tag
status_beq (other s) (other t) = str_eq s t
status_beq a b = nat_beq (tag a) (tag b)

status_beq_self : (a : StatusType) → status_beq a a ≡ true
unfolding status_beq
status_beq_self (other s) = (eq_iff s s).1 refl
status_beq_self identified = refl
status_beq_self _ = refl

of_tag : ℕ → StatusType
of_tag n =
    if nat_beq n 1
    then identifying
    else if nat_beq n 2
    then identified
    else if nat_beq n 3
    then identification_failed
    else if nat_beq n 4
    then running
    else if nat_beq n 5
    then completed
    else if nat_beq n 6
    then incomplete
    else if nat_beq n 7
    then incomplete_inconsistent
    else if nat_beq n 8
    then superseded
    else if nat_beq n 9
    then downloading
    else if nat_beq n 10
    then download_success
    else if nat_beq n 11
    then download_failure
    else if nat_beq n 12
    then rollback
    else if nat_beq n 13
    then rollback_success
    else if nat_beq n 14
    then rollback_failure
    else if nat_beq n 15
    then updating
    else if nat_beq n 16
    then update_success
    else if nat_beq n 17
    then update_failure
    else if nat_beq n 18
    then activating
    else if nat_beq n 19
    then activation_success
    else if nat_beq n 20
    then activation_failure
    else if nat_beq n 21
    then cleanup
    else if nat_beq n 22
    then cleanup_success
    else cleanup_failure

of_tag-tag : (a : StatusType) → tag a ≢ 0 → of_tag (tag a) ≡ a
unfolding of_tag tag
of_tag-tag (other s) h = absurd (h refl)
of_tag-tag identified h = refl
of_tag-tag _ h = refl

tag_injective : (a b : StatusType) → tag a ≢ 0 → tag a ≡ tag b → a ≡ b
tag_injective a b h e = sym (of_tag-tag a h) ∙ ap of_tag e ∙ of_tag-tag b (λ z. h (e ∙ z))

eq_of_beq : (a b : StatusType) → status_beq a b ≡ true → a ≡ b
unfolding status_beq tag
eq_of_beq (other s) (other t) h = ap other ((eq_iff s t).0 h)
eq_of_beq (other s) identified h = ground arith
eq_of_beq (other s) _ h = ground arith
eq_of_beq identified b h = tag_injective identified b (λ z. omega arith) ((nat_beq_iff _ _).0 h)
eq_of_beq a b h = tag_injective a b (λ z. omega arith) ((nat_beq_iff _ _).0 h)

pub status_beq_iff : (a b : StatusType) → (status_beq a b ≡ true) ↔ (a ≡ b)
status_beq_iff a b = (eq_of_beq a b, λ e. subst (λ c. status_beq a c ≡ true) e (status_beq_self a))

instance abbrev pub status_eq : Eq StatusType
status_eq = record { test = status_beq; agrees = status_beq_iff }
