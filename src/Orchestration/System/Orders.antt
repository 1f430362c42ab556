-- ===== src/Orchestration/System/Orders.antt =====
-- The statuses of the domains while their agents report, one after the other and in any order, that they have
-- ended a phase.
use update_manager.Base.{
  String, Bool, true, false, ◌≡◌, refl, ap, some, List, [], ◌∷◌, any, All, lookup, insert, has_key,
  string_eq, eq_iff, if◌then◌else◌, arith,
}
use update_manager.Util.{contains}
use update_manager.Util.Keys.{IsDistinct}
use update_manager.Types.{StatusType}
use update_manager.Orchestration.Session.{values}

-- Of the domains `ks`, those of `reported` are in the status `b`, and the others still in `a`.
unfoldable pub mixed :
    StatusType → StatusType → List String → List String → List (String × StatusType)
mixed a b reported [] = []
mixed a b reported (k ∷ ks) = (k, if contains reported k then b else a) ∷ mixed a b reported ks

module _ (a b : StatusType) where
  mixed-skip :
      (d : String) (reported ks : List String)
      → contains ks d ≡ false
      → mixed a b (d ∷ reported) ks ≡ mixed a b reported ks
  unfolding mixed contains
  mixed-skip d reported [] h = refl
  mixed-skip d reported (k ∷ ks) h =
      ground (arith, eq_iff k d, eq_iff d k, mixed-skip d reported ks)

  pub insert-mixed :
      (d : String) (reported ks : List String)
      → contains ks d ≡ true
      → IsDistinct ks
      → insert d b (mixed a b reported ks) ≡ mixed a b (d ∷ reported) ks
  unfolding mixed contains insert
  insert-mixed d reported [] h u = cc
  insert-mixed d reported (k ∷ ks) h (fresh, u) =
      ground (arith, eq_iff k d, eq_iff d k, mixed-skip d reported ks, insert-mixed d reported ks)

  pub lookup-mixed :
      (d : String) (reported ks : List String)
      → contains ks d ≡ true
      → contains reported d ≡ false
      → lookup d (mixed a b reported ks) ≡ some a
  unfolding mixed contains
  lookup-mixed d reported [] h n = cc
  lookup-mixed d reported (k ∷ ks) h n =
      ground (arith, eq_iff k d, eq_iff d k, lookup-mixed d reported ks)

  pub has_key-mixed :
      (d : String) (reported ks : List String)
      → contains ks d ≡ true
      → has_key d (mixed a b reported ks) ≡ true
  unfolding mixed contains
  has_key-mixed d reported [] h = cc
  has_key-mixed d reported (k ∷ ks) h =
      ground (arith, eq_iff k d, eq_iff d k, has_key-mixed d reported ks)

  -- A domain that has not reported is still in the first status.
  pub any-mixed :
      (p : StatusType → Bool) (d : String) (reported ks : List String)
      → p a ≡ true
      → contains ks d ≡ true
      → contains reported d ≡ false
      → any p (values (mixed a b reported ks)) ≡ true
  unfolding mixed contains
  any-mixed p d reported [] q h n = cc
  any-mixed p d reported (k ∷ ks) q h n =
      ground (arith, eq_iff k d, eq_iff d k, any-mixed p d reported ks)

-- Every domain has reported.
abbrev pub Covers : List String → List String → Type 0
Covers reported ks = All (λ k. contains reported k ≡ true) ks

-- All domains in one status.
unfoldable pub all_in : StatusType → List String → List (String × StatusType)
all_in a [] = []
all_in a (k ∷ ks) = (k, a) ∷ all_in a ks

module _ (a b : StatusType) where
  pub mixed-none : (ks : List String) → mixed a b [] ks ≡ all_in a ks
  unfolding mixed all_in contains
  mixed-none [] = refl
  mixed-none (k ∷ ks) = ap (λ m. (k, a) ∷ m) (mixed-none ks)

  pub mixed-all :
      (reported ks : List String) → Covers reported ks → mixed a b reported ks ≡ all_in b ks
  unfolding mixed all_in
  mixed-all reported [] h = refl
  mixed-all reported (k ∷ ks) (h, hs) = ground (arith, mixed-all reported ks hs)

pub any-all_in :
    (p : StatusType → Bool) (a : StatusType) (ks : List String)
    → p a ≡ false
    → any p (values (all_in a ks)) ≡ false
unfolding all_in
any-all_in p a [] h = refl
any-all_in p a (k ∷ ks) h = ground (arith, any-all_in p a ks)
