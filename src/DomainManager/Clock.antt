-- ===== src/DomainManager/Clock.antt =====
-- The order of timestamps.
use update_manager.Base.{◌≡◌, refl, false, ℤ, pos, negsuc, lt_int, arith}

-- `a ≤ b`
abbrev pub IsUpTo : ℤ → ℤ → Type 0
IsUpTo a b = lt_int b a ≡ false

pub IsUpTo-refl : (a : ℤ) → IsUpTo a a
IsUpTo-refl (pos n) = ground arith
IsUpTo-refl (negsuc n) = ground arith

pub IsUpTo-trans : (a b c : ℤ) → IsUpTo a b → IsUpTo b c → IsUpTo a c
IsUpTo-trans (pos a) (pos b) (pos c) h k = ground arith
IsUpTo-trans (pos a) (pos b) (negsuc c) h k = cc
IsUpTo-trans (pos a) (negsuc b) c h k = cc
IsUpTo-trans (negsuc a) b (pos c) h k = refl
IsUpTo-trans (negsuc a) (pos b) (negsuc c) h k = cc
IsUpTo-trans (negsuc a) (negsuc b) (negsuc c) h k = ground arith
