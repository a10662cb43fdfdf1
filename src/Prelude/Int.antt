-- ===== src/Prelude/Int.antt =====
-- Signed integers over the native numbers, and the order of an optional one.
use Prim.Native.Nat.{ℕ}
use mathlib.Core.Path.{◌≡◌, refl, ap}
use mathlib.Core.Bool.{Bool, true, false}
use mathlib.Core.Option.{Option, none, some}
use native.Mathlib.Omega.{arith}
use obolus.Prelude.Tests.{ltb}

-- `negsuc n` is -(n + 1).
pub data ℤ : Type 0 where
  pos : ℕ → ℤ
  negsuc : ℕ → ℤ

abbrev pub lt_int : ℤ → ℤ → Bool
lt_int (pos a) (pos b) = ltb a b
lt_int (pos a) (negsuc b) = false
lt_int (negsuc a) (pos b) = true
lt_int (negsuc a) (negsuc b) = ltb b a

-- `<` on `Option<i64>`: `None` is below every value.
unfoldable pub lt_rank : Option ℤ → Option ℤ → Bool
lt_rank a none = false
lt_rank none (some b) = true
lt_rank (some a) (some b) = lt_int a b

pub lt_rank_irrefl : (a : Option ℤ) → lt_rank a a ≡ false
unfolding lt_rank
lt_rank_irrefl none = refl
lt_rank_irrefl (some (pos a)) = ground arith
lt_rank_irrefl (some (negsuc a)) = ground arith

-- Not being below is transitive, and it is mutual only between equals.
pub lt_rank_trans :
    (a b c : Option ℤ) → lt_rank b a ≡ false → lt_rank c b ≡ false → lt_rank c a ≡ false
unfolding lt_rank
lt_rank_trans none none none h k = refl
lt_rank_trans none none (some c) h k = cc
lt_rank_trans none (some b) c h k = cc
lt_rank_trans (some a) none none h k = cc
lt_rank_trans (some a) none (some c) h k = cc
lt_rank_trans (some a) (some b) none h k = cc
lt_rank_trans (some (pos a)) (some (pos b)) (some (pos c)) h k = ground arith
lt_rank_trans (some (pos a)) (some (pos b)) (some (negsuc c)) h k = ground arith
lt_rank_trans (some (pos a)) (some (negsuc b)) (some (pos c)) h k = ground arith
lt_rank_trans (some (pos a)) (some (negsuc b)) (some (negsuc c)) h k = ground arith
lt_rank_trans (some (negsuc a)) (some (pos b)) (some (pos c)) h k = refl
lt_rank_trans (some (negsuc a)) (some (pos b)) (some (negsuc c)) h k = cc
lt_rank_trans (some (negsuc a)) (some (negsuc b)) (some (pos c)) h k = cc
lt_rank_trans (some (negsuc a)) (some (negsuc b)) (some (negsuc c)) h k = ground arith

pub lt_rank_asym : (a b : Option ℤ) → lt_rank a b ≡ true → lt_rank b a ≡ false
unfolding lt_rank
lt_rank_asym a none h = cc
lt_rank_asym none (some b) h = refl
lt_rank_asym (some (pos a)) (some (pos b)) h = ground arith
lt_rank_asym (some (pos a)) (some (negsuc b)) h = cc
lt_rank_asym (some (negsuc a)) (some (pos b)) h = refl
lt_rank_asym (some (negsuc a)) (some (negsuc b)) h = ground arith

pub lt_rank_antisym : (a b : Option ℤ) → lt_rank a b ≡ false → lt_rank b a ≡ false → a ≡ b
unfolding lt_rank
lt_rank_antisym none none h k = refl
lt_rank_antisym none (some b) h k = cc
lt_rank_antisym (some a) none h k = cc
lt_rank_antisym (some (pos a)) (some (pos b)) h k = ap (λ x. some (pos x)) (ground arith)
lt_rank_antisym (some (pos a)) (some (negsuc b)) h k = cc
lt_rank_antisym (some (negsuc a)) (some (pos b)) h k = cc
lt_rank_antisym (some (negsuc a)) (some (negsuc b)) h k = ap (λ x. some (negsuc x)) (ground arith)
