-- ===== src/Shared/Int/Wrap.antt =====
-- Arithmetic of Go's 64-bit `int`: a result out of range wraps around.
use batchq.Shared.Tests.{ltb, if◌then◌else◌}
use Prim.Native.Nat.{ℕ, suc, ◌-◌, ◌*◌, ◌%◌, ◌^◌}
use batchq.Shared.Int.{ℤ, pos, negsuc}

-- The number of 64 bits that is the same modulo 2 ^ 64.
unfoldable pub wrap : ℤ → ℤ
wrap (pos n) = let m = n % 2 ^ 64 in if ltb m (2 ^ 63) then pos m else negsuc (2 ^ 64 - 1 - m)
wrap (negsuc n) = let m = n % 2 ^ 64 in if ltb m (2 ^ 63) then negsuc m else pos (2 ^ 64 - 1 - m)

-- The product by a constant of the code.
unfoldable pub scale : ℕ → ℤ → ℤ
unfolding wrap
scale k (pos n) = wrap (pos (k * n))
scale k (negsuc n) = wrap (negsuc (k * suc n - 1))
