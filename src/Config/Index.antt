-- ===== src/Config/Index.antt =====
-- The index macros of libpaxos_priv.h are remainders, stay in their arrays, and tell apart the
-- instances of any window that is no wider than the array.
use libfastpaxos.Base.{ℕ, ◌%◌, ◌<◌, ◌≡◌, ap, arith}
use libfastpaxos.Base.Int.{ℤ, pos, negsuc, ◌≤ℤ◌, ◌<ℤ◌, ◌+ℤ◌, +ℤ_parts, word32}
use libfastpaxos.Base.Bits.{bit_and_511, bit_and_1023}
use libfastpaxos.Config.{get_acc_index, get_lea_index, get_pro_index}

pub get_acc_index-pos : (n : ℕ) → get_acc_index (pos n) ≡ n % 1024
unfolding get_acc_index
get_acc_index-pos n = omega (arith, bit_and_1023 (word32 (pos n)))

pub get_lea_index-pos : (n : ℕ) → get_lea_index (pos n) ≡ n % 512
unfolding get_lea_index
get_lea_index-pos n = omega (arith, bit_and_511 (word32 (pos n)))

pub get_pro_index-pos : (n : ℕ) → get_pro_index (pos n) ≡ n % 512
unfolding get_pro_index
get_pro_index-pos n = omega (arith, bit_and_511 (word32 (pos n)))

pub get_acc_index-lt : (n : ℤ) → get_acc_index n < 1024
unfolding get_acc_index
get_acc_index-lt n = omega (arith, bit_and_1023 (word32 n))

pub get_lea_index-lt : (n : ℤ) → get_lea_index n < 512
unfolding get_lea_index
get_lea_index-lt n = omega (arith, bit_and_511 (word32 n))

pub get_pro_index-lt : (n : ℤ) → get_pro_index n < 512
unfolding get_pro_index
get_pro_index-lt n = omega (arith, bit_and_511 (word32 n))

-- Within a window of 512 instances from `low` on, an index names one instance.
pub get_lea_index-injective :
    (low a b : ℤ)
    → pos 0 ≤ℤ low
    → low ≤ℤ a
    → low ≤ℤ b
    → a <ℤ low +ℤ pos 512
    → b <ℤ low +ℤ pos 512
    → get_lea_index a ≡ get_lea_index b
    → a ≡ b
get_lea_index-injective low (pos a) (pos b) z la lb ha hb e =
    ap pos (omega (arith, get_lea_index-pos a, get_lea_index-pos b, +ℤ_parts low (pos 512)))
get_lea_index-injective low (negsuc a) b z la lb ha hb e = absurd (omega arith)
get_lea_index-injective low (pos a) (negsuc b) z la lb ha hb e = absurd (omega arith)
