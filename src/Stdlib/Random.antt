-- ===== src/Stdlib/Random.antt =====
-- rand and srand of src/stdlib.c. The state is the word next_rand.
use c_lite.Base.{ℕ, ◌+◌, ◌*◌, ◌/◌, ◌%◌, ◌^◌}

-- RAND_MAX of include/stdlib.h
abbrev pub rand_max : ℕ
rand_max = 32767

unfoldable pub rand : ℕ → ℕ × ℕ
rand next_rand =
    let next = (next_rand * 1103515245 + 12345) % 2 ^ 32 in (next / 65536 % (rand_max + 1), next)

unfoldable pub srand : ℕ → ℕ
srand seed = seed
