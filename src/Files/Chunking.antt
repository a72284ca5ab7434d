-- ===== src/Files/Chunking.antt =====
-- The number of chunks that `fileinfo_from_filename` of src/file.c computes for a file.
use mini_dropbox.Prelude.{ℕ, suc, ◌+◌, ◌*◌, ◌^◌, ◌≤◌, ◌<◌, ◌≡◌, arith}
use mini_dropbox.Transfer.{chunk_size}
use mini_dropbox.Files.{float_exp, round_even, to_float_at, to_float, count_chunks}

exp_small : (fuel n : ℕ) → n < 2 ^ 24 → float_exp (suc fuel) n ≡ 0
unfolding float_exp
exp_small fuel n h = ground arith

exp_next : (fuel n : ℕ) → 2 ^ 24 ≤ n → n < 2 ^ 25 → float_exp (suc (suc fuel)) n ≡ 1
unfolding float_exp
exp_next fuel n h g = ground arith

to_float-small : (n : ℕ) → n < 2 ^ 24 → to_float n ≡ n
unfolding to_float to_float_at
to_float-small n h = rw (exp_small 63 n h)

-- Above 2 ^ 24 the even number below an odd one stays if its half is even.
to_float-tie : (k : ℕ) → k < 4096 → to_float (2 ^ 24 + 4096 * k + 1) ≡ 2 ^ 24 + 4096 * k
unfolding to_float to_float_at round_even
to_float-tie k h =
    rw (exp_next 62 (2 ^ 24 + 4096 * k + 1) (omega arith) (omega arith)) (ground arith)

-- For a file of less than 16 MiB the chunks cover the file, and one chunk fewer would not.
pub count_chunks-exact :
    (size : ℕ)
    → size < 2 ^ 24
    → (size ≤ count_chunks size * chunk_size) × (count_chunks size * chunk_size < size + chunk_size)
unfolding count_chunks
count_chunks-exact size h = rw (to_float-small size h) (omega arith, omega arith)

-- A file that is one byte longer than a number of whole chunks, from 16 MiB on and below 32 MiB,
-- loses its last byte: the count is rounded with the size to a `float`.
pub count_chunks-short :
    (k : ℕ) → k < 4096 → count_chunks (2 ^ 24 + 4096 * k + 1) * chunk_size ≡ 2 ^ 24 + 4096 * k
unfolding count_chunks
count_chunks-short k h = rw (to_float-tie k h) (omega arith)
