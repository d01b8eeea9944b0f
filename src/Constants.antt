-- ===== src/Constants.antt =====
-- include/utils/constants.h: the constants that the program's logic reads, and the moduli of its
-- fixed-width types.
use transaction_manager.Shared.{ℕ, ◌*◌, ◌^◌}

-- uint32_t
abbrev pub u32_mod : ℕ
u32_mod = 2 ^ 32

-- size_t on a 64-bit platform
abbrev pub u64_mod : ℕ
u64_mod = 2 ^ 64

abbrev pub initial_txn_id : ℕ
initial_txn_id = 1

abbrev pub max_record_size : ℕ
max_record_size = 1024 * 1024
