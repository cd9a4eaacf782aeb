-- ===== src/Net/Config.antt =====
-- src/net.rs: `Config`. A `Duration` is a number of milliseconds.
use carrier_pigeon.Base.{ℕ}

pub record Config : Type 0 where
  pub timeout : ℕ
  pub max_con_handle : ℕ
  pub max_msg_size : ℕ

unfoldable pub new : ℕ → ℕ → ℕ → Config
new timeout max_con_handle max_msg_size = record {
  timeout = timeout;
  max_con_handle = max_con_handle;
  max_msg_size = max_msg_size;
}

unfoldable pub default : Config
default = record { timeout = 5_000; max_con_handle = 4; max_msg_size = 2048 }
