-- ===== src/Net.antt =====
-- src/net.rs: what both transports share.
--
-- A value of a Rust type that may be sent is a number for its type (`TypeId`) with a value of `V`;
-- a generic parameter `T` of the source is such a number, as `TypeId::of::<T>()` gives it.
pub mod Status
pub mod CIdSpec
pub mod Config
pub mod Msg
pub mod Filed
mod Tests
use carrier_pigeon.Base.{ℕ, List, Option, none, some, Io, ErrorKind, ◌==◌, if◌then◌else◌}

-- `MAX_SAFE_MESSAGE_SIZE`.
abbrev pub max_safe_message_size : ℕ
max_safe_message_size = 504

-- `MId` (a `usize`), `CId` (a `u32`) and `TypeId`.
abbrev pub MId : Type 0
MId = ℕ

abbrev pub CId : Type 0
CId = ℕ

abbrev pub TypeId : Type 0
TypeId = ℕ

pub data Transport : Type 0 where
  tcp udp : Transport

-- `Box<dyn Any + Send + Sync>`.
pub record Any (V : Type 0) : Type 0 where
  pub tid : TypeId
  pub value : V

-- `downcast_ref::<T>()`, and `downcast::<T>()` of a box.
unfoldable pub downcast_ref : {V : Type 0} → TypeId → Any V → Option V
downcast_ref tid a = if a.tid == tid then some a.value else none

abbrev pub DeserFn : Type 0 → Type 0
DeserFn V = List ℕ → Io (Any V)

abbrev pub SerFn : Type 0 → Type 0
SerFn V = Any V → Io (List ℕ)
