-- ===== src/Server/Mirror.antt =====
-- src/server.rs: the tables of a server's connections, which mirror each other.
pub mod Laws
pub mod Kept
pub mod Arrivals
pub mod Received
pub mod Accepted
pub mod Waiting
pub mod Removed
pub mod Hooked
pub mod Pending
pub mod Reach
mod Tests
use carrier_pigeon.Base.{
  List, map, Io, ℕ, ◌≡◌, refl, Option, none, some, Bool, true, false, ok, ◌↔◌, ◌≢◌, arith, All,
  Distinct, ◌≤◌,
}
use carrier_pigeon.Base.HashMap
use carrier_pigeon.Net.{CId}
use carrier_pigeon.Server.{NewCon, Server, alive}

-- What a waiting connection will be known by.
abbrev pub Tag : Type 0
Tag = CId × Io ℕ

abbrev pub tags : List NewCon → List Tag
tags news = map (λ n. (n.cid, n.con.tcp.peer_addr)) news

-- The two address tables are each other's inverses, and each connection has an address.
pub record IsMirror {V : Type 0} (self : Server V) : Type 0 where
  pub there :
      (cid : CId) (addr : ℕ)
      → HashMap.get self.cid_addr cid ≡ some addr
      → HashMap.get self.addr_cid addr ≡ some cid
  pub back :
      (addr : ℕ) (cid : CId)
      → HashMap.get self.addr_cid addr ≡ some cid
      → HashMap.get self.cid_addr cid ≡ some addr
  pub connected :
      (cid : CId) (addr : ℕ)
      → HashMap.get self.cid_addr cid ≡ some addr
      → HashMap.contains_key self.tcp cid ≡ true
  pub addressed :
      (cid : CId) → HashMap.get self.cid_addr cid ≡ none → HashMap.contains_key self.tcp cid ≡ false

-- The numbers of those that wait differ, no connection has them, and no number in use is past the
-- last one that was given.
pub record IsNumbered {V : Type 0} (self : Server V) (ts : List Tag) : Type 0 where
  pub bounded : All (λ t. t.0 ≤ self.current_cid) ts
  pub new_cids : All (λ t. HashMap.get self.cid_addr t.0 ≡ none) ts
  pub cids : Distinct (λ t. t.0) ts
  pub below :
      (cid : CId) (addr : ℕ) → HashMap.get self.cid_addr cid ≡ some addr → cid ≤ self.current_cid

-- Those that wait have addresses, which differ, and which no connection has.
pub record HaveAddrs {V : Type 0} (self : Server V) (ts : List Tag) : Type 0 where
  pub known : All (λ t. (addr : ℕ) × (t.1 ≡ ok addr) × (HashMap.get self.addr_cid addr ≡ none)) ts
  pub addrs : Distinct (λ t. t.1) ts

-- What holds of a server between two calls.
abbrev pub Sound : {V : Type 0} → Server V → Type 0
Sound self = IsMirror self × IsNumbered self (tags self.new_cons)
