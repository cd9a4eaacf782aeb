-- ===== src/Server/Mirror/Laws.antt =====
-- Connections of src/server.rs that come and go.
use carrier_pigeon.Base.{
  ℕ, ◌≡◌, none, some, true, false, ok, ◌==◌, if◌then◌else◌, arith, Option-cases, inl, inr,
}
use carrier_pigeon.Base.HashMap
use carrier_pigeon.Base.HashMap.{get-insert, get-remove}
use carrier_pigeon.Net.{CId}
use carrier_pigeon.Tcp.{TcpCon}
use carrier_pigeon.Server.{Server, alive, rm_tcp_con}
use carrier_pigeon.Server.Mirror.{IsMirror}

module _ {V : Type 0} where
  abbrev pub with_con : Server V → CId → TcpCon → ℕ → Server V
  with_con self cid con addr = record self {
    tcp = HashMap.insert self.tcp cid con;
    addr_cid = HashMap.insert self.addr_cid addr cid;
    cid_addr = HashMap.insert self.cid_addr cid addr;
  }

  pub with_con-IsMirror :
      (self : Server V) (cid : CId) (con : TcpCon) (addr : ℕ)
      → IsMirror self
      → HashMap.get self.cid_addr cid ≡ none
      → HashMap.get self.addr_cid addr ≡ none
      → IsMirror (with_con self cid con addr)
  unfolding HashMap.contains_key
  with_con-IsMirror self cid con addr m new_cid new_addr = record {
    there = λ c a e. ground (
      arith,
      get-insert self.cid_addr cid addr c,
      get-insert self.addr_cid addr cid a,
      m.there c a,
    );
    back = λ a c e. ground (
      arith,
      get-insert self.cid_addr cid addr c,
      get-insert self.addr_cid addr cid a,
      m.back a c,
    );
    connected = λ c a e. ground (
      arith,
      get-insert self.cid_addr cid addr c,
      get-insert self.tcp cid con c,
      m.connected c a,
    );
    addressed = λ c e.
        ground (
          arith,
          get-insert self.cid_addr cid addr c,
          get-insert self.tcp cid con c,
          m.addressed c,
        );
  }

  abbrev without_con : Server V → CId → ℕ → Server V
  without_con self cid addr = record self {
    tcp = HashMap.remove self.tcp cid;
    cid_addr = HashMap.remove self.cid_addr cid;
    addr_cid = HashMap.remove self.addr_cid addr;
  }

  without_con-IsMirror :
      (self : Server V) (cid : CId) (addr : ℕ)
      → IsMirror self
      → HashMap.get self.cid_addr cid ≡ some addr
      → IsMirror (without_con self cid addr)
  unfolding HashMap.contains_key
  without_con-IsMirror self cid addr m here = record {
    there = λ c a e. ground (
      arith,
      get-remove self.cid_addr cid c,
      get-remove self.addr_cid addr a,
      m.there c a,
      m.there cid addr here,
      m.back a c,
    );
    back = λ a c e. ground (
      arith,
      get-remove self.cid_addr cid c,
      get-remove self.addr_cid addr a,
      m.back a c,
      m.there cid addr here,
    );
    connected = λ c a e.
        ground (arith, get-remove self.cid_addr cid c, get-remove self.tcp cid c, m.connected c a);
    addressed = λ c e.
        ground (arith, get-remove self.cid_addr cid c, get-remove self.tcp cid c, m.addressed c);
  }

  -- A connection that is alive is removed from all the tables, which still mirror each other; the
  -- other connections stay.
  pub rm_tcp_con-IsMirror :
      (self : Server V) (cid : CId)
      → IsMirror self
      → alive self cid ≡ true
      → (self' : Server V) × (rm_tcp_con self cid ≡ ok self')
        × IsMirror self'
        × ((c : CId) → alive self' c ≡ (if cid == c then false else alive self c))
        × ((c : CId)
            → HashMap.get self'.tcp c ≡ (if cid == c then none else HashMap.get self.tcp c))
  unfolding rm_tcp_con alive HashMap.contains_key
  rm_tcp_con-IsMirror self cid m up = elim (Option-cases (HashMap.get self.cid_addr cid)) [
    | inl gone ↦ absurd (ground arith)
    | inr (addr, here) ↦ elim (Option-cases (HashMap.get self.tcp cid)) [
      | inl gone ↦ absurd (ground (arith, m.connected cid addr here))
      | inr (con, held) ↦ (
        without_con self cid addr,
        rw (held, here, rm_tcp_con),
        without_con-IsMirror self cid addr m here,
        λ c. ground (arith, get-remove self.cid_addr cid c),
        λ c. get-remove self.tcp cid c,
      )
    ]
  ]
