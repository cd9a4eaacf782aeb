-- ===== src/Table/Parts/Codec.antt =====
-- How a client and a server use the parts: a message to its number, transport and bytes, and back.
use carrier_pigeon.Base.{ℕ, List, none, some, Io, ok, err, panic, if◌then◌else◌, get_elem?, ◌>>=◌}
use carrier_pigeon.Base.Results.{invalid_data}
use carrier_pigeon.Base.HashMap
use carrier_pigeon.Net.{MId, TypeId, Any, Transport}
use carrier_pigeon.Table.Parts.{MsgTableParts, valid_mid, valid_tid}

-- `v[i]`, which panics out of range.
unfoldable pub index {ℓ} : {A : Type ℓ} → List A → ℕ → Io A
index xs i = elim (get_elem? xs i) [ none ↦ panic | some a ↦ ok a ]

module _ {V : Type 0} where
  -- `self.parts.tid_map[&tid]`, which panics where there is no such key.
  unfoldable pub mid_of : MsgTableParts V → TypeId → Io MId
  mid_of p tid = elim (HashMap.get p.tid_map tid) [ none ↦ panic | some mid ↦ ok mid ]

  -- The first half of `send`.
  unfoldable pub encode : MsgTableParts V → Any V → Io (MId × Transport × List ℕ)
  unfolding index mid_of valid_tid
  encode p msg =
      if valid_tid p msg.tid
      then (do
        mid ← mid_of p msg.tid
        transport ← index p.transports mid
        ser_fn ← index p.ser mid
        b ← ser_fn msg
        ok (mid, transport, b))
      else err invalid_data

  -- The second half of `recv_tcp` and `recv_udp`.
  unfoldable pub decode : MsgTableParts V → MId → List ℕ → Io (Any V)
  unfolding index valid_mid
  decode p mid bytes =
      if valid_mid p mid
      then (do deser_fn ← index p.deser mid; deser_fn bytes)
      else err invalid_data
