-- ===== src/Net/Msg.antt =====
-- src/net.rs: `ErasedNetMsg` and `NetMsg`.
use carrier_pigeon.Base.{
  ℕ, List, [], ◌∷◌, ◌++◌, Option, none, some, Io, ok, panic, ◌>>=◌, get_elem?,
}
use carrier_pigeon.Base.Buffer.{set}
use carrier_pigeon.Net.{CId, MId, TypeId, Any, downcast_ref}

pub record ErasedNetMsg (V : Type 0) : Type 0 where
  pub cid : CId
  pub time : Option ℕ
  pub msg : Any V

pub record NetMsg (V : Type 0) : Type 0 where
  pub cid : CId
  pub time : Option ℕ
  pub m : V

-- `Deref::deref`.
unfoldable deref : {V : Type 0} → NetMsg V → V
deref self = self.m

unfoldable pub to_typed : {V : Type 0} → TypeId → ErasedNetMsg V → Option (NetMsg V)
unfolding downcast_ref
to_typed tid e = elim (downcast_ref tid e.msg) [
  | none ↦ none
  | some msg ↦ some (record { cid = e.cid; time = e.time; m = msg })
]

module _ {V : Type 0} where
  -- `iter().map(|m| m.to_typed::<T>().unwrap())`, collected: a message of another type panics.
  unfoldable pub to_typed_all : TypeId → List (ErasedNetMsg V) → Io (List (NetMsg V))
  unfolding to_typed
  to_typed_all tid [] = ok []
  to_typed_all tid (e ∷ es) = elim (to_typed tid e) [
    | none ↦ panic
    | some m ↦ to_typed_all tid es >>= λ ms. ok (m ∷ ms)
  ]

  -- `self.msg_buff[mid].push(msg)`, which panics out of range.
  unfoldable pub push :
      List (List (ErasedNetMsg V)) → MId → ErasedNetMsg V → Io (List (List (ErasedNetMsg V)))
  push buff mid msg = elim (get_elem? buff mid) [
    | none ↦ panic
    | some msgs ↦ ok (set buff mid (msgs ++ msg ∷ []))
  ]

  -- `for buff in self.msg_buff.iter_mut() { buff.clear() }`.
  unfoldable pub clear_all : List (List (ErasedNetMsg V)) → List (List (ErasedNetMsg V))
  clear_all [] = []
  clear_all (msgs ∷ buff) = [] ∷ clear_all buff
