-- ===== src/Chat/Laws.antt =====
-- The table of the chatroom, examples/shared.rs, and what a client with it receives.
use carrier_pigeon.Base.{◌≡◌, ◌≢◌, ne→==, refl, sym, subst, List, [], ◌∷◌, map, ok, inl, inr, arith}
use carrier_pigeon.Net.{tcp, udp}
use carrier_pigeon.Net.Msg.{NetMsg}
use carrier_pigeon.Table.{Bincode, Entry}
use carrier_pigeon.Table.Parts.{MsgTableParts, fill, no_parts}
use carrier_pigeon.Table.Parts.Typed.{IsBuilt, IsBuilt-IsIndexOf, as_net_msg}
use carrier_pigeon.Table.Plain as MsgTable
use carrier_pigeon.Table.Plain.Laws.{entry_of}
use carrier_pigeon.Client.{Client}
use carrier_pigeon.Client.Receive.{recv}
use carrier_pigeon.Client.Reach.{Reachable, recv-Reachable}
use carrier_pigeon.Chat.{Values, make_parts}

module _ {V : Type 0} (v : Values V) (bin : Bincode V) where
  -- The registrations of the chatroom, in the order of their numbers.
  abbrev pub chat_entries : List (Entry V)
  chat_entries =
      entry_of bin v.connection_tid tcp
      ∷ entry_of bin v.response_tid tcp
      ∷ entry_of bin v.disconnect_tid tcp
      ∷ entry_of bin v.msg_tid udp
      ∷ []

  -- The four types differ.
  pub record Differ : Type 0 where
    pub con_resp : v.connection_tid ≢ v.response_tid
    pub con_discon : v.connection_tid ≢ v.disconnect_tid
    pub resp_discon : v.response_tid ≢ v.disconnect_tid
    pub con_msg : v.connection_tid ≢ v.msg_tid
    pub resp_msg : v.response_tid ≢ v.msg_tid
    pub discon_msg : v.disconnect_tid ≢ v.msg_tid

  pub make_parts-IsBuilt :
      Differ → (p : MsgTableParts V) × (make_parts v bin ≡ ok p) × IsBuilt bin chat_entries p
  unfolding make_parts MsgTable.register MsgTable.build MsgTable.get_registration
      MsgTable.tid_registered MsgTable.new
  make_parts-IsBuilt d = (
    fill 0 no_parts chat_entries,
    rw
        (
          make_parts,
          MsgTable.build,
          MsgTable.get_registration,
          MsgTable.tid_registered,
          ne→== v.connection_tid v.msg_tid d.con_msg,
          ne→== v.response_tid v.msg_tid d.resp_msg,
          ne→== v.disconnect_tid v.msg_tid d.discon_msg,
        )
        refl,
    record {
      made = refl;
      distinct = (
        ((λ e. d.con_resp (sym e)), ((λ e. d.con_discon (sym e)), ((λ e. d.con_msg (sym e)), tt))),
        (
          ((λ e. d.resp_discon (sym e)), ((λ e. d.resp_msg (sym e)), tt)),
          (((λ e. d.discon_msg (sym e)), tt), (tt, tt)),
        ),
      );
      coded = ((refl, refl), ((refl, refl), ((refl, refl), ((refl, refl), tt))));
    },
  )

  -- Where the four types differ, a client that connected with the chatroom's table can read its
  -- messages whatever was sent to it: `recv` of `Msg` gives a list and does not panic.
  pub chat_recv-total :
      Differ
      → (p : MsgTableParts V) (self : Client V) → make_parts v bin ≡ ok p
      → Reachable p self
      → (msgs : List (NetMsg V)) × (recv self v.msg_tid ≡ ok msgs)
  chat_recv-total d p self made reach =
      let (q, made', built) = make_parts-IsBuilt d in
      let same : q ≡ p = ground arith in
      let b : IsBuilt bin chat_entries p = subst (IsBuilt bin chat_entries) same built in
      elim (recv-Reachable bin chat_entries p b self v.msg_tid reach) [
        | inl (gone, bad, _) ↦
            let there =
              (IsBuilt-IsIndexOf bin chat_entries p b).numbered 3 (entry_of bin v.msg_tid udp)
                refl in
            absurd (ground arith)
        | inr (mid, msgs, there, held, given, tried) ↦ (map as_net_msg msgs, given)
      ]
