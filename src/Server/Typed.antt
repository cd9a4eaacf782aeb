-- ===== src/Server/Typed.antt =====
-- What the buffers of a server of src/server.rs hold, in every state that it goes through.
pub mod Sent
pub mod Handled
pub mod Hooked
pub mod Received
pub mod Looped
pub mod Reach
use carrier_pigeon.Base.{◌≡◌, refl, ◌∙◌, List, subst, sym}
use carrier_pigeon.Table.{Bincode, Entry}
use carrier_pigeon.Table.Parts.{MsgTableParts}
use carrier_pigeon.Table.Parts.Typed.{IsTyped}
use carrier_pigeon.Server.{Server}

module _ {V : Type 0} where
  -- The table and the buffers are as they were.
  pub record Same (self s : Server V) : Type 0 where
    pub parts : s.parts ≡ self.parts
    pub msg_buff : s.msg_buff ≡ self.msg_buff

  pub Same-refl : (self : Server V) → Same self self
  Same-refl self = record { parts = refl; msg_buff = refl }

  pub Same-trans : {a b c : Server V} → Same a b → Same b c → Same a c
  Same-trans p q = record { parts = q.parts ∙ p.parts; msg_buff = q.msg_buff ∙ p.msg_buff }

module _ {V : Type 0} (es : List (Entry V)) (p : MsgTableParts V) where
  -- The table is as it was, and the buffers hold messages of their types.
  pub record Holds (self : Server V) : Type 0 where
    pub same : self.parts ≡ p
    pub typed : IsTyped es self.msg_buff

  pub Same-Holds : (self s : Server V) → Same self s → Holds self → Holds s
  Same-Holds self s k h = record {
    same = k.parts ∙ h.same;
    typed = subst (IsTyped es) (sym k.msg_buff) h.typed;
  }
