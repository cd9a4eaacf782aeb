-- ===== src/Server/Typed/Handled.antt =====
-- Connections that come and go leave the buffers of a server of src/server.rs as they are.
use carrier_pigeon.Base.{
  ℕ, ◌≡◌, refl, sym, subst, List, [], ◌∷◌, Bool, Io, ok, err, panic, unwrap, length, ltb, arith,
  Bool-cases, inl, inr,
}
use carrier_pigeon.Base.Results.{after_ok}
use carrier_pigeon.Net.{CId, Any}
use carrier_pigeon.Time.{Host}
use carrier_pigeon.Tcp
use carrier_pigeon.Tcp.{TcpCon}
use carrier_pigeon.Tcp.Stream.{TcpStream}
use carrier_pigeon.Server.{Server, rm_tcp_con, add_tcp_con_cid, new_cid}
use carrier_pigeon.Server.Send.{send_to}
use carrier_pigeon.Server.Accept.{
  start_one, accept_pending, start_incoming, accept_incoming, reject_incoming,
}
use carrier_pigeon.Server.Accept.Handle.{take_out, accept_each, reject_each, drop_each}
use carrier_pigeon.Server.Mirror.Hooked.{sent_on}
use carrier_pigeon.Server.Mirror.Arrivals.{Arrives, on_tcp, on_udp, on_listener, on_waiting}
use carrier_pigeon.Server.Typed.{Same, Same-refl, Same-trans}
use carrier_pigeon.Server.Typed.Sent.{send_to-Same}

module _ {V : Type 0} where
  pub rm_tcp_con-Same : (self s : Server V) (cid : CId) → rm_tcp_con self cid ≡ ok s → Same self s
  unfolding rm_tcp_con
  rm_tcp_con-Same self s cid e = record { parts = ground (arith, e); msg_buff = ground (arith, e) }

  start_one-Same :
      (oc : Bool) (now : ℕ) (self s : Server V) (stream : TcpStream)
      → start_one oc now self stream ≡ ok s
      → Same self s
  unfolding start_one new_cid
  start_one-Same oc now self s stream e = record {
    parts = ground (arith, e);
    msg_buff = ground (arith, e);
  }

  accept_pending-Same :
      (oc : Bool) (now : ℕ) (pending : List (Io TcpStream)) (self s : Server V)
      → accept_pending oc now self pending ≡ ok s
      → Same self s
  unfolding accept_pending
  accept_pending-Same oc now [] self s e = record {
    parts = ground (arith, e);
    msg_buff = ground (arith, e);
  }
  accept_pending-Same oc now (ok stream ∷ rest) self s e =
      elim (Bool-cases (ltb (length self.new_cons) self.config.max_con_handle)) [
        | inl more ↦
            after_ok (start_one oc now self stream) _ s (rw (accept_pending, more) at e)
              (λ t one out.
                Same-trans (start_one-Same oc now self t stream one)
                  (accept_pending-Same oc now rest t s out))
        | inr full ↦ record { parts = ground (arith, e); msg_buff = ground (arith, e) }
      ]
  accept_pending-Same oc now (err x ∷ rest) self s e = record {
    parts = ground (arith, e);
    msg_buff = ground (arith, e);
  }
  accept_pending-Same oc now (panic ∷ rest) self s e = absurd (ground arith)

  pub start_incoming-Same :
      (oc : Bool) (now : ℕ) (self s : Server V) → start_incoming oc now self ≡ ok s → Same self s
  unfolding start_incoming
  start_incoming-Same oc now self s e = accept_pending-Same oc now self.listener.pending self s e

  pub Arrives-Same : (self s : Server V) → Arrives self s → Same self s
  Arrives-Same self _ (on_tcp _ cid con stream held peer) = record { parts = refl; msg_buff = refl }
  Arrives-Same self _ (on_udp _ socket) = record { parts = refl; msg_buff = refl }
  Arrives-Same self _ (on_listener _ pending) = record { parts = refl; msg_buff = refl }
  Arrives-Same self _ (on_waiting _ before new after stream there peer) = record {
    parts = refl;
    msg_buff = refl;
  }

  add_tcp_con_cid-Same :
      (self s : Server V) (cid : CId) (con : TcpCon)
      → add_tcp_con_cid self cid con ≡ ok s
      → Same self s
  unfolding add_tcp_con_cid
  add_tcp_con_cid-Same self s cid con e =
      after_ok (unwrap (Tcp.peer_addr con)) _ s e
        (λ addr known out. record { parts = ground (arith, out); msg_buff = ground (arith, out) })

  accept_incoming-Same :
      (h : Host) (self s : Server V) (cid : CId) (con : TcpCon) (resp : Any V)
      → accept_incoming h self cid con resp ≡ ok s
      → Same self s
  unfolding accept_incoming
  accept_incoming-Same h self s cid con resp e =
      after_ok (add_tcp_con_cid self cid con) _ s e (λ t added out.
        subst (Same self) (sym (sent_on s (send_to h t cid resp) out))
          (Same-trans (add_tcp_con_cid-Same self t cid con added) (send_to-Same h t cid resp)))

  pub accept_each-Same :
      (h : Host) (self s : Server V) (accepted : List (ℕ × Any V))
      → accept_each h self accepted ≡ ok s
      → Same self s
  unfolding accept_each
  accept_each-Same h self s [] e =
      let same : self ≡ s = ground (arith, e) in subst (Same self) same (Same-refl self)
  accept_each-Same h self s ((idx, resp) ∷ accepted) e =
      after_ok (take_out self.new_cons idx) _ s e (λ r took e1.
        after_ok (accept_incoming h (record self { new_cons = r.1 }) r.0.cid r.0.con resp) _ s e1
          (λ t did e2.
            let one =
              accept_incoming-Same h (record self { new_cons = r.1 }) t r.0.cid r.0.con resp did in
            Same-trans (record { parts = one.parts; msg_buff = one.msg_buff })
              (accept_each-Same h t s accepted e2)))

  pub reject_each-Same :
      (self : Server V) (s : Server V × List TcpCon) (rejected : List (ℕ × Any V))
      → reject_each self rejected ≡ ok s
      → Same self s.0
  unfolding reject_each
  reject_each-Same self s [] e =
      let same : self ≡ s.0 = ground (arith, e) in subst (Same self) same (Same-refl self)
  reject_each-Same self s ((idx, resp) ∷ rejected) e =
      after_ok (take_out self.new_cons idx) _ s e (λ r took e1.
        after_ok (reject_incoming self r.0.con resp) _ s e1 (λ con did e2.
          after_ok (reject_each (record self { new_cons = r.1 }) rejected) _ s e2 (λ t left e3.
            let rest = reject_each-Same (record self { new_cons = r.1 }) t rejected left in
            let same : t.0 ≡ s.0 = ground (arith, e3) in
            subst (Same self) same (record { parts = rest.parts; msg_buff = rest.msg_buff }))))

  pub drop_each-Same :
      (self s : Server V) (dead : List ℕ) → drop_each self dead ≡ ok s → Same self s
  unfolding drop_each
  drop_each-Same self s [] e =
      let same : self ≡ s = ground (arith, e) in subst (Same self) same (Same-refl self)
  drop_each-Same self s (idx ∷ dead) e = after_ok (take_out self.new_cons idx) _ s e (λ r took e1.
      let rest = drop_each-Same (record self { new_cons = r.1 }) s dead e1 in
      record { parts = rest.parts; msg_buff = rest.msg_buff })
