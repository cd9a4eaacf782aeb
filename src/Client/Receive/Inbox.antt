-- ===== src/Client/Receive/Inbox.antt =====
-- `recv_msgs` of src/client.rs over a connection on which whole messages have come, and perhaps its
-- end.
use mathlib.Core.List.{append-nil, append_assoc}
use carrier_pigeon.Base.{
  ℕ, zero, suc, ◌+◌, ◌≤◌, ◌≡◌, refl, ap, sym, ◌∙◌, List, [], ◌∷◌, ◌++◌, map, false, some, ok,
  length, arith, All, ◌==◌, length-append,
}
use carrier_pigeon.Base.Results.{would_block, connection_aborted}
use carrier_pigeon.Base.Loop.{loop, next, done}
use carrier_pigeon.Net.Status.{Status}
use carrier_pigeon.Net.Status as ConStatus
use carrier_pigeon.Net.Filed.{Filed-nil}
use carrier_pigeon.Table.{disconnect_type_mid}
use carrier_pigeon.Tcp.{TcpCon, frame}
use carrier_pigeon.Tcp.Stream.{TcpStream}
use carrier_pigeon.Tcp.Recv.{recv-frame}
use carrier_pigeon.Tcp.Letters.{
  Letter, Ending, stays, leaves, drops, letter_frames, last_frame, Taken, EndsBy, EndsBy-works,
  EndsBy-rest, counted, recv-over, recv-empty, frames_bound,
}
use carrier_pigeon.Client.{Client, is_open}
use carrier_pigeon.Client.Receive.{tcp_arm, tcp_round, tcp_loop}
use carrier_pigeon.Client.Receive.Round.{
  arrival, status_after, recv_tcp-decoded, recv_tcp-failed, Took, Took-append, tcp_round-open,
  tcp_round-letter,
}

module _ {V : Type 0} where
  tcp_round-closed :
      (self : Client V) (i : ℕ)
      → ConStatus.connected self.status ≡ false
      → tcp_round (self, i) ≡ done (self, i)
  unfolding tcp_round is_open
  tcp_round-closed self i shut = rw (shut, tcp_round, is_open) refl

  -- The rounds after the last letter.
  loop-ending :
      (n : ℕ) (self : Client V) (i : ℕ) (e : Ending V)
      → self.status ≡ Status.connected
      → self.tcp.tcp.inbox ≡ last_frame e
      → EndsBy self.parts (length self.tcp.buff) self.tcp.tcp e
      → (z : Client V) × (j : ℕ) × (loop (suc (suc n)) tcp_round (self, i) ≡ some (ok (z, j)))
        × (j ≡ i + counted e)
        × Took [] (status_after e) self z
  unfolding loop tcp_arm ConStatus.connected
  loop-ending n self i stays open_ come o =
      let last : tcp_round (self, i) ≡ done (self, i) =
        tcp_round-open self i open_
        ∙ ap (λ r. tcp_arm r i) (recv_tcp-failed self would_block (recv-empty self.tcp o come)) in
      (
        self,
        i,
        rw (last, loop) refl,
        omega arith,
        record {
          filed = Filed-nil self.msg_buff;
          status = open_;
          same_parts = refl;
          same_udp = refl;
        },
      )
  loop-ending n self i (leaves l) open_ come (works, is_last, short, room, d) =
      let (buff, got, _) =
        recv-frame self.tcp l.mid l.bytes [] works (come ∙ sym (append-nil (frame l.mid l.bytes)))
          (omega arith) short room in
      let con : TcpCon = record { buff = buff; tcp = record self.tcp.tcp { inbox = [] } } in
      let z : Client V = record self { tcp = con; status = Status.disconnected l.msg } in
      let first : tcp_round (self, i) ≡ next (z, i + 1) =
        tcp_round-open self i open_
        ∙ ap (λ r. tcp_arm r i) (recv_tcp-decoded self con l.mid l.bytes l.msg got d)
        ∙ rw (ap (λ mid. mid == disconnect_type_mid) is_last, tcp_arm) refl in
      (
        z,
        i + 1,
        rw (first, loop) (rw (tcp_round-closed z (i + 1) refl, loop) refl),
        refl,
        record {
          filed = Filed-nil self.msg_buff;
          status = refl;
          same_parts = refl;
          same_udp = refl;
        },
      )
  loop-ending n self i drops open_ come (works, ended) =
      let z : Client V = record self { status = Status.dropped connection_aborted } in
      let first : tcp_round (self, i) ≡ next (z, i) =
        tcp_round-open self i open_
        ∙ ap (λ r. tcp_arm r i)
            (recv_tcp-failed self connection_aborted (recv-over self.tcp works ended come)) in
      (
        z,
        i,
        rw (first, loop) (rw (tcp_round-closed z i refl, loop) refl),
        omega arith,
        record {
          filed = Filed-nil self.msg_buff;
          status = refl;
          same_parts = refl;
          same_udp = refl;
        },
      )

  loop-letters :
      (fuel : ℕ) (self : Client V) (i : ℕ) (ls : List (Letter V)) (e : Ending V)
      → length ls + 2 ≤ fuel
      → self.status ≡ Status.connected
      → EndsBy self.parts (length self.tcp.buff) self.tcp.tcp e
      → self.tcp.tcp.inbox ≡ letter_frames ls ++ last_frame e
      → All (Taken self.parts (length self.msg_buff) (length self.tcp.buff)) ls
      → (z : Client V) × (loop fuel tcp_round (self, i)
          ≡ some (ok (z, i + (length ls + counted e))))
        × Took (map arrival ls) (status_after e) self z
  unfolding loop
  loop-letters zero self i ls e enough open_ o come ts = absurd (omega arith)
  loop-letters (suc zero) self i ls e enough open_ o come ts = absurd (omega arith)
  loop-letters (suc (suc n)) self i [] e enough open_ o come ts =
      let (z, j, last, count, took) = loop-ending n self i e open_ come o in
      (z, last ∙ ap (λ (k : ℕ). some (ok (z, k))) (omega arith), took)
  loop-letters (suc (suc n)) self i (l ∷ ls) e enough open_ o come (t, ts) =
      let works = EndsBy-works self.parts (length self.tcp.buff) self.tcp.tcp e o in
      let rest = letter_frames ls ++ last_frame e in
      let (s, went, took, stream, size) =
        tcp_round-letter self i l rest open_ works
          (come ∙ append_assoc (frame l.mid l.bytes) (letter_frames ls) (last_frame e)) t in
      let (z, onward, took') =
        loop-letters (suc n) s (i + 1) ls e (omega arith) took.status
          (rw (took.same_parts, stream, size)
            (EndsBy-rest self.parts (length self.tcp.buff) self.tcp.tcp rest e o))
          (ap (λ (t : TcpStream). t.inbox) stream)
          (rw (took.same_parts, took.filed.size, size) ts) in
      (
        z,
        rw (went, loop) (onward ∙ ap (λ (k : ℕ). some (ok (z, k))) (omega arith)),
        Took-append (arrival l ∷ []) (map arrival ls) Status.connected (status_after e) self s z
            took took',
      )

  -- The letters that have come are filed in their order, and the status tells how the server ended.
  pub tcp_loop-letters :
      (self : Client V) (i : ℕ) (ls : List (Letter V)) (e : Ending V)
      → self.status ≡ Status.connected
      → EndsBy self.parts (length self.tcp.buff) self.tcp.tcp e
      → self.tcp.tcp.inbox ≡ letter_frames ls ++ last_frame e
      → All (Taken self.parts (length self.msg_buff) (length self.tcp.buff)) ls
      → (z : Client V) × (tcp_loop (self, i) ≡ some (ok (z, i + (length ls + counted e))))
        × Took (map arrival ls) (status_after e) self z
  unfolding tcp_loop
  tcp_loop-letters self i ls e open_ o come ts =
      loop-letters (length self.tcp.tcp.inbox + 2) self i ls e
        (omega
          (arith, frames_bound ls, ap length come, length-append (letter_frames ls) (last_frame e)))
        open_ o come ts
