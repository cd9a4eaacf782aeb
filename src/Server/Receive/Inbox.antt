-- ===== src/Server/Receive/Inbox.antt =====
-- The TCP loop of `recv_msgs` of src/server.rs over one connection, on which whole messages have
-- come.
use mathlib.Core.List.{append_assoc}
use carrier_pigeon.Base.{
  ℕ, zero, suc, ◌+◌, ◌<◌, ◌≡◌, refl, ap, ◌∙◌, List, [], ◌∷◌, ◌++◌, map, some, ok, length, arith,
  All, length-append,
}
use carrier_pigeon.Base.HashMap
use carrier_pigeon.Base.HashMap.{get-insert}
use carrier_pigeon.Base.Loop.{loop}
use carrier_pigeon.Net.{CId}
use carrier_pigeon.Tcp.{TcpCon, frame}
use carrier_pigeon.Tcp.Stream.{TcpStream}
use carrier_pigeon.Server.{Server}
use carrier_pigeon.Server.Receive.{tcp_round, tcp_loop, waiting}
use carrier_pigeon.Server.Receive.Took.{arrival, Took, Took-append, departure}
use carrier_pigeon.Server.Receive.Round.{tcp_round-letter, tcp_round-ending}
use carrier_pigeon.Tcp.Letters.{
  Letter, Ending, letter_frames, last_frame, Taken, EndsBy, counted, EndsBy-works, EndsBy-rest,
  frames_bound,
}

module _ {V : Type 0} where
  -- The letters of a connection, from the one at the front of its stream, are filed in their order,
  -- and its end, if there is one, is queued.
  loop-letters :
      (fuel : ℕ) (self : Server V) (cid : CId) (con : TcpCon) (i : ℕ) (ls : List (Letter V))
      (e : Ending V)
      → length ls < fuel
      → HashMap.get self.tcp cid ≡ some con
      → EndsBy self.parts (length con.buff) con.tcp e
      → con.tcp.inbox ≡ letter_frames ls ++ last_frame e
      → All (Taken self.parts (length self.msg_buff) (length con.buff)) ls
      → (z : Server V) × (loop fuel (tcp_round cid) (self, i)
          ≡ some (ok (z, i + (length ls + counted e))))
        × Took cid (map (arrival cid) ls) (departure cid e) self z
  unfolding loop
  loop-letters zero self cid con i ls e enough held o come ts = absurd (omega arith)
  loop-letters (suc fuel) self cid con i [] e enough held o come ts =
      let (z, j, last, count, took) = tcp_round-ending self cid con i e held come o in
      (z, rw (last, loop) (ap (λ (k : ℕ). some (ok (z, k))) (omega arith)), took)
  loop-letters (suc fuel) self cid con i (l ∷ ls) e enough held o come (t, ts) =
      let works = EndsBy-works self.parts (length con.buff) con.tcp e o in
      let rest = letter_frames ls ++ last_frame e in
      let (s, con', went, took, held', stream, size) =
        tcp_round-letter self cid con i l rest held works
          (come ∙ append_assoc (frame l.mid l.bytes) (letter_frames ls) (last_frame e)) t in
      let (z, onward, took') =
        loop-letters fuel s cid con' (i + 1) ls e (omega arith) held'
          (rw (took.same_parts, stream, size)
            (EndsBy-rest self.parts (length con.buff) con.tcp rest e o))
          (ap (λ (t : TcpStream). t.inbox) stream)
          (rw (took.same_parts, took.filed.size, size) ts) in
      (
        z,
        rw (went, loop) (onward ∙ ap (λ (k : ℕ). some (ok (z, k))) (omega arith)),
        Took-append cid (arrival cid l ∷ []) (map (arrival cid) ls) [] (departure cid e) self s z
            took took',
      )

  -- The letters `ls` have come on a connection, and it ends by `e`.
  pub record Comes (self : Server V) (cid : CId) (ls : List (Letter V)) (e : Ending V)
      : Type 0 where
    pub con : TcpCon
    pub held : HashMap.get self.tcp cid ≡ some con
    pub ends : EndsBy self.parts (length con.buff) con.tcp e
    pub come : con.tcp.inbox ≡ letter_frames ls ++ last_frame e
    pub taken : All (Taken self.parts (length self.msg_buff) (length con.buff)) ls

  pub tcp_loop-letters :
      (self : Server V) (cid : CId) (i : ℕ) (ls : List (Letter V)) (e : Ending V)
      → Comes self cid ls e
      → (z : Server V) × (tcp_loop cid (self, i) ≡ some (ok (z, i + (length ls + counted e))))
        × Took cid (map (arrival cid) ls) (departure cid e) self z
  unfolding tcp_loop waiting
  tcp_loop-letters self cid i ls e c =
      let fuel : waiting self cid ≡ length c.con.tcp.inbox = rw (c.held, waiting) refl in
      loop-letters (waiting self cid + 1) self cid c.con i ls e
        (omega (
          arith,
          frames_bound ls,
          fuel,
          ap length c.come,
          length-append (letter_frames ls) (last_frame e),
        ))
        c.held c.ends c.come c.taken
