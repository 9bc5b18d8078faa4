-- ===== src/Client/Loop/Parts.antt =====
-- The two parts of data_transfer at an event that serves, whatever the socket does.
use jujube.Base.{
  ℕ, ◌≡◌, ◌≢◌, ◌⊎◌, ◌∙◌, sym, ap, subst, refl, Bool, true, false, some, List, arith, ◌==◌, has,
  Bool-cases, inl, inr,
}
use jujube.Base.Int.{is_neg, minus_one}
use jujube.Base.Run.{Returns, returns, bind, mono, value}
use jujube.Base.Store.{Store, lookup, put, lookup-put_self, lookup-put_ne}
use jujube.Mem.{Addr, Memory, view}
use jujube.Mem.Inv.{Inv}
use jujube.Buf.{buf_data_size}
use jujube.Buf.Holds.{Holds, Holds-keep}
use jujube.Stream.{TcpStream, WriteResult, ReadResult, flush_size}
use jujube.Stream.Free.{blocks, blocks-in, blocks-out}
use jujube.Stream.Flush.{stream_flush_out-Flushed}
use jujube.Stream.Feed.{stream_feed_out-Received}
use jujube.World.{World, Jconnect, connect_cb, data_transfer, conn_estab}
use jujube.Event.Close.{stream_at_lem}
use jujube.Event.InOut.{set_stream_event_in_out-Rearmed}
use jujube.Client.{write_part, read_part}
use jujube.Client.Data.{establish_lem}
use jujube.Client.Loop.Frame.{Serving, Frame}
use jujube.Client.Loop.Outcome.{
  Outcome, Outcome-trans, release-Outcome, Owns-write, rearmed-Outcome,
}

module _ {w : World} {i jc : Addr} {c : Jconnect} {s : TcpStream} (p : Serving w i jc c s) where
  -- The stream after one of its blocks has been written, on the connection `c1`.
  module _ (s' : TcpStream) (m : Memory) (conns : Store Jconnect) (c1 : Jconnect) (b : Addr)
      (zs : List ℕ) (v : Inv m) (self : s'.self ≡ s.self) (same : blocks s' ≡ blocks s)
      (sock : s'.server_sock ≡ s.server_sock) (mine : has b (blocks s) ≡ true)
      (block : view m b ≡ some zs) (others : (a : Addr) → b ≢ a → view m a ≡ view w.memory a)
      (conn : lookup jc conns ≡ some c1) (points : c1.stream ≡ some s.self)
      (spared : (a : Addr) → jc ≢ a → lookup a conns ≡ lookup a w.conns) where
    abbrev written : World
    written = record w { memory = m; streams = put s.self s' w.streams; conns = conns }

    written-Frame : Frame i jc s w written
    written-Frame = record {
      inv = v;
      memory = λ a h. others a (λ q. ground arith);
      events = λ k ne. refl;
      conns = spared;
      streams = λ a ne. lookup-put_ne s.self a s' w.streams ne;
      idle = refl;
    }

    written-Serving :
        (xs ys : List ℕ)
        → Holds m s'.in_buf.buf xs
        → Holds m s'.out_buf.buf ys
        → Serving written i jc c1 s'
    written-Serving xs ys hi ho = record {
      attached = record {
        event = p.attached.event;
        conn = conn;
        points = points ∙ ap some (sym self);
        stream =
            ap (λ a. lookup a (put s.self s' w.streams)) self ∙ lookup-put_self s.self s' w.streams;
        owns = Owns-write w.memory m s s' b zs p.attached.owns v same block others;
      };
      open_sock = ap is_neg sock ∙ p.open_sock;
      sock = sock ∙ p.sock;
      call_back = p.call_back;
      in_data = xs;
      in_holds = hi;
      out_data = ys;
      out_holds = ho;
    }

    written_lem :
        (xs ys : List ℕ)
        → Holds m s'.in_buf.buf xs
        → Holds m s'.out_buf.buf ys
        → Frame i jc s w written × Serving written i jc c1 s'
    written_lem xs ys hi ho = (written-Frame, written-Serving xs ys hi ho)

  -- A readable connection is read and given up; another waits again.
  pub read_part-Outcome :
      (now : ℕ) (reads : List ReadResult) (read_event : Bool)
      → Returns (λ _ w'. Outcome i jc s w w') (read_part now reads read_event i s.self w)
  unfolding read_part
  read_part-Outcome now reads false =
      mono
        (set_stream_event_in_out-Rearmed now w i jc c s.self s p.attached.event p.attached.conn
          p.attached.points p.attached.stream p.open_sock)
        (λ _ w' r.
          rearmed-Outcome p r.memory r.conns r.streams r.idle r.others r.jc r.fd
            (subst (λ f. (f ≡ connect_cb) ⊎ (f ≡ data_transfer)) (sym r.call_back) p.call_back))
  read_part-Outcome now reads true =
      let (out, m, e, t) = value (
        stream_feed_out-Received reads w.memory s p.out_data p.attached.owns.inv p.out_holds
          p.open_sock) in
      let self = ap (λ x. x.self) t.same in
      let same = ap blocks t.same ∙ blocks-out s out.stream.out_buf t.block t.own in
      let block = ap (view m) (sym t.block) ∙ t.holds.block in
      let in_kept =
        subst (λ x. Holds m x.buf p.in_data) (sym t.in_kept)
          (Holds-keep p.in_holds
            (t.others s.in_buf.buf.buffer (λ q. ground (arith, p.attached.owns.distinct)))) in
      let (f, next) =
        written_lem out.stream m w.conns c s.out_buf.buf.buffer t.holds.bytes t.inv self same
          (ap (λ x. x.server_sock) t.same) (ground arith) block t.others p.attached.conn
          p.attached.points (λ a ne. refl) p.in_data _ in_kept t.holds in
      rw (stream_at_lem w s.self s p.attached.stream, e)
        (mono (release-Outcome now _ i jc c out.stream next.attached)
          (λ _ w' o. Outcome-trans f self same o))

  -- What the part for a writable connection comes to.
  pub data Passed (go : Bool) (w1 : World) : Type 0 where
    over : go ≡ false → Outcome i jc s w w1 → Passed go w1
    on :
        (c1 : Jconnect) (s1 : TcpStream)
        → go ≡ true
        → Frame i jc s w w1
        → Serving w1 i jc c1 s1
        → s1.self ≡ s.self
        → blocks s1 ≡ blocks s
        → Passed go w1

  abbrev estab : Jconnect
  estab = record c { is_alive = true; status = conn_estab }

  pub write_part-Passed :
      (now : ℕ) (writes : List WriteResult)
      → Returns (λ go w1. Passed go w1) (write_part now writes i s.self s w)
  unfolding write_part flush_size buf_data_size
  write_part-Passed now writes =
      let (out, m, e, t) = value (
        stream_flush_out-Flushed writes w.memory s minus_one p.in_data p.attached.owns.inv
          p.in_holds p.open_sock) in
      let self = ap (λ x. x.self) t.same in
      let same = ap blocks t.same ∙ blocks-in s out.stream.in_buf.buf t.block in
      let sock = ap (λ x. x.server_sock) t.same in
      let block = ap (view m) (sym t.block) ∙ t.holds.block in
      let out_kept =
        subst (λ x. Holds m x.out_buf.buf p.out_data) (sym t.same)
          (Holds-keep p.out_holds
            (t.others s.out_buf.buf.buffer (λ q. ground (arith, p.attached.owns.distinct)))) in
      let (f, next) =
        written_lem out.stream m w.conns c s.in_buf.buf.buffer t.holds.bytes t.inv self same sock
          (ground arith) block t.others p.attached.conn p.attached.points (λ a ne. refl) t.rest
          p.out_data t.holds out_kept in
      let (f1, next1) =
        written_lem out.stream m (put jc estab w.conns) estab s.in_buf.buf.buffer t.holds.bytes
          t.inv self same sock (ground arith) block t.others (lookup-put_self jc estab w.conns)
          p.attached.points (λ a ne. lookup-put_ne jc a estab w.conns ne) t.rest p.out_data t.holds
          out_kept in
      let w1 = record w { memory = m; streams = put s.self out.stream w.streams } in
      elim (Bool-cases (is_neg out.code)) [
        | inl fails ↦
            rw (e, fails)
              (bind (release-Outcome now _ i jc c out.stream next.attached)
                (λ _ w' o. returns (over refl (Outcome-trans f self same o))))
        | inr fine ↦
            rw (e, fine, establish_lem w1 i jc c p.attached.event p.attached.conn)
              (elim (Bool-cases (out.stream.in_buf.buf.data_len == 0)) [
                | inl empty ↦ rw empty (
                    bind (release-Outcome now _ i jc estab out.stream next1.attached)
                      (λ _ w' o. returns (over refl (Outcome-trans f1 self same o))))
                | inr more ↦ rw more (returns (on estab out.stream refl f1 next1 self same))
              ])
      ]
