-- ===== src/Client/Data.antt =====
-- data_transfer on a writable connection whose message has gone out or whose socket fails.
use jujube.Base.{
  ℕ, ◌≡◌, ◌⊎◌, refl, Bool, true, false, some, List, arith, length, Bool-cases, inl, inr,
}
use jujube.Base.Int.{ℤ, is_neg, minus_one, eq_ℤ}
use jujube.Base.Run.{ok, Returns, returns, bind, value}
use jujube.Base.Store.{lookup, put, lookup-put_self, lookup-put_ne}
use jujube.Mem.{Addr}
use jujube.Buf.{buf_data_size}
use jujube.Buf.Holds.{Holds, data_len-length}
use jujube.Stream.{TcpStream, WriteResult, ReadResult, flush_size}
use jujube.Stream.Flush.{taken, fails, stream_flush_out-Flushed}
use jujube.World.{World, Jconnect, conn_estab}
use jujube.Event.Close.{Attached, conn_at_lem, stream_at_lem}
use jujube.Client.{not_null, stream_in, check_sock, establish, write_part, on_data}
use jujube.Client.After.{
  Owns-after, Attached-stored, left, drop_after, code_lem, stored, flushed_to,
}
use jujube.Client.Release.{Dropped}

pub establish_lem :
    (w : World) (i jc : ℕ) (c : Jconnect)
    → (w.events i).jc ≡ some jc
    → lookup jc w.conns ≡ some c
    → establish i w
      ≡ ok tt
          (record w { conns = put jc (record c { is_alive = true; status = conn_estab }) w.conns })
unfolding establish not_null
establish_lem w i jc c e f = rw (e, not_null, conn_at_lem w jc c f) refl

module _ (w : World) (i jc : ℕ) (c : Jconnect) (a : Addr) (s : TcpStream)
    (h : Attached w i jc c a s) where
  write_part-fails :
      (now : ℕ) (xs : List ℕ) (writes : List WriteResult)
      → Holds w.memory s.in_buf.buf xs
      → is_neg s.server_sock ≡ false
      → fails writes (length xs) ≡ true
      → Returns (λ go w'. (go ≡ false) × Dropped w i jc c a s w') (write_part now writes i a s w)
  unfolding write_part flush_size
  write_part-fails now xs writes hold open_sock bad =
      let (out, m, e, t) =
        value (stream_flush_out-Flushed writes w.memory s minus_one xs h.owns.inv hold open_sock) in
      rw (e, code_lem w i jc c a s h xs writes (length xs) out m t true bad)
        (drop_after w i jc c a s h xs writes (length xs) out m t now
          (stored w i jc c a s h out.stream m) c
          (Attached-stored w i jc c a s h xs writes (length xs) out m t) refl refl (λ b ne. refl)
          refl refl refl refl)

  abbrev established : Jconnect
  established = record c { is_alive = true; status = conn_estab }

  write_part-done :
      (now : ℕ) (xs : List ℕ) (writes : List WriteResult)
      → Holds w.memory s.in_buf.buf xs
      → is_neg s.server_sock ≡ false
      → fails writes (length xs) ≡ false
      → taken writes (length xs) ≡ length xs
      → Returns (λ go w'. (go ≡ false) × Dropped w i jc c a s w') (write_part now writes i a s w)
  unfolding write_part flush_size buf_data_size
  write_part-done now xs writes hold open_sock good all =
      let (out, m, e, t) =
        value (stream_flush_out-Flushed writes w.memory s minus_one xs h.owns.inv hold open_sock) in
      let empty : out.stream.in_buf.buf.data_len ≡ 0 = omega (
        arith,
        data_len-length t.holds,
        left w i jc c a s h xs writes (length xs) out m t,
        t.count,
        all,
      ) in
      rw
        (
          e,
          code_lem w i jc c a s h xs writes (length xs) out m t false good,
          establish_lem (stored w i jc c a s h out.stream m) i jc c h.event h.conn,
          empty,
        )
        (drop_after w i jc c a s h xs writes (length xs) out m t now
          (flushed_to w i jc c a s h established out.stream m) established
          (record {
            event = h.event;
            conn = lookup-put_self jc established w.conns;
            points = h.points;
            stream = lookup-put_self a out.stream w.streams;
            owns = Owns-after w i jc c a s h xs writes (length xs) out m t;
          })
          refl refl (λ b ne. lookup-put_ne jc b established w.conns ne) refl refl refl refl)

  write_part-Finished :
      (now : ℕ) (xs : List ℕ) (writes : List WriteResult)
      → Holds w.memory s.in_buf.buf xs
      → is_neg s.server_sock ≡ false
      → (fails writes (length xs) ≡ true) ⊎ (taken writes (length xs) ≡ length xs)
      → Returns (λ go w'. (go ≡ false) × Dropped w i jc c a s w') (write_part now writes i a s w)
  write_part-Finished now xs writes hold open_sock (inl bad) =
      write_part-fails now xs writes hold open_sock bad
  write_part-Finished now xs writes hold open_sock (inr all) =
      elim (Bool-cases (fails writes (length xs))) [
        | inl bad ↦ write_part-fails now xs writes hold open_sock bad
        | inr good ↦ write_part-done now xs writes hold open_sock good all
      ]

  pub stream_in_lem : stream_in i w ≡ ok a w
  unfolding stream_in not_null
  stream_in_lem = rw (h.event, not_null, conn_at_lem w jc c h.conn, h.points) refl

-- data_transfer on a writable connection, whose event leads to a stream on an open socket that owns
-- its blocks and whose `in_buf` holds `xs`, in an allocator with its invariant: where the writes take
-- all of `xs` or one fails, the transaction ends, whatever the socket has to read. The function
-- returns, exactly the stream's blocks are freed and the stream is gone, the connection is closed
-- once and freed, and the list of idle connections and every other connection are as before.
pub on_data-Dropped :
    (now : ℕ) (w : World) (i jc : ℕ) (c : Jconnect) (a : Addr) (s : TcpStream) (xs : List ℕ)
    (writes : List WriteResult) (reads : List ReadResult) (sock : ℤ) (read_event : Bool)
    → Attached w i jc c a s
    → Holds w.memory s.in_buf.buf xs
    → is_neg s.server_sock ≡ false
    → eq_ℤ sock s.server_sock ≡ true
    → (fails writes (length xs) ≡ true) ⊎ (taken writes (length xs) ≡ length xs)
    → Returns (λ _ w'. Dropped w i jc c a s w') (on_data now writes reads sock read_event true i w)
unfolding on_data check_sock
on_data-Dropped now w i jc c a s xs writes reads sock read_event h hold open_sock same fin =
    rw (stream_in_lem w i jc c a s h, stream_at_lem w a s h.stream, same)
      (elim (Bool-cases read_event) [
        | inl readable ↦ rw readable (
            bind (write_part-Finished w i jc c a s h now xs writes hold open_sock fin)
              (λ go w' d. rw d.0 (returns d.1)))
        | inr quiet ↦ rw quiet (
            bind (write_part-Finished w i jc c a s h now xs writes hold open_sock fin)
              (λ go w' d. rw d.0 (returns d.1)))
      ])
