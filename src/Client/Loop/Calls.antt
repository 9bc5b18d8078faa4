-- ===== src/Client/Loop/Calls.antt =====
-- The callbacks at an event that serves: each returns, whatever the socket does.
use jujube.Base.{
  ℕ, ◌≡◌, ◌∙◌, ap, subst, refl, Bool, true, false, List, arith, if◌then◌else◌, Bool-cases, inl, inr,
}
use jujube.Base.Int.{eq_ℤ, eq_ℤ_refl}
use jujube.Base.Run.{ok, pure, Returns, returns, bind, mono}
use jujube.Mem.{Addr}
use jujube.Stream.{TcpStream, WriteResult, ReadResult}
use jujube.World.{World, Jconnect}
use jujube.Event.{event_reset_cb, eventadd}
use jujube.Event.Close.{stream_at_lem}
use jujube.Client.{on_connect, on_data, read_part, check_sock}
use jujube.Client.Data.{stream_in_lem}
use jujube.Client.Loop.Frame.{Serving}
use jujube.Client.Loop.Parts.{read_part-Outcome, Passed, over, on, write_part-Passed}
use jujube.Client.Loop.Outcome.{Outcome, Outcome-trans, release-Outcome, rearmed-Outcome}

module _ {w : World} {i jc : Addr} {c : Jconnect} {s : TcpStream} (p : Serving w i jc c s) where
  check_sock_lem : check_sock (w.events i).fd s w ≡ ok tt w
  unfolding check_sock
  check_sock_lem =
      let same : eq_ℤ (w.events i).fd s.server_sock ≡ true =
        ap (eq_ℤ (w.events i).fd) p.sock ∙ eq_ℤ_refl (w.events i).fd in
      rw same refl

  -- The rest of data_transfer behind its part for a writable connection.
  after_write :
      (now : ℕ) (reads : List ReadResult) (read_event go : Bool) (w1 : World)
      → Passed p go w1
      → Returns
          (λ _ w'. Outcome i jc s w w')
          ((if go then read_part now reads read_event i s.self else pure tt) w1)
  after_write now reads read_event go w1 (over stop o) = rw stop (returns o)
  after_write now reads read_event go w1 (on c1 s1 goes f p1 self same) = rw goes (
      subst (λ a. Returns (λ _ w'. Outcome i jc s w w') (read_part now reads read_event i a w1))
        self
        (mono (read_part-Outcome p1 now reads read_event) (λ _ w' o. Outcome-trans f self same o)))

  -- data_transfer.
  pub on_data-Outcome :
      (now : ℕ) (writes : List WriteResult) (reads : List ReadResult)
      (read_event write_event : Bool)
      → Returns
          (λ _ w'. Outcome i jc s w w')
          (on_data now writes reads (w.events i).fd read_event write_event i w)
  unfolding on_data
  on_data-Outcome now writes reads read_event write_event =
      rw
        (
          stream_in_lem w i jc c s.self s p.attached,
          stream_at_lem w s.self s p.attached.stream,
          check_sock_lem,
        )
        (elim (Bool-cases write_event) [
          | inl writable ↦ rw writable (elim (Bool-cases read_event) [
            | inl readable ↦ rw readable (
                bind (write_part-Passed p now writes)
                  (λ go w1 q. after_write now reads true go w1 q))
            | inr quiet ↦ rw quiet (
                bind (write_part-Passed p now writes)
                  (λ go w1 q. after_write now reads false go w1 q))
          ])
          | inr blocked ↦ rw blocked (elim (Bool-cases read_event) [
            | inl readable ↦ rw readable (read_part-Outcome p now reads true)
            | inr quiet ↦ rw quiet (release-Outcome now w i jc c s p.attached)
          ])
        ])

  -- connect_cb.
  pub on_connect-Outcome :
      (now : ℕ) (write_event : Bool)
      → Returns (λ _ w'. Outcome i jc s w w') (on_connect now (w.events i).fd write_event i w)
  unfolding on_connect event_reset_cb eventadd
  on_connect-Outcome now write_event =
      rw
        (
          stream_in_lem w i jc c s.self s p.attached,
          stream_at_lem w s.self s p.attached.stream,
          check_sock_lem,
        )
        (elim (Bool-cases write_event) [
          | inl writable ↦ rw writable (
              returns (
                rearmed-Outcome p refl refl refl refl (λ k ne. ground arith) (ground arith)
                  (ground arith) (inr (ground arith))))
          | inr blocked ↦ rw blocked (release-Outcome now w i jc c s p.attached)
        ])
