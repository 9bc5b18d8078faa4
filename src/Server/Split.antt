-- ===== src/Server/Split.antt =====
-- The same bytes in other pieces.
use jujube.Base.{
  ℕ, ◌+◌, ◌≤◌, ◌<◌, ◌≡◌, ◌∙◌, sym, subst, none, some, List, [], ◌∷◌, length, drop, take, arith,
}
use jujube.Base.Words.{le_value}
use jujube.Base.Run.{ok, value}
use jujube.Base.Store.{lookup}
use jujube.Mem.{Addr, Malloc, Gives, view}
use jujube.Stream.{TcpStream}
use jujube.Server.{Server, log_max_len}
use jujube.Server.Link.{Link, Linked}
use jujube.Server.Transfer.{After, unfinished, finished}
use jujube.Server.Header.{Fresh}
use jujube.Server.Message.{Piece, deliver, join, Readable, deliver-After}

-- What can be seen of the server from outside.
pub record Alike (sv1 sv2 : Server) : Type 0 where
  pub work : sv1.work ≡ sv2.work
  pub qps : sv1.qps ≡ sv2.qps
  pub closed : sv1.world.closed ≡ sv2.world.closed

-- The connection waits for the same part of the same message, or it has ended, in both.
pub data SameEffect (k : Link) (sv1 sv2 : Server) : Type 0 where
  waits :
      (s1 s2 : TcpStream)
      → Alike sv1 sv2
      → lookup k.place sv1.world.streams ≡ some s1
      → lookup k.place sv2.world.streams ≡ some s2
      → s1.reply_body_size_left ≡ s2.reply_body_size_left
      → s1.data_recved ≡ s2.data_recved
      → s1.content_len ≡ s2.content_len
      → SameEffect k sv1 sv2
  ends :
      Alike sv1 sv2
      → lookup k.place sv1.world.streams ≡ none
      → lookup k.place sv2.world.streams ≡ none
      → ((a : Addr) → view sv1.world.memory a ≡ view sv2.world.memory a)
      → SameEffect k sv1 sv2

After-Same :
    {k : Link} {n : ℕ} {got : List ℕ} {sv sv1 sv2 : Server}
    → After k n got sv sv1
    → After k n got sv sv2
    → SameEffect k sv1 sv2
After-Same (unfinished lt c) (unfinished lt' d) =
    waits c.stream d.stream
      (record {
        work = c.tally.1 ∙ sym d.tally.1;
        qps = c.tally.0 ∙ sym d.tally.0;
        closed = c.linked.closed ∙ sym d.linked.closed;
      })
      c.linked.stream d.linked.stream (c.progress.left ∙ sym d.progress.left)
      (c.progress.recved ∙ sym d.progress.recved) (c.progress.content ∙ sym d.progress.content)
After-Same (finished all c) (finished all' d) =
    ends
      (record {
        work = c.work ∙ sym d.work;
        qps = c.qps ∙ sym d.qps;
        closed = c.ended.closed ∙ sym d.ended.closed;
      })
      c.ended.gone d.ended.gone (λ a. c.ended.memory a ∙ sym (d.ended.memory a))
After-Same (unfinished lt c) (finished all d) = absurd (omega (arith, lt, all))
After-Same (finished all c) (unfinished lt d) = absurd (omega (arith, lt, all))

-- A header and a part of its message, or all of it, in pieces: each is not empty and within one read,
-- and the first has the header.
pub record Pieces (n : ℕ) (p : Piece) (ps : List Piece) : Type 0 where
  pub readable : Readable (p ∷ ps)
  pub whole_header : 8 ≤ length p.bytes
  pub header : le_value (take 8 p.bytes) ≡ n
  pub within : length (join (p ∷ ps)) ≤ 8 + n

-- On a connection whose event leads to a stream that is ready and on which no message has begun:
-- two ways to split the same bytes, a header of a message of 1 to LOG_MAX_LEN bytes and as many
-- of these as have come, have the same effect, at whatever times the pieces come. In both the
-- calls of data_transfer return, do_work has been given the same, and the same requests are
-- counted and descriptors closed; and in both the stream waits for the same number of bytes, or
-- it is gone and the blocks of the allocator are the same. malloc(3) is taken not to fail
-- (`Gives`).
pub deliver-join :
    (os : Malloc) ⦃gives : Gives os⦄ (k : Link) (n : ℕ) (sv : Server) (s : TcpStream) (p q : Piece)
    (ps qs : List Piece)
    → 0 < n
    → n ≤ log_max_len
    → Linked k s [] sv.world
    → Fresh s
    → Pieces n p ps
    → Pieces n q qs
    → join (p ∷ ps) ≡ join (q ∷ qs)
    → (sv1 : Server) × (sv2 : Server) × (deliver os k.sock k.event (p ∷ ps) sv ≡ ok tt sv1)
      × (deliver os k.sock k.event (q ∷ qs) sv ≡ ok tt sv2)
      × SameEffect k sv1 sv2
deliver-join os k n sv s p q ps qs pos_n small l f a b e =
    let (u, sv1, e1, after1) = value (
      deliver-After os k n small sv s p ps l f pos_n a.readable a.whole_header a.header a.within) in
    let (v, sv2, e2, after2) = value (
      deliver-After os k n small sv s q qs l f pos_n b.readable b.whole_header b.header b.within) in
    (sv1, sv2, e1, e2, After-Same after1 (subst (λ x. After k n (drop 8 x) sv sv2) (sym e) after2))
