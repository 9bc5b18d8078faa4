-- ===== src/Stream/Free.antt =====
-- free_transaction_stream frees the blocks of the stream, each once.
use jujube.Base.{
  ◌≡◌, refl, sym, ap, ◌∙◌, fun_ext, none, some, Option, List, [], ◌∷◌, ◌++◌, Distinct,
}
use jujube.Base.Run.{Returns, ◌>>◌, and_then_assoc, and_then-pure}
use jujube.Mem.{Addr, Memory, mem_free}
use jujube.Mem.Inv.{Inv}
use jujube.Mem.Batch.{InUse, AllFreed, free_all, free_all-AllFreed}
use jujube.Buf.{Buf}
use jujube.Stream.{BufBox, TcpStream, set_in, free_work, free_transaction_stream}

-- The blocks of a stream, in the order in which they are freed.
abbrev pub work_blocks : Option BufBox → List Addr
work_blocks none = []
work_blocks (some b) = b.buf.buffer ∷ b.self ∷ []

abbrev pub blocks : TcpStream → List Addr
blocks s =
    s.in_buf.buf.buffer
    ∷ s.in_buf.self
    ∷ s.out_buf.buf.buffer
    ∷ s.out_buf.self
    ∷ (work_blocks s.work_buf ++ s.self ∷ [])

-- Another `out_buf` or `in_buf` in the same blocks.
pub blocks-out :
    (s : TcpStream) (b : BufBox)
    → b.buf.buffer ≡ s.out_buf.buf.buffer
    → b.self ≡ s.out_buf.self
    → blocks (record s { out_buf = b }) ≡ blocks s
blocks-out s b e f = rw (e, f) refl

pub blocks-in :
    (s : TcpStream) (b : Buf) → b.buffer ≡ s.in_buf.buf.buffer → blocks (set_in s b) ≡ blocks s
blocks-in s b e = rw e refl

free_all-single : (a : Addr) → free_all (a ∷ []) ≡ mem_free a
unfolding free_all
free_all-single a = fun_ext (λ m. and_then-pure (mem_free a m))

free_work-free_all :
    (work : Option BufBox) (a : Addr)
    → (free_work work >> mem_free a) ≡ free_all (work_blocks work ++ a ∷ [])
unfolding free_work free_all
free_work-free_all none a = sym (free_all-single a)
free_work-free_all (some w) a =
    fun_ext (λ m. and_then_assoc (mem_free w.buf.buffer m) (λ _. mem_free w.self) (λ _. mem_free a))
    ∙ ap (λ k. mem_free w.buf.buffer >> (mem_free w.self >> k)) (sym (free_all-single a))

free_transaction_stream-free_all :
    (s : TcpStream) → free_transaction_stream (some s) ≡ free_all (blocks s)
unfolding free_transaction_stream free_all
free_transaction_stream-free_all s =
    ap
      (λ k.
        mem_free s.in_buf.buf.buffer
        >> (mem_free s.in_buf.self
            >> (mem_free s.out_buf.buf.buffer >> (mem_free s.out_buf.self >> k))))
      (free_work-free_all s.work_buf s.self)

-- In an allocator with its invariant a stream whose blocks are distinct and in use is freed
-- without a failed assertion or a bad access: exactly its blocks go, a work buffer's included, and
-- every other block in use keeps its bytes.
pub free_transaction_stream-AllFreed :
    (m : Memory) (s : TcpStream)
    → Inv m
    → Distinct (blocks s)
    → InUse m (blocks s)
    → Returns (λ _ m'. AllFreed m (blocks s) m') (free_transaction_stream (some s) m)
free_transaction_stream-AllFreed m s v d u =
    rw (free_transaction_stream-free_all s) (free_all-AllFreed m (blocks s) v d u)
