-- ===== src/Sockets/Errors.antt =====
-- comm.c: the text of the last error.
use jujube.Base.{
  ℕ, ◌≡◌, ◌-◌, ◌*◌, ◌+◌, ◌∙◌, subst, take-splice_front, Option, none, some, List, [], ◌∷◌, ◌++◌,
  length, length-append, take, splice, arith,
}
use jujube.Print.{print_int, snprintf, snprintf-rest}

-- The size of the static array of xstrerror.
abbrev error_max : ℕ
error_max = 1024 * 4

-- "Unknown error"
abbrev unknown_error : List ℕ
unknown_error =
    b'U' ∷ b'n' ∷ b'k' ∷ b'n' ∷ b'o' ∷ b'w' ∷ b'n' ∷ b' ' ∷ b'e' ∷ b'r' ∷ b'r' ∷ b'o' ∷ b'r' ∷ []

-- What strerror(3) gives, unless it is NULL or the empty text.
unfoldable pub error_message : Option (List ℕ) → List ℕ
error_message none = unknown_error
error_message (some []) = unknown_error
error_message (some (x ∷ xs)) = x ∷ xs

-- "(%d) %s"
unfoldable pub error_line : (errno : ℕ) → List ℕ → List ℕ
error_line errno errmsg = b'(' ∷ (print_int errno ++ b')' ∷ b' ' ∷ errmsg)

-- On the static array: what is in it afterwards; none where it is written behind its end.
xstrerror : (strerror : ℕ → Option (List ℕ)) → (errno : ℕ) → List ℕ → Option (List ℕ)
xstrerror strerror errno xstrerror_buf =
    snprintf xstrerror_buf 0 error_max (error_line errno (error_message (strerror errno)))

-- What the array has room for.
abbrev cut_line : (strerror : ℕ → Option (List ℕ)) → (errno : ℕ) → List ℕ
cut_line strerror errno = take (error_max - 1) (error_line errno (error_message (strerror errno)))

-- Whatever the number of the error and the text that strerror(3) has for it, xstrerror stays within
-- its array, which begins with the text of the error, cut off at 4095 bytes, and a zero.
xstrerror-take :
    (strerror : ℕ → Option (List ℕ)) (errno : ℕ) (xstrerror_buf : List ℕ)
    → length xstrerror_buf ≡ error_max
    → (new : List ℕ) × (xstrerror strerror errno xstrerror_buf ≡ some new)
      × (length new ≡ error_max)
      × (take (length (cut_line strerror errno) + 1) new ≡ cut_line strerror errno ++ 0 ∷ [])
unfolding xstrerror
xstrerror-take strerror errno xstrerror_buf size =
    let line = error_line errno (error_message (strerror errno)) in
    let out = take (error_max - 1) line ++ 0 ∷ [] in
    let n : length xstrerror_buf - 0 ≡ error_max = omega (arith, size) in
    let (written, same) = snprintf-rest xstrerror_buf 0 line (omega (arith, size)) in
    (
      splice xstrerror_buf 0 out,
      subst
          (λ n.
            snprintf xstrerror_buf 0 n line
            ≡ some (splice xstrerror_buf 0 (take (n - 1) line ++ 0 ∷ [])))
          n written,
      subst
            (λ n.
              length (splice xstrerror_buf 0 (take (n - 1) line ++ 0 ∷ [])) ≡ length xstrerror_buf)
            n same
          ∙ size,
      take-splice_front xstrerror_buf out (length (take (error_max - 1) line) + 1)
          (length-append (take (error_max - 1) line) (0 ∷ [])),
    )
