-- ===== src/Sockets/Tests.antt =====
-- xstrerror: the texts of two errors.
use jujube.Base.{◌≡◌, refl, none, some, [], ◌∷◌}
use jujube.Print.{print_int, print_unsigned, print_digits}
use jujube.Sockets.Errors.{error_message, error_line}

-- (2) no
line_of_two : error_line 2 (b'n' ∷ b'o' ∷ []) ≡ b'(' ∷ b'2' ∷ b')' ∷ b' ' ∷ b'n' ∷ b'o' ∷ []
unfolding error_line print_int print_unsigned print_digits
line_of_two = refl

-- (133) and the text for an error without one.
line_without_text :
    error_line 133 (error_message (some []))
    ≡ b'(' ∷ b'1' ∷ b'3' ∷ b'3' ∷ b')' ∷ b' ' ∷ error_message none
unfolding error_line error_message print_int print_unsigned print_digits
line_without_text = refl
