-- ===== src/Cpu/FileLaws.antt =====
-- How much `read_file` reads, and what interrupted calls change.
use android_vshell.Base.{ℕ, zero, suc, ◌+◌, ◌-◌, ◌≤◌, ◌≡◌, refl, arith}
use android_vshell.Base.{some, List, [], ◌∷◌, ◌++◌, length, length-append, length-take-le, take}
use android_vshell.Cpu.Files.{Answer, bytes, eintr, failure, read_loop, read_file}

read_loop-le :
    (buffer : List ℕ) (room : ℕ) (answers : List Answer) {content : List ℕ}
    → read_loop buffer room answers ≡ some content
    → length content ≤ length buffer + room
unfolding read_loop
read_loop-le buffer zero answers h = ground arith
read_loop-le buffer (suc room) [] h = ground arith
read_loop-le buffer (suc room) (eintr ∷ rest) h = read_loop-le buffer (suc room) rest h
read_loop-le buffer (suc room) (failure ∷ rest) h = ground arith
read_loop-le buffer (suc room) (bytes [] ∷ rest) h = ground arith
read_loop-le buffer (suc room) (bytes (b ∷ bs) ∷ rest) h = omega (
  arith,
  read_loop-le (buffer ++ take (suc room) (b ∷ bs)) (suc room - length (take (suc room) (b ∷ bs)))
      rest h,
  length-append buffer (take (suc room) (b ∷ bs)),
  length-take-le (suc room) (b ∷ bs),
)

-- `read_file` never reads more than `buffsize` bytes.
read_file-le :
    (answers : List Answer) (buffsize : ℕ) {content : List ℕ}
    → read_file (some answers) buffsize ≡ some content
    → length content ≤ buffsize
unfolding read_file
read_file-le answers buffsize h = omega (arith, read_loop-le [] buffsize answers h)

-- The answers without the interrupted calls.
unfoldable pub uninterrupted : List Answer → List Answer
uninterrupted [] = []
uninterrupted (eintr ∷ rest) = uninterrupted rest
uninterrupted (failure ∷ rest) = failure ∷ uninterrupted rest
uninterrupted (bytes bs ∷ rest) = bytes bs ∷ uninterrupted rest

read_loop-uninterrupted :
    (buffer : List ℕ) (room : ℕ) (answers : List Answer)
    → read_loop buffer room answers ≡ read_loop buffer room (uninterrupted answers)
unfolding read_loop uninterrupted
read_loop-uninterrupted buffer zero answers = refl
read_loop-uninterrupted buffer (suc room) [] = refl
read_loop-uninterrupted buffer (suc room) (eintr ∷ rest) =
    read_loop-uninterrupted buffer (suc room) rest
read_loop-uninterrupted buffer (suc room) (failure ∷ rest) = refl
read_loop-uninterrupted buffer (suc room) (bytes [] ∷ rest) = refl
read_loop-uninterrupted buffer (suc room) (bytes (b ∷ bs) ∷ rest) =
    read_loop-uninterrupted (buffer ++ take (suc room) (b ∷ bs))
      (suc room - length (take (suc room) (b ∷ bs))) rest

-- Calls of read that fail with EINTR leave the result of `read_file` as it is without them.
pub read_file-uninterrupted :
    (answers : List Answer) (buffsize : ℕ)
    → read_file (some answers) buffsize ≡ read_file (some (uninterrupted answers)) buffsize
unfolding read_file
read_file-uninterrupted answers buffsize = read_loop-uninterrupted [] buffsize answers
