-- ===== src/Io/Position.antt =====
-- Where the handle of a file stands that is only appended to, through a bufio.Writer.
use proglog.Base.{ℕ, ◌≡◌, List, [], arith, length, ◌++◌, ◌-◌, take, drop}
use proglog.Io.{File, Writer, write, write_over, write_rest, write_out, buffer_size}

-- The position is behind the last byte.
abbrev pub IsAtEnd : File → Type 0
IsAtEnd f = f.position ≡ length f.bytes

write_out-IsAtEnd :
    (p left : List ℕ) (w : Writer) → IsAtEnd w.file → IsAtEnd (write_out p left w).1.file
unfolding write_out
write_out-IsAtEnd p left w h = ground arith

write_rest-IsAtEnd : (p : List ℕ) (w : Writer) → IsAtEnd w.file → IsAtEnd (write_rest p w).1.file
unfolding write_rest
write_rest-IsAtEnd p w h = ground (arith, write_out-IsAtEnd p [] w h)

write_over-IsAtEnd : (p : List ℕ) (w : Writer) → IsAtEnd w.file → IsAtEnd (write_over p w).1.file
unfolding write_over
write_over-IsAtEnd p w h =
    let room : ℕ = buffer_size - length w.pending in
    let filled : List ℕ = w.pending ++ take room p in
    let out = write_out-IsAtEnd filled [] w h in
    ground (
      arith,
      write_out-IsAtEnd p [] w h,
      out,
      write_rest-IsAtEnd (drop room p) (write_out filled [] w).1 out,
    )

-- A write through the buffer keeps it there.
pub write-IsAtEnd : (p : List ℕ) (w : Writer) → IsAtEnd w.file → IsAtEnd (write p w).1.file
unfolding write
write-IsAtEnd p w h = ground (arith, write_over-IsAtEnd p w h)
