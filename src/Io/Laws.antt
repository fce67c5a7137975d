-- ===== src/Io/Laws.antt =====
-- A buffered writer over a working file: what was written is the file's bytes and then the buffer,
-- whenever the buffer is flushed.
use proglog.Base.{
  ℕ, zero, suc, ◌+◌, ◌-◌, ◌≤◌, ◌<◌, ◌^◌, ◌≡◌, refl, sym, ap, ◌∙◌, List, [], ◌∷◌, ◌++◌, none, some,
  arith, length, take, drop, take-append-drop, append-nil, append_assoc, take-append, drop-append,
  Bool-cases, ◌==◌, inl, inr, true, false,
}
use proglog.Base.Exec.{Result, ok, eof, closed}
use proglog.Io.{
  File, Writer, buffer_size, write_out, flush, write_rest, write_over, write, read_at, close,
}

abbrev pub contents : Writer → List ℕ
contents w = w.file.bytes ++ w.pending

-- `w` works, and what was written so far is `b`.
pub record Wrote (w : Writer) (b : List ℕ) : Type 0 where
  pub healthy : w.file.fault ≡ none
  pub no_error : w.error ≡ none
  pub all : contents w ≡ b

-- An action that returns `a` and leaves `b` written.
abbrev pub Writes {ℓ} : {A : Type ℓ} → Result A × Writer → A → List ℕ → Type ℓ
Writes (r, w) a b = (r ≡ ok a) × Wrote w b

write_out-Writes :
    (w : Writer) (p left b : List ℕ)
    → w.file.fault ≡ none
    → w.error ≡ none
    → (w.file.bytes ++ p) ++ left ≡ b
    → Writes (write_out p left w) tt b
unfolding write_out
write_out-Writes w p left b f e h = ground arith

write_rest-Writes :
    (w : Writer) (p b : List ℕ) → Wrote w b → w.pending ≡ [] → Writes (write_rest p w) tt (b ++ p)
unfolding write_rest write_out
write_rest-Writes w p b h n =
    ground (arith, append-nil w.file.bytes, append-nil (w.file.bytes ++ p))

pub flush-Writes :
    (w : Writer) (b : List ℕ)
    → Wrote w b
    → Writes (flush w) tt b × ((flush w).1.pending ≡ []) × ((flush w).1.file.bytes ≡ b)
unfolding flush write_out
flush-Writes w b h = ground (arith, append-nil w.file.bytes, append-nil (w.file.bytes ++ w.pending))

-- Filling the buffer and going on writes the same bytes.
fill :
    (w : Writer) (p : List ℕ) (n : ℕ)
    → (w.file.bytes ++ (w.pending ++ take n p)) ++ drop n p ≡ contents w ++ p
fill w p n =
    ap (λ (t : List ℕ). t ++ drop n p) (sym (append_assoc w.file.bytes w.pending (take n p)))
    ∙ append_assoc (contents w) (take n p) (drop n p)
    ∙ ap (λ (t : List ℕ). contents w ++ t) (take-append-drop n p)

abbrev after : Writer → List ℕ → Writer
after w p = record w {
  file = record w.file { bytes = w.file.bytes ++ p; position = length (w.file.bytes ++ p) };
  pending = [];
}

write_out-after :
    (w : Writer) (p : List ℕ) → w.file.fault ≡ none → write_out p [] w ≡ (ok tt, after w p)
unfolding write_out
write_out-after w p h = ground arith

fill_then_rest :
    (w : Writer) (p b : List ℕ) (n : ℕ)
    → Wrote w b
    → Writes (write_rest (drop n p) (after w (w.pending ++ take n p))) tt (b ++ p)
fill_then_rest w p b n h =
    let front : List ℕ = w.file.bytes ++ (w.pending ++ take n p) in
    let same : front ++ drop n p ≡ b ++ p = fill w p n ∙ ap (λ (t : List ℕ). t ++ p) h.all in
    rw same at (
      write_rest-Writes (after w (w.pending ++ take n p)) (drop n p) front
        (record { healthy = h.healthy; no_error = h.no_error; all = append-nil front }) refl)

empty_of_length : (p : List ℕ) → (length p == 0) ≡ true → p ≡ []
empty_of_length [] e = refl
empty_of_length (x ∷ p) e = absurd (ground arith)

-- `write_over` fills a buffer that is not empty.
write_over_fill :
    (w : Writer) (p : List ℕ)
    → w.file.fault ≡ none
    → (length w.pending == 0) ≡ false
    → write_over p w
      ≡ write_rest
          (drop (buffer_size - length w.pending) p)
          (after w (w.pending ++ take (buffer_size - length w.pending) p))
unfolding write_over
write_over_fill w p h e =
    ground (arith, write_out-after w (w.pending ++ take (buffer_size - length w.pending) p))

write_over_empty :
    (w : Writer) (p : List ℕ) → (length w.pending == 0) ≡ true → write_over p w ≡ write_out p [] w
unfolding write_over
write_over_empty w p e = ground arith

write_over-Writes : (w : Writer) (p b : List ℕ) → Wrote w b → Writes (write_over p w) tt (b ++ p)
write_over-Writes w p b h = elim (Bool-cases (length w.pending == 0)) [
  | inl e ↦ rw (write_over_empty w p e) (
      write_out-Writes w p [] (b ++ p) h.healthy h.no_error (
        append-nil (w.file.bytes ++ p)
        ∙ ap (λ (t : List ℕ). t ++ p)
            (cc (append-nil w.file.bytes, empty_of_length w.pending e, h.all))))
  | inr e ↦
      rw (write_over_fill w p h.healthy e) (fill_then_rest w p b (buffer_size - length w.pending) h)
]

pub write-Writes : (w : Writer) (p b : List ℕ) → Wrote w b → Writes (write p w) (length p) (b ++ p)
unfolding write
write-Writes w p b h =
    ground (arith, write_over-Writes w p b h, append_assoc w.file.bytes w.pending p)

-- A read of a part of the file returns it.
pub read_at_part :
    (f : File) (front part back : List ℕ) (n off : ℕ)
    → f.fault ≡ none
    → f.bytes ≡ front ++ (part ++ back)
    → off ≡ length front
    → n ≡ length part
    → off < 2 ^ 63
    → read_at f n off ≡ (part, none)
unfolding read_at
read_at_part f front part back n off h e o l b = elim (Bool-cases (n == 0)) [
  | inl z ↦ ground (arith, empty_of_length part (ground arith))
  | inr z ↦ ground (arith, got)
]
  where
    got : take n (drop off f.bytes) ≡ part
    got = rw (e, drop-append front (part ++ back) off o) (take-append part back n l)

length-drop_le : (n : ℕ) (xs : List ℕ) → length (drop n xs) ≤ length xs - n
length-drop_le zero xs = omega arith
length-drop_le (suc n) [] = omega arith
length-drop_le (suc n) (x ∷ xs) = omega (arith, length-drop_le n xs)

length-take_all : (n : ℕ) (xs : List ℕ) → length (take n xs) ≤ length xs
length-take_all zero xs = omega arith
length-take_all (suc n) [] = omega arith
length-take_all (suc n) (x ∷ xs) = omega (arith, length-take_all n xs)

-- A read that the file is too short for is io.EOF.
pub read_at_short :
    (f : File) (n off : ℕ)
    → f.fault ≡ none
    → length f.bytes < off + n
    → 0 < n
    → off < 2 ^ 63
    → (read_at f n off).1 ≡ some eof
unfolding read_at
read_at_short f n off h short pos small =
    ground (arith, length-drop_le off f.bytes, length-take_all n (drop off f.bytes))

pub close_lem : (f : File) → f.fault ≡ none → close f ≡ (ok tt, record f { fault = some closed })
unfolding close
close_lem f h = ground arith
