-- ===== src/Log/Reader/Copies.antt =====
-- The Reader of a log gives the frames of all its payloads, in their order.
use proglog.Base.{
  ℕ, zero, suc, ◌+◌, ◌≤◌, ◌<◌, ◌^◌, ◌≡◌, refl, ap, sym, ◌∙◌, List, [], ◌∷◌, ◌++◌, Option, some,
  none, arith, length, length-append, append_assoc, append-nil, take, drop, ltb, if◌then◌else◌,
  Bool-cases, inl, inr, take-append-drop, length-drop_add, ltb→lt,
}
use proglog.Base.Exec.{Error, Result, ok, eof}
use proglog.Io
use proglog.Io.{File, Writer}
use proglog.Io.Laws.{flush-Writes}
use proglog.Store
use proglog.Store.{Store}
use proglog.Store.Refine.{Holds as StoreHolds}
use proglog.Log.Reader.{Origin, Sink, origin_read, sink_write, Copying, after_read, copy_origin}

-- What a read of `n` bytes at `off` sees of the bytes `b`.
abbrev part_of : List ℕ → ℕ → ℕ → List ℕ
part_of b n off = take n (drop off b)

abbrev end_of : List ℕ → ℕ → ℕ → Option Error
end_of b n off = if ltb (length (part_of b n off)) n then some eof else none

read_at_lem :
    (f : File) (b : List ℕ) (n off : ℕ)
    → f.fault ≡ none
    → f.bytes ≡ b
    → 0 < n
    → off < 2 ^ 63
    → Io.read_at f n off ≡ (part_of b n off, end_of b n off)
unfolding Io.read_at
read_at_lem f b n off h e pos small = ground (arith, h, e)

store-read_at :
    (s : Store) (b : List ℕ) (n off : ℕ)
    → StoreHolds s b
    → 0 < n
    → off < 2 ^ 63
    → ((Store.read_at n off s).0 ≡ ok (part_of b n off, end_of b n off))
      × StoreHolds (Store.read_at n off s).1 b
unfolding Store.read_at
store-read_at s b n off h pos small =
    let flushed = flush-Writes s.buf b h.wrote in
    let got = read_at_lem (Io.flush s.buf).1.file b n off flushed.0.1.healthy flushed.2 pos small in
    (
      ground (arith, flushed.0.0, got),
      record { wrote = ground (arith, flushed.0); sized = ground (arith, flushed.0.0, h.sized) },
    )

short_take : (n : ℕ) (xs : List ℕ) → length (take n xs) < n → take n xs ≡ xs
short_take zero xs h = absurd (omega arith)
short_take (suc n) [] h = refl
short_take (suc n) (x ∷ xs) h = ap (λ t. x ∷ t) (short_take n xs (omega arith))

length-take_at_most : (n : ℕ) (xs : List ℕ) → length (take n xs) ≤ n
length-take_at_most zero xs = omega arith
length-take_at_most (suc n) [] = omega arith
length-take_at_most (suc n) (x ∷ xs) = omega (arith, length-take_at_most n xs)

drop_nil : (n : ℕ) → drop {A = ℕ} n [] ≡ []
drop_nil zero = refl
drop_nil (suc n) = refl

drop-drop : (m n : ℕ) (xs : List ℕ) → drop n (drop m xs) ≡ drop (m + n) xs
drop-drop zero n xs = ap (λ k. drop k xs) (omega arith)
drop-drop (suc m) n [] = drop_nil n ∙ sym (drop_nil (suc m + n))
drop-drop (suc m) n (x ∷ xs) =
    let e : suc m + n ≡ suc (m + n) = omega arith in rw e (drop-drop m n xs)

-- One reading, written to the sink.
abbrev read_once : ℕ → ℕ → List ℕ → Copying → Copying
read_once n off b c = record {
  from = record {
    store = (Store.read_at n off c.from.store).1;
    off = off + length (part_of b n off);
  };
  sink = record c.sink { written = c.sink.written ++ part_of b n off };
}

origin_read-part :
    (n off : ℕ) (b : List ℕ) (o : Origin)
    → StoreHolds o.store b
    → o.off ≡ off
    → 0 < n
    → off < 2 ^ 63
    → origin_read n o ≡ (
      ok (part_of b n off, end_of b n off),
      record { store = (Store.read_at n off o.store).1; off = off + length (part_of b n off) },
    )
unfolding origin_read
origin_read-part n off b o h e pos small =
    let (got, _) = store-read_at o.store b n o.off h pos (rw e small) in
    rw (← e) (rw (origin_read, got) refl)

sink_write_lem :
    (b : List ℕ) (k : Sink)
    → k.fault ≡ none
    → sink_write b k ≡ (ok tt, record k { written = k.written ++ b })
unfolding sink_write
sink_write_lem [] k f = ap (λ t. (ok tt, record k { written = t })) (sym (append-nil k.written))
sink_write_lem (x ∷ b) k f = rw f refl

copy_step :
    (fuel n off : ℕ) (b : List ℕ) (c : Copying)
    → StoreHolds c.from.store b
    → c.from.off ≡ off
    → 0 < n
    → off < 2 ^ 63
    → c.sink.fault ≡ none
    → copy_origin (suc fuel) n c
      ≡ after_read (end_of b n off) (copy_origin fuel n) (read_once n off b c)
unfolding copy_origin
copy_step fuel n off b c h o pos small f =
    rw (origin_read-part n off b c.from h o pos small, sink_write_lem (part_of b n off) c.sink f)
      refl

-- What copying the rest of the store does.
pub record Copied (b : List ℕ) (off : ℕ) (c : Copying) (out : Result (Unit {0}) × Copying)
    : Type 0 where
  pub okay : out.0 ≡ ok tt
  pub store : StoreHolds out.1.from.store b
  pub sink : out.1.sink ≡ record c.sink { written = c.sink.written ++ drop off b }

pub copy_origin-Copied :
    (fuel n off : ℕ) (b : List ℕ) (c : Copying)
    → StoreHolds c.from.store b
    → c.from.off ≡ off
    → off ≤ length b
    → length b < fuel + off
    → 0 < n
    → length b < 2 ^ 63
    → c.sink.fault ≡ none
    → Copied b off c (copy_origin fuel n c)
copy_origin-Copied zero n off b c h o le fits pos small f = absurd (omega arith)
copy_origin-Copied (suc fuel) n off b c h o le fits pos small f =
    let (_, holds) = store-read_at c.from.store b n off h pos (omega arith) in
    let size : length (part_of b n off) + length (drop n (drop off b)) ≡ length (drop off b) =
      sym (length-append (part_of b n off) (drop n (drop off b)))
      ∙ ap length (take-append-drop n (drop off b)) in
    rw (copy_step fuel n off b c h o pos (omega arith) f)
      (elim (Bool-cases (ltb (length (part_of b n off)) n)) [
        | inl e ↦ rw e (record {
          okay = refl;
          store = holds;
          sink =
              ap (λ t. record c.sink { written = c.sink.written ++ t })
                (short_take n (drop off b) (ltb→lt _ _ e));
        })
        | inr e ↦
            let full : length (part_of b n off) ≡ n =
              ground (arith, e, length-take_at_most n (drop off b)) in
            let rest =
              copy_origin-Copied fuel n (off + n) b (read_once n off b c) holds
                (ap (λ k. off + k) full) (omega (arith, size, full, length-drop_add off b le))
                (omega arith) pos small f in
            rw e (record {
              okay = rest.okay;
              store = rest.store;
              sink =
                  rest.sink
                  ∙ ap (λ t. record c.sink { written = t })
                      (append_assoc c.sink.written (part_of b n off) (drop (off + n) b)
                        ∙ ap (λ t. c.sink.written ++ t)
                            (ap (λ t. part_of b n off ++ t) (sym (drop-drop off n b))
                              ∙ take-append-drop n (drop off b)));
            })
      ])
