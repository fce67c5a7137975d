-- ===== src/Index/Refine.antt =====
-- An index stands for the list of its entries.
use proglog.Base.{
  ℕ, zero, suc, ◌+◌, ◌*◌, ◌≤◌, ◌<◌, ◌^◌, ◌≡◌, refl, ap, sym, ◌∙◌, List, [], ◌∷◌, ◌++◌, some, none,
  arith, length, length-append, append_assoc, All, get_elem?, split_at, get_elem?-append_right,
}
use proglog.Base.Exec.{ok, err, eof}
use proglog.Bytes.{
  put_uint32, put_uint64, length-put_uint32, length-put_uint64, get_be-put_uint32,
  get_be-put_uint64,
}
use proglog.Index.{Index, slice, read, minus_one, place_of}
use proglog.Index.Entries.{Entry, IsEntry, encode, length-encode, encode-middle, slice-middle}

-- The entries stand at the front of the map, and `rest` is the room behind them.
pub record Lists (i : Index) (es : List Entry) : Type 0 where
  pub healthy : i.file.fault ≡ none
  pub sized : i.size ≡ 12 * length es
  pub rest : List ℕ
  pub mapped : i.mmap ≡ encode es ++ rest
  pub small : length i.mmap < 2 ^ 32
  pub entries : All IsEntry es

All-get :
    (es : List Entry) (k : ℕ) (e : Entry) → All IsEntry es → get_elem? es k ≡ some e → IsEntry e
All-get [] k e h g = cc
All-get (x ∷ es) zero e h g = ground (arith)
All-get (x ∷ es) (suc k) e h g = All-get es k e h.1 g

module _ (i : Index) (es : List Entry) (h : Lists i es) where
  pub mapped_size : length i.mmap ≡ 12 * length es + length h.rest
  mapped_size =
      omega (arith, ap length h.mapped, length-append (encode es) h.rest, length-encode es)

  -- The slices of an entry, by the entries before and behind it.
  module _ (front : List Entry) (off pos : ℕ) (back : List Entry)
      (e : es ≡ front ++ ((off, pos) ∷ back)) where
    layout :
        i.mmap ≡ encode front ++ (put_uint32 off ++ (put_uint64 pos ++ (encode back ++ h.rest)))
    layout =
        h.mapped
        ∙ ap (λ t. encode t ++ h.rest) e
        ∙ ap (λ (t : List ℕ). t ++ h.rest) (encode-middle front off pos back)
        ∙ simp append_assoc

    slice_off : slice (length front * 12) (length front * 12 + 4) i.mmap ≡ ok (put_uint32 off)
    slice_off =
        slice-middle i.mmap (encode front) (put_uint32 off)
          (put_uint64 pos ++ (encode back ++ h.rest)) (length front * 12) (length front * 12 + 4)
          layout (omega (arith, length-encode front))
          (omega (arith, length-encode front, length-put_uint32 off))

    slice_pos : slice (length front * 12 + 4) (length front * 12 + 12) i.mmap ≡ ok (put_uint64 pos)
    slice_pos =
        slice-middle i.mmap (encode front ++ put_uint32 off) (put_uint64 pos)
          (encode back ++ h.rest) (length front * 12 + 4) (length front * 12 + 12)
          (layout
            ∙ sym (
                append_assoc (encode front) (put_uint32 off)
                  (put_uint64 pos ++ (encode back ++ h.rest))))
          (omega (
            arith,
            length-encode front,
            length-put_uint32 off,
            length-append (encode front) (put_uint32 off),
          ))
          (omega (
            arith,
            length-encode front,
            length-put_uint32 off,
            length-put_uint64 pos,
            length-append (encode front) (put_uint32 off),
          ))

    read_place :
        (n : ℕ)
        → place_of n i.size ≡ length front
        → IsEntry (off, pos)
        → read n i ≡ (ok (off, pos), i)
    unfolding read
    read_place n p fits = ground (
      arith,
      slice_off,
      slice_pos,
      get_be-put_uint32 off,
      get_be-put_uint64 pos,
      h.sized,
      ap length e,
      length-append front ((off, pos) ∷ back),
    )

module _ (i : Index) (es : List Entry) (h : Lists i es) where
  -- Read at the place of an entry returns it.
  pub read-get : (k : ℕ) (e : Entry) → get_elem? es k ≡ some e → read k i ≡ (ok e, i)
  read-get k (off, pos) g =
      let (front, back, e, l) = split_at es k (off, pos) g in
      read_place i es h front off pos back e k
        (ground (
          arith,
          l,
          h.sized,
          h.small,
          mapped_size i es h,
          ap length e,
          length-append front ((off, pos) ∷ back),
        ))
        (All-get es k (off, pos) h.entries g)

  -- Read at or past the end is io.EOF.
  pub read-out : (k : ℕ) → length es ≤ k → k < 2 ^ 32 → read k i ≡ (err eof, i)
  unfolding read
  read-out k past small = ground (arith, h.sized)

-- Read at -1 returns the last entry.
pub read-last :
    (i : Index) (es : List Entry) (e : Entry)
    → Lists i (es ++ (e ∷ []))
    → read minus_one i ≡ (ok e, i)
read-last i es (off, pos) h =
    read_place i (es ++ ((off, pos) ∷ [])) h es off pos [] refl minus_one
      (omega (
        arith,
        h.sized,
        h.small,
        mapped_size i (es ++ ((off, pos) ∷ [])) h,
        length-append es ((off, pos) ∷ []),
      ))
      (All-get (es ++ ((off, pos) ∷ [])) (length es) (off, pos) h.entries
        (get_elem?-append_right es ((off, pos) ∷ []) (length es) 0 (omega arith)))

-- Read at -1 of an empty index is io.EOF.
pub read-empty : (i : Index) → Lists i [] → read minus_one i ≡ (err eof, i)
unfolding read
read-empty i h = ground (arith, h.sized)
