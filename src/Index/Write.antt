-- ===== src/Index/Write.antt =====
-- Write of the index: it adds an entry, if there is room.
use proglog.Base.{
  ℕ, ◌+◌, ◌≤◌, ◌≡◌, refl, ap, sym, ◌∙◌, List, [], ◌∷◌, ◌++◌, arith, length, take, drop,
  length-append, append_assoc, All, true, false, take-append-drop, length-take_le, length-drop_add,
}
use proglog.Base.Exec.{ok, err, eof}
use proglog.Bytes.{put_uint32, put_uint64, length-put_uint32, length-put_uint64}
use proglog.Index.{Index, put_slice, write, is_maxed}
use proglog.Index.Entries.{Entry, IsEntry, encode, length-encode, encode-append, put_slice-middle}
use proglog.Index.Refine.{Lists, mapped_size}

All-append :
    (es : List Entry) (e : Entry) → All IsEntry es → IsEntry e → All IsEntry (es ++ (e ∷ []))
All-append [] e h k = (k, tt)
All-append (x ∷ es) e h k = (h.0, All-append es e h.1 k)

module _ (i : Index) (es : List Entry) (off pos : ℕ) (h : Lists i es)
    (room : is_maxed i ≡ false) where
  behind : List ℕ
  behind = drop 8 (drop 4 h.rest)

  written : Index
  unfolding behind
  written = record i {
    mmap = (encode es ++ put_uint32 off) ++ (put_uint64 pos ++ behind);
    size = i.size + 12;
  }

  twelve : 12 ≤ length h.rest
  unfolding is_maxed
  twelve = ground (arith, mapped_size i es h, h.sized, h.small)

  put_off :
      put_slice i.size (i.size + 4) (put_uint32 off) i.mmap
      ≡ ok (encode es ++ (put_uint32 off ++ drop 4 h.rest))
  put_off =
      put_slice-middle i.mmap (encode es) (take 4 h.rest) (drop 4 h.rest) (put_uint32 off) i.size
        (i.size + 4)
        (h.mapped ∙ ap (λ (t : List ℕ). encode es ++ t) (sym (take-append-drop 4 h.rest)))
        (omega (arith, h.sized, length-encode es))
        (omega (arith, h.sized, length-encode es, length-take_le 4 h.rest (omega (arith, twelve))))

  put_pos :
      put_slice
        (i.size + 4)
        (i.size + 12)
        (put_uint64 pos)
        (encode es ++ (put_uint32 off ++ drop 4 h.rest))
      ≡ ok ((encode es ++ put_uint32 off) ++ (put_uint64 pos ++ behind))
  unfolding behind
  put_pos =
      put_slice-middle (encode es ++ (put_uint32 off ++ drop 4 h.rest))
        (encode es ++ put_uint32 off) (take 8 (drop 4 h.rest)) (drop 8 (drop 4 h.rest))
        (put_uint64 pos) (i.size + 4) (i.size + 12)
        (ap (λ (t : List ℕ). encode es ++ (put_uint32 off ++ t))
            (sym (take-append-drop 8 (drop 4 h.rest)))
          ∙ sym (append_assoc (encode es) (put_uint32 off) _))
        (omega (
          arith,
          h.sized,
          length-encode es,
          length-put_uint32 off,
          length-append (encode es) (put_uint32 off),
        ))
        (omega (
          arith,
          h.sized,
          length-encode es,
          length-put_uint32 off,
          length-append (encode es) (put_uint32 off),
          length-take_le 8 (drop 4 h.rest)
              (omega (arith, twelve, length-drop_add 4 h.rest (omega (arith, twelve)))),
        ))

  write-written : write off pos i ≡ (ok tt, written)
  unfolding write written
  write-written =
      ground (arith, room, put_off, put_pos, h.sized, h.small, mapped_size i es h, twelve)

  length-written : length written.mmap ≡ length i.mmap
  unfolding written behind
  length-written = omega (
    arith,
    twelve,
    mapped_size i es h,
    length-encode es,
    length-append (encode es ++ put_uint32 off) (put_uint64 pos ++ behind),
    length-append (encode es) (put_uint32 off),
    length-append (put_uint64 pos) behind,
    length-put_uint32 off,
    length-put_uint64 pos,
    length-drop_add 4 h.rest (omega (arith, twelve)),
    length-drop_add 8 (drop 4 h.rest)
        (omega (arith, twelve, length-drop_add 4 h.rest (omega (arith, twelve)))),
  )

  written-Lists : IsEntry (off, pos) → Lists written (es ++ ((off, pos) ∷ []))
  unfolding written
  written-Lists fits = record {
    healthy = h.healthy;
    sized = omega (arith, h.sized, length-append es ((off, pos) ∷ []));
    rest = behind;
    mapped =
        simp append_assoc
          (sym (ap (λ (t : List ℕ). t ++ behind) (encode-append es off pos) ∙ simp append_assoc));
    small = omega (arith, h.small, length-written);
    entries = All-append es (off, pos) h.entries fits;
  }

-- Write on an index that has room adds an entry at the end.
pub write-Lists :
    (i : Index) (es : List Entry) (off pos : ℕ)
    → Lists i es
    → is_maxed i ≡ false
    → IsEntry (off, pos)
    → ((write off pos i).0 ≡ ok tt) × Lists (write off pos i).1 (es ++ ((off, pos) ∷ []))
write-Lists i es off pos h room fits =
    rw (write-written i es off pos h room) (refl, written-Lists i es off pos h room fits)

-- Write on a full index is io.EOF, and changes nothing.
pub write_full : (i : Index) (off pos : ℕ) → is_maxed i ≡ true → write off pos i ≡ (err eof, i)
unfolding write
write_full i off pos full = rw full

-- It keeps the size of the map.
pub write-mmap :
    (i : Index) (es : List Entry) (off pos : ℕ)
    → Lists i es
    → is_maxed i ≡ false
    → length (write off pos i).1.mmap ≡ length i.mmap
write-mmap i es off pos h room =
    rw (write-written i es off pos h room) (length-written i es off pos h room)
