-- ===== src/Index/Entries.antt =====
-- Entries as bytes, and the slices of a map that hold them.
use proglog.Base.{
  ℕ, ◌+◌, ◌*◌, ◌-◌, ◌<◌, ◌^◌, ◌≡◌, refl, ap, sym, ◌∙◌, List, [], ◌∷◌, ◌++◌, arith, length, take,
  drop, length-append, append_assoc, append-nil, take-append, drop-append,
}
use proglog.Base.Exec.{ok}
use proglog.Bytes.{put_uint32, put_uint64, length-put_uint32, length-put_uint64}
use proglog.Index.{slice, put_slice}

abbrev pub Entry : Type 0
Entry = ℕ × ℕ

abbrev pub IsEntry : Entry → Type 0
IsEntry (off, pos) = (off < 2 ^ 32) × (pos < 2 ^ 64)

unfoldable pub encode : List Entry → List ℕ
encode [] = []
encode ((off, pos) ∷ es) = put_uint32 off ++ (put_uint64 pos ++ encode es)

pub length-encode : (es : List Entry) → length (encode es) ≡ 12 * length es
unfolding encode
length-encode [] = omega arith
length-encode ((off, pos) ∷ es) = omega (
  arith,
  length-append (put_uint32 off) (put_uint64 pos ++ encode es),
  length-append (put_uint64 pos) (encode es),
  length-put_uint32 off,
  length-put_uint64 pos,
  length-encode es,
)

pub encode-append :
    (es : List Entry) (off pos : ℕ)
    → encode (es ++ ((off, pos) ∷ [])) ≡ encode es ++ (put_uint32 off ++ put_uint64 pos)
unfolding encode
encode-append [] off pos = ap (λ t. put_uint32 off ++ t) (append-nil (put_uint64 pos))
encode-append ((o, p) ∷ es) off pos = simp (encode-append es off pos, append_assoc)

-- The entries around one, by the bytes before and behind it.
pub encode-middle :
    (front : List Entry) (off pos : ℕ) (back : List Entry)
    → encode (front ++ ((off, pos) ∷ back))
      ≡ encode front ++ (put_uint32 off ++ (put_uint64 pos ++ encode back))
unfolding encode
encode-middle [] off pos back = refl
encode-middle ((o, p) ∷ es) off pos back = simp (encode-middle es off pos back, append_assoc)

pub slice-middle :
    (m a b c : List ℕ) (lo hi : ℕ)
    → m ≡ a ++ (b ++ c)
    → lo ≡ length a
    → hi ≡ length a + length b
    → slice lo hi m ≡ ok b
unfolding slice
slice-middle m a b c lo hi e l h =
    ground (arith, ap length e, length-append a (b ++ c), length-append b c, part)
  where
    part : take (hi - lo) (drop lo m) ≡ b
    part = rw (e, drop-append a (b ++ c) lo l) (take-append b c (hi - lo) (omega arith))

-- Writing over a middle part of the same length.
pub put_slice-middle :
    (m a b c d : List ℕ) (lo hi : ℕ)
    → m ≡ a ++ (b ++ c)
    → lo ≡ length a
    → hi ≡ length a + length b
    → put_slice lo hi d m ≡ ok (a ++ (d ++ c))
unfolding put_slice
put_slice-middle m a b c d lo hi e l h =
    ground (arith, ap length e, length-append a (b ++ c), length-append b c, before, behind)
  where
    before : take lo m ≡ a
    before = rw e (take-append a (b ++ c) lo l)

    behind : drop hi m ≡ c
    behind =
        rw (e ∙ sym (append_assoc a b c))
          (drop-append (a ++ b) c hi (omega (arith, length-append a b)))
