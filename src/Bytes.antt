-- ===== src/Bytes.antt =====
-- `enc = binary.BigEndian` of internal/log/store.go: fixed-width numbers as bytes.
use proglog.Base.{
  ℕ, zero, suc, ◌+◌, ◌*◌, ◌/◌, ◌%◌, ◌^◌, ◌<◌, ◌≡◌, refl, List, [], ◌∷◌, ◌++◌, arith, length,
  length-append,
}
use mathlib.Core.List.{foldl, foldl-append}
use native.Mathlib.Nat.{pow-suc}

-- PutUint32 and PutUint64 at widths 4 and 8: the most significant byte first.
pub put_be : ℕ → ℕ → List ℕ
put_be zero v = []
put_be (suc w) v = put_be w (v / 256) ++ ((v % 256) ∷ [])

-- Uint32 and Uint64.
unfoldable pub get_be : List ℕ → ℕ
get_be = foldl (λ acc b. acc * 256 + b) 0

unfoldable pub put_uint32 : ℕ → List ℕ
unfolding put_be
put_uint32 v = put_be 4 v

unfoldable pub put_uint64 : ℕ → List ℕ
unfolding put_be
put_uint64 v = put_be 8 v

length-put_be : (w v : ℕ) → length (put_be w v) ≡ w
unfolding put_be
length-put_be zero v = refl
length-put_be (suc w) v =
    omega (arith, length-append (put_be w (v / 256)) ((v % 256) ∷ []), length-put_be w (v / 256))

get_be-put_be : (w v : ℕ) → v < 256 ^ w → get_be (put_be w v) ≡ v
unfolding put_be get_be
get_be-put_be zero v h = omega arith
get_be-put_be (suc w) v h =
    rw foldl-append (omega (arith, get_be-put_be w (v / 256) (omega (arith, pow-suc 256 w))))

pub length-put_uint32 : (v : ℕ) → length (put_uint32 v) ≡ 4
unfolding put_uint32
length-put_uint32 v = refl

pub length-put_uint64 : (v : ℕ) → length (put_uint64 v) ≡ 8
unfolding put_uint64
length-put_uint64 v = refl

pub get_be-put_uint32 : (v : ℕ) → v < 2 ^ 32 → get_be (put_uint32 v) ≡ v
unfolding put_uint32
get_be-put_uint32 v h = get_be-put_be 4 v h

pub get_be-put_uint64 : (v : ℕ) → v < 2 ^ 64 → get_be (put_uint64 v) ≡ v
unfolding put_uint64
get_be-put_uint64 v h = get_be-put_be 8 v h
