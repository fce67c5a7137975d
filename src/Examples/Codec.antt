-- ===== src/Examples/Codec.antt =====
-- A concrete choice for the libraries outside the repository: fixed-width numbers and then the
-- value for proto.Marshal, and a map that is the file's bytes.
use proglog.Base.{
  ℕ, ◌≡◌, refl, List, ◌++◌, arith, length, take, drop, ltb, length-append, if◌then◌else◌,
  take-append, drop-append,
}
use proglog.Base.Exec.{Result, ok, err, foreign}
use proglog.Bytes.{
  put_uint32, put_uint64, get_be, length-put_uint32, length-put_uint64, get_be-put_uint32,
  get_be-put_uint64,
}
use proglog.Api.{Record, Libs, Reliable, Fits}

unfoldable pub encode_record : Record → List ℕ
encode_record r = put_uint64 r.offset ++ (put_uint64 r.term ++ (put_uint32 r.kind ++ r.value))

unfoldable pub decode_record : List ℕ → Result Record
decode_record b =
    if ltb (length b) 20
    then err (foreign 1)
    else ok (record {
      offset = get_be (take 8 b);
      term = get_be (take 8 (drop 8 b));
      kind = get_be (take 4 (drop 8 (drop 8 b)));
      value = drop 4 (drop 8 (drop 8 b));
    })

pub decode-encode : (r : Record) → Fits r → decode_record (encode_record r) ≡ ok r
unfolding encode_record decode_record
decode-encode r h =
    let tail : List ℕ = put_uint32 r.kind ++ r.value in
    ground (
      arith,
      h,
      length-append (put_uint64 r.offset) (put_uint64 r.term ++ tail),
      length-append (put_uint64 r.term) tail,
      length-append (put_uint32 r.kind) r.value,
      length-put_uint64 r.offset,
      length-put_uint64 r.term,
      length-put_uint32 r.kind,
      take-append (put_uint64 r.offset) (put_uint64 r.term ++ tail) 8,
      drop-append (put_uint64 r.offset) (put_uint64 r.term ++ tail) 8,
      take-append (put_uint64 r.term) tail 8,
      drop-append (put_uint64 r.term) tail 8,
      take-append (put_uint32 r.kind) r.value 4,
      drop-append (put_uint32 r.kind) r.value 4,
      get_be-put_uint64 r.offset h.offset,
      get_be-put_uint64 r.term h.term,
      get_be-put_uint32 r.kind h.kind,
    )

abbrev pub libs : Libs
libs = record {
  marshal = λ r. ok (encode_record r);
  unmarshal = decode_record;
  map_file = λ b. ok b;
  sync_map = λ b m. ok m;
  unmap = λ m. ok tt;
}

ok_injective : {A : Type 0} (a b : A) → ok a ≡ ok b → a ≡ b
ok_injective a b e = cc

pub reliable : Reliable libs
reliable = record {
  unmarshal-marshal = λ r b fits m.
      let e : encode_record r ≡ b = ok_injective (encode_record r) b m in
      rw (← e) (decode-encode r fits);
  maps = λ b. refl;
  syncs = λ b m. refl;
  unmaps = λ m. refl;
}
