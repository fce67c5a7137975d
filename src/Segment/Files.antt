-- ===== src/Segment/Files.antt =====
-- The files of one segment among those of the directory.
use proglog.Base.{ℕ, ◌≡◌, refl, List, [], ◌∷◌, map, some, arith, false, Bool-cases, inl, inr}
use proglog.Disk
use proglog.Disk.{Disk, Name, Files}
use proglog.Segment.{store_name, index_name}

-- The numbers in the files' names.
abbrev pub stems : Files → List ℕ
stems fs = map (λ (n : Name). n.stem) (map (λ (f : Name × List ℕ). f.0) fs)

abbrev pub IsPresent : Name → Files → Type 0
IsPresent n fs = (b : List ℕ) × (Disk.find n fs ≡ some b)

abbrev pub HasFiles : Files → ℕ → Type 0
HasFiles fs base = IsPresent (store_name base) fs × IsPresent (index_name base) fs

pub stems-update : (n : Name) (b : List ℕ) (fs : Files) → stems (Disk.update n b fs) ≡ stems fs
unfolding Disk.update
stems-update n b [] = refl
stems-update n b ((m, c) ∷ fs) = ground (arith, stems-update n b fs)

pub find-update :
    (n : Name) (b c : List ℕ) (fs : Files)
    → Disk.find n fs ≡ some c
    → Disk.find n (Disk.update n b fs) ≡ some b
unfolding Disk.find Disk.update
find-update n b c [] h = cc
find-update n b c ((m, a) ∷ fs) h = ground (arith, find-update n b c fs)

-- A write keeps every file.
pub update-IsPresent :
    (n m : Name) (b : List ℕ) (fs : Files) → IsPresent n fs → IsPresent n (Disk.update m b fs)
unfolding Disk.find Disk.update
update-IsPresent n m b [] (c, h) = cc
update-IsPresent n m b ((k, a) ∷ fs) (c, h) = elim (Bool-cases (Disk.same_name k m)) [
  | inl e ↦ elim (Bool-cases (Disk.same_name k n)) [
    | inl f ↦ (b, ground (arith, e, f))
    | inr f ↦ (c, ground (arith, e, f, h))
  ]
  | inr e ↦ elim (Bool-cases (Disk.same_name k n)) [
    | inl f ↦ (a, ground (arith, e, f))
    | inr f ↦
        let (x, g) = update-IsPresent n m b fs (c, ground (arith, f, h)) in
        (x, ground (arith, e, f, g))
  ]
]

pub cons-IsPresent :
    (n m : Name) (b : List ℕ) (fs : Files) → IsPresent n fs → IsPresent n ((m, b) ∷ fs)
unfolding Disk.find
cons-IsPresent n m b fs (c, h) = elim (Bool-cases (Disk.same_name m n)) [
  | inl e ↦ (b, ground (arith, e))
  | inr e ↦ (c, ground (arith, e, h))
]

pub write_back-IsPresent :
    (n m : Name) (b : List ℕ) (d : Disk)
    → IsPresent n d.files
    → IsPresent n (Disk.write_back m b d).files
unfolding Disk.write_back
write_back-IsPresent n m b d h = update-IsPresent n m b d.files h

-- A write to the store or the index of another number, or to the index beside a store.
pub find-update_other :
    (n m : Name) (b : List ℕ) (fs : Files)
    → Disk.same_name m n ≡ false
    → Disk.find n (Disk.update m b fs) ≡ Disk.find n fs
unfolding Disk.find Disk.update
find-update_other n m b [] h = refl
find-update_other n m b ((k, a) ∷ fs) h = ground (arith, find-update_other n m b fs h)

pub write_back-stems :
    (n : Name) (b : List ℕ) (d : Disk) → stems (Disk.write_back n b d).files ≡ stems d.files
unfolding Disk.write_back
write_back-stems n b d = stems-update n b d.files

pub find-write_back :
    (n : Name) (b : List ℕ) (d : Disk)
    → IsPresent n d.files
    → Disk.find n (Disk.write_back n b d).files ≡ some b
unfolding Disk.write_back
find-write_back n b d (c, h) = find-update n b c d.files h

pub find-write_back_other :
    (n m : Name) (b : List ℕ) (d : Disk)
    → Disk.same_name m n ≡ false
    → Disk.find n (Disk.write_back m b d).files ≡ Disk.find n d.files
unfolding Disk.write_back
find-write_back_other n m b d h = find-update_other n m b d.files h
