-- ===== src/Disk.antt =====
-- The directory of a log as the code of internal/log sees it through package os.
-- Files are named by a number and an extension, "%d.store" and "%d.index". The bytes of an open
-- file are kept with its handle (Io.File) and are put back by `write_back`.
use proglog.Base.{
  ℕ, List, [], ◌∷◌, map, Option, none, some, Bool, true, false, ◌==◌, ◌&&◌, if◌then◌else◌,
}
use proglog.Base.Exec.{Error, not_exist, Result, ok, err, Exec}
use proglog.Io.{File, opened}

pub data Extension : Type 0 where
  store index : Extension

pub record Name : Type 0 where
  pub stem : ℕ
  pub ext : Extension

abbrev pub same_ext : Extension → Extension → Bool
same_ext store store = true
same_ext index index = true
same_ext _ _ = false

abbrev pub same_name : Name → Name → Bool
same_name a b = a.stem == b.stem && same_ext a.ext b.ext

abbrev pub Files : Type 0
Files = List (Name × List ℕ)

-- `exists` is false where the directory itself is not there; `fault` is the error that calls on it
-- return.
pub record Disk : Type 0 where
  pub exists : Bool
  pub fault : Option Error
  pub files : Files

unfoldable pub find : Name → Files → Option (List ℕ)
find n [] = none
find n ((m, b) ∷ fs) = if same_name m n then some b else find n fs

-- The file's new bytes, if it is there.
unfoldable pub update : Name → List ℕ → Files → Files
update n b [] = []
update n b ((m, c) ∷ fs) = if same_name m n then (m, b) ∷ fs else (m, c) ∷ update n b fs

unfoldable pub delete : Name → Files → Files
delete n [] = []
delete n ((m, c) ∷ fs) = if same_name m n then fs else (m, c) ∷ delete n fs

abbrev pub reachable : Disk → Option Error
reachable d = if d.exists then d.fault else some not_exist

-- os.OpenFile with O_CREATE.
unfoldable pub open_file : Name → Exec Disk File
open_file n d = elim (reachable d) [
  | some e ↦ (err e, d)
  | none ↦ elim (find n d.files) [
    | some b ↦ (ok (opened b), d)
    | none ↦ (ok (opened []), record d { files = (n, []) ∷ d.files })
  ]
]

unfoldable pub write_back : Name → List ℕ → Disk → Disk
write_back n b d = record d { files = update n b d.files }

-- os.Remove
unfoldable pub remove : Name → Exec Disk (Unit {0})
remove n d = elim (reachable d) [
  | some e ↦ (err e, d)
  | none ↦ elim (find n d.files) [
    | none ↦ (err not_exist, d)
    | some _ ↦ (ok tt, record d { files = delete n d.files })
  ]
]

-- os.RemoveAll: no error where there is nothing.
unfoldable pub remove_all : Exec Disk (Unit {0})
remove_all d =
    if d.exists
    then elim d.fault [
      | some e ↦ (err e, d)
      | none ↦ (ok tt, record d { exists = false; files = [] })
    ]
    else (ok tt, d)

-- os.MkdirAll: an empty directory, where there is none.
unfoldable pub mkdir_all : Exec Disk (Unit {0})
mkdir_all d = elim d.fault [
  | some e ↦ (err e, d)
  | none ↦ (ok tt, if d.exists then d else record d { exists = true; files = [] })
]

-- os.ReadDir
unfoldable pub read_dir : Disk → Result (List Name)
read_dir d = elim (reachable d) [ some e ↦ err e | none ↦ ok (map (λ f. f.0) d.files) ]
