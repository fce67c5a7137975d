-- ===== src/Base/Exec.antt =====
-- Go's methods that change an object and may return an error. What was written before an error
-- stays written, so the state comes back beside the error too.
use Prim.Native.Nat.{ℕ}
use Prim.Native.String.{String}

-- The errors that the code returns. `panic` is a run-time panic of Go (a nil dereference, a slice
-- out of range), `fault` any error of the operating system, `closed` one on a closed handle, and
-- `foreign` an error of a library that is a parameter of the model.
-- `permission_denied` and `unknown_peer` are the gRPC statuses that the server makes.
pub data Error : Type 0 where
  eof panic fault closed negative_offset not_exist unexpected_eof : Error
  offset_out_of_range : ℕ → Error
  foreign : ℕ → Error
  permission_denied : String → String → Error
  unknown_peer : Error

pub data Result {ℓ} (A : Type ℓ) : Type ℓ where
  ok : A → Result A
  err : Error → Result A

abbrev pub Exec {ℓ κ} : Type ℓ → Type κ → Type (ℓ ⊔ κ)
Exec S A = S → Result A × S

module _ {ℓ κ} {S : Type ℓ} {A : Type κ} where
  abbrev pub pure : A → Exec S A
  pure a s = (ok a, s)

  abbrev pub raise : Error → Exec S A
  raise e s = (err e, s)

  abbrev pub lift : Result A → Exec S A
  lift r s = (r, s)

  abbrev pub gets : (S → A) → Exec S A
  gets f s = (ok (f s), s)

module _ {ℓ} {S : Type ℓ} where
  abbrev pub modify : (S → S) → Exec S (Unit {0})
  modify f s = (ok tt, f s)

module _ {ℓ κ μ} {S : Type ℓ} {A : Type κ} {B : Type μ} where
  abbrev pub continue : Result A → (A → Exec S B) → Exec S B
  continue (ok a) f s = f a s
  continue (err e) f s = (err e, s)

  infixl 10 ◌>>=◌ ◌>>◌
  abbrev pub ◌>>=◌ : Exec S A → (A → Exec S B) → Exec S B
  ◌>>=◌ m f s = let (r, s') = m s in continue r f s'

  abbrev pub ◌>>◌ : Exec S A → Exec S B → Exec S B
  m >> n = m >>= λ _. n

-- An action on a part of the state.
module _ {ℓ κ μ} {S : Type ℓ} {T : Type κ} {A : Type μ} where
  abbrev pub zoom : (S → T) → (T → S → S) → Exec T A → Exec S A
  zoom get put m s = let (r, t) = m (get s) in (r, put t s)
