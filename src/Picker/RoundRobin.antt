-- ===== src/Picker/RoundRobin.antt =====
-- Consume calls go round the followers.
use proglog.Base.{
  ℕ, zero, suc, ◌+◌, ◌*◌, ◌-◌, ◌/◌, ◌%◌, ◌<◌, ◌^◌, ◌≡◌, ap, ◌∙◌, List, [], ◌∷◌, some, true, false,
  arith, length, get_elem?, Bool-cases, inl, inr, leb, if◌then◌else◌,
}
use native.Mathlib.Nat.{mod-lt, div-add-mod, mul-add-mod_self_left, mod-eq_of_lt}
use proglog.Picker.{
  SubConn, Text, Picker, PickResult, picked, contains, produce_name, consume_name, pick,
  next_follower, follower_at,
}

-- A Consume method: its name has "Consume" in it and not "Produce".
abbrev pub IsConsume : Text → Type 0
IsConsume name = (contains name produce_name ≡ false) × (contains name consume_name ≡ true)

-- The picker after `n` calls of one method.
unfoldable pub after_picks : ℕ → Text → Picker → Picker
after_picks zero name p = p
after_picks (suc n) name p = after_picks n name (pick name p).1

get_elem?-lt : (xs : List SubConn) (i : ℕ) (x : SubConn) → get_elem? xs i ≡ some x → i < length xs
get_elem?-lt [] i x e = cc
get_elem?-lt (y ∷ xs) zero x e = omega arith
get_elem?-lt (y ∷ xs) (suc i) x e = omega (arith, get_elem?-lt xs i x e)

-- How many calls it takes from the counter `c` to the place `i` of `m`.
wait : ℕ → ℕ → ℕ → ℕ
wait c i m = if leb ((c + 1) % m) i then i - (c + 1) % m else i + m - (c + 1) % m

wait_lem : (c i m : ℕ) → i < m → (wait c i m < m) × ((c + wait c i m + 1) % m ≡ i)
unfolding wait
wait_lem c i m h =
    let lt : (c + 1) % m < m = mod-lt (c + 1) (omega arith) in
    let split : m * ((c + 1) / m) + (c + 1) % m ≡ c + 1 = div-add-mod (c + 1) m in
    elim (Bool-cases (leb ((c + 1) % m) i)) [
      | inl le ↦
          let e : c + (i - (c + 1) % m) + 1 ≡ m * ((c + 1) / m) + i = ground arith in
          rw le (ground arith, rw e (mul-add-mod_self_left m ((c + 1) / m) i ∙ mod-eq_of_lt h))
      | inr gt ↦
          let e : c + (i + m - (c + 1) % m) + 1 ≡ m * ((c + 1) / m + 1) + i =
            ground (arith, split, lt) in
          rw gt (ground arith, rw e (mul-add-mod_self_left m ((c + 1) / m + 1) i ∙ mod-eq_of_lt h))
    ]

module _ (name : Text) (consume : IsConsume name) where
  pick-next :
      (p : Picker)
      → 0 < length p.followers
      → p.current + 1 < 2 ^ 64
      → pick name p ≡ (
        follower_at p.followers ((p.current + 1) % length p.followers),
        record p { current = p.current + 1 },
      )
  unfolding pick next_follower
  pick-next p n fits =
      let wrap : (p.current + 1) % 2 ^ 64 ≡ p.current + 1 = omega arith in
      ground (arith, consume.0, consume.1, wrap)

  after_picks_lem :
      (n : ℕ) (p : Picker)
      → 0 < length p.followers
      → p.current + n < 2 ^ 64
      → after_picks n name p ≡ record p { current = p.current + n }
  unfolding after_picks
  after_picks_lem zero p pos fits =
      let e : p.current ≡ p.current + 0 = omega arith in ap (λ c. record p { current = c }) e
  after_picks_lem (suc n) p pos fits = rw (pick-next p pos (omega arith)) (
      after_picks_lem n (record p { current = p.current + 1 }) pos (omega arith)
      ∙ ap (λ c. record p { current = c }) (omega arith))

  -- Pick after `n` Consume calls returns the follower `n + 1` places on from the counter, modulo the
  -- number of followers, as long as the counter does not wrap.
  pub pick-after_picks :
      (n : ℕ) (p : Picker)
      → 0 < length p.followers
      → p.current + n + 1 < 2 ^ 64
      → (pick name (after_picks n name p)).0
        ≡ follower_at p.followers ((p.current + n + 1) % length p.followers)
  pick-after_picks n p pos fits = rw (after_picks_lem n p pos (omega arith)) (
      ap (λ (t : PickResult × Picker). t.0)
        (pick-next (record p { current = p.current + n }) pos (omega arith)))

  -- Every follower is picked within one round: among as many Consume calls in a row as there are
  -- followers, one goes to it, as long as the counter does not wrap.
  pub pick_fair :
      (p : Picker) (i : ℕ) (sc : SubConn)
      → get_elem? p.followers i ≡ some sc
      → p.current + length p.followers + 1 < 2 ^ 64
      → (n : ℕ) × (n < length p.followers) × ((pick name (after_picks n name p)).0 ≡ picked sc)
  pick_fair p i sc g fits =
      let lt : i < length p.followers = get_elem?-lt p.followers i sc g in
      let (b, e) = wait_lem p.current i (length p.followers) lt in
      (
        wait p.current i (length p.followers),
        b,
        rw (pick-after_picks (wait p.current i (length p.followers)) p (omega arith) (omega arith))
            (ground (arith, e, g)),
      )
