-- ===== src/Picker/Routes.antt =====
-- What Build makes of the ready connections, and which of them Pick then chooses.
use proglog.Base.{
  ℕ, ◌%◌, ◌<◌, ◌≡◌, ap, sym, ◌∙◌, List, [], ◌∷◌, ◌++◌, Option, none, some, true, false, arith,
  length, get_elem?, get_elem?_total, append_assoc, append-nil, add64, zero, suc, ◌⊎◌, inl, inr,
}
use proglog.Base.Exec.{ok}
use native.Mathlib.Nat.{mod-lt}
use proglog.Picker.{
  SubConn, Text, Ready, Picker, picked, contains, produce_name, pick, next_follower, build,
  build_loop, result_of,
}
use proglog.Picker.RoundRobin.{IsConsume}

-- Every ready connection says whether it is the leader.
abbrev pub IsTagged : List Ready → Type 0
IsTagged [] = Unit {0}
IsTagged ((_, none) ∷ _) = ⊥
IsTagged ((_, some _) ∷ rest) = IsTagged rest

-- The connections that are not the leader's, in order.
abbrev pub others : List Ready → List SubConn
others [] = []
others ((sc, some false) ∷ rest) = sc ∷ others rest
others (_ ∷ rest) = others rest

-- The last connection that says it is the leader, or the one known so far.
abbrev pub newest_leader : Option SubConn → List Ready → Option SubConn
newest_leader known [] = known
newest_leader known ((sc, some true) ∷ rest) = newest_leader (some sc) rest
newest_leader known (_ ∷ rest) = newest_leader known rest

build_loop_lem :
    (ready : List Ready) (followers : List SubConn) (p : Picker)
    → IsTagged ready
    → build_loop ready followers p ≡ (
      ok tt,
      record p { leader = newest_leader p.leader ready; followers = followers ++ others ready },
    )
unfolding build_loop
build_loop_lem [] followers p h =
    ap (λ fs. (ok tt, record p { followers = fs })) (sym (append-nil followers))
build_loop_lem ((sc, none) ∷ rest) followers p h = absurd h
build_loop_lem ((sc, some true) ∷ rest) followers p h =
    build_loop_lem rest followers (record p { leader = some sc }) h
build_loop_lem ((sc, some false) ∷ rest) followers p h =
    build_loop_lem rest (followers ++ (sc ∷ [])) p h
    ∙ ap (λ fs. (ok tt, record p { leader = newest_leader p.leader rest; followers = fs }))
        (append_assoc followers (sc ∷ []) (others rest))

-- Build takes as followers exactly the ready connections that are not the leader's, and as leader
-- the last one that says so. Where none does, the leader of the last Build stays. The round-robin
-- counter stays.
pub build_lem :
    (ready : List Ready) (p : Picker)
    → IsTagged ready
    → build ready p
      ≡ (ok tt, record p { leader = newest_leader p.leader ready; followers = others ready })
unfolding build
build_lem ready p h = build_loop_lem ready [] p h

follower_in_range :
    (p : Picker)
    → 0 < length p.followers
    → (i : ℕ) × (sc : SubConn) × (get_elem? p.followers i ≡ some sc)
      × ((next_follower p).0 ≡ picked sc)
unfolding next_follower
follower_in_range p pos =
    let i : ℕ = add64 p.current 1 % length p.followers in
    let (sc, g) = get_elem?_total p.followers i (mod-lt (add64 p.current 1) pos) in
    (i, sc, g, ground (arith, g))

get_others :
    (ready : List Ready) (i : ℕ) (sc : SubConn)
    → get_elem? (others ready) i ≡ some sc
    → (j : ℕ) × (get_elem? ready j ≡ some (sc, some false))
get_others [] i sc g = cc
get_others ((s, none) ∷ rest) i sc g = let (j, e) = get_others rest i sc g in (suc j, e)
get_others ((s, some true) ∷ rest) i sc g = let (j, e) = get_others rest i sc g in (suc j, e)
get_others ((s, some false) ∷ rest) zero sc g = (zero, ground (arith, g))
get_others ((s, some false) ∷ rest) (suc i) sc g = let (j, e) = get_others rest i sc g in (suc j, e)

-- After Build, on connections that all say whether they are the leader's, a Consume call goes to a
-- ready connection that is not the leader's, if there is one; the counter of calls before, wrapped
-- or not, never makes it fail.
pub pick_follower :
    (name : Text) (ready : List Ready) (p : Picker)
    → IsConsume name
    → IsTagged ready
    → 0 < length (others ready)
    → (j : ℕ) × (sc : SubConn) × (get_elem? ready j ≡ some (sc, some false))
      × ((pick name (build ready p).1).0 ≡ picked sc)
unfolding pick
pick_follower name ready p consume tagged pos =
    let built : Picker = record p {
      leader = newest_leader p.leader ready;
      followers = others ready;
    } in
    let (i, sc, g, e) = follower_in_range built pos in
    let (j, at_j) = get_others ready i sc g in
    (j, sc, at_j, ground (arith, build_lem ready p tagged, consume.0, consume.1, e))

-- After Build, on connections that all say whether they are the leader's, a Produce call, and any
-- call where there are no followers, goes to the leader that Build left, or fails with
-- ErrNoSubConnAvailable where no leader was ever known; it leaves the picker as it is.
pub pick_leader :
    (name : Text) (ready : List Ready) (p : Picker)
    → IsTagged ready
    → (contains name produce_name ≡ true) ⊎ (others ready ≡ [])
    → pick name (build ready p).1 ≡ (result_of (newest_leader p.leader ready), (build ready p).1)
unfolding pick
pick_leader name ready p tagged (inl produce) = ground (arith, build_lem ready p tagged, produce)
pick_leader name ready p tagged (inr no_followers) =
    ground (arith, build_lem ready p tagged, no_followers)
