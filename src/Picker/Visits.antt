-- ===== src/Picker/Visits.antt =====
-- The order in which Build (internal/loadbalance/picker.go) visits its map.
use proglog.Base.{◌∙◌, ◌≡◌, refl, ap, List, [], ◌∷◌, Option, none, some, true, false}
use proglog.Picker.{SubConn, Ready}
use proglog.Picker.Routes.{others, newest_leader, IsTagged}

-- One list is the other in another order.
pub data Reordered {A : Type 0} : List A → List A → Type 0 where
  none_left : Reordered [] []
  next : (x : A) (xs ys : List A) → Reordered xs ys → Reordered (x ∷ xs) (x ∷ ys)
  swapped : (x y : A) (xs : List A) → Reordered (x ∷ y ∷ xs) (y ∷ x ∷ xs)
  chained : (xs ys zs : List A) → Reordered xs ys → Reordered ys zs → Reordered xs zs

same_order : {A : Type 0} (xs : List A) → Reordered xs xs
same_order [] = none_left
same_order (x ∷ xs) = next x xs xs (same_order xs)

empty_Reordered : {A : Type 0} {xs ys : List A} → Reordered xs ys → ys ≡ [] → xs ≡ []
empty_Reordered none_left e = refl
empty_Reordered (next x xs ys d) e = absurd cc
empty_Reordered (swapped x y xs) e = absurd cc
empty_Reordered (chained xs ys zs d f) e = empty_Reordered d (empty_Reordered f e)

pub single_Reordered :
    {A : Type 0} {xs ys : List A} (a : A) → Reordered xs ys → ys ≡ a ∷ [] → xs ≡ a ∷ []
single_Reordered a none_left e = absurd cc
single_Reordered a (next x xs ys d) e =
    let same : x ≡ a = cc in let rest : ys ≡ [] = cc in rw (same, empty_Reordered d rest) refl
single_Reordered a (swapped x y xs) e = absurd cc
single_Reordered a (chained xs ys zs d f) e = single_Reordered a d (single_Reordered a f e)

-- The connections that say they are the leader's.
abbrev pub leaders : List Ready → List SubConn
leaders [] = []
leaders ((sc, some true) ∷ rest) = sc ∷ leaders rest
leaders (_ ∷ rest) = leaders rest

others-cons :
    (a : Ready) (xs ys : List Ready)
    → Reordered (others xs) (others ys)
    → Reordered (others (a ∷ xs)) (others (a ∷ ys))
others-cons (sc, none) xs ys d = d
others-cons (sc, some true) xs ys d = d
others-cons (sc, some false) xs ys d = next sc _ _ d

leaders-cons :
    (a : Ready) (xs ys : List Ready)
    → Reordered (leaders xs) (leaders ys)
    → Reordered (leaders (a ∷ xs)) (leaders (a ∷ ys))
leaders-cons (sc, none) xs ys d = d
leaders-cons (sc, some true) xs ys d = next sc _ _ d
leaders-cons (sc, some false) xs ys d = d

others-swap :
    (a b : Ready) (xs : List Ready) → Reordered (others (a ∷ b ∷ xs)) (others (b ∷ a ∷ xs))
others-swap (x, some false) (y, some false) xs = swapped x y _
others-swap (x, none) (y, none) xs = same_order _
others-swap (x, none) (y, some true) xs = same_order _
others-swap (x, none) (y, some false) xs = same_order _
others-swap (x, some true) (y, none) xs = same_order _
others-swap (x, some true) (y, some true) xs = same_order _
others-swap (x, some true) (y, some false) xs = same_order _
others-swap (x, some false) (y, none) xs = same_order _
others-swap (x, some false) (y, some true) xs = same_order _

leaders-swap :
    (a b : Ready) (xs : List Ready) → Reordered (leaders (a ∷ b ∷ xs)) (leaders (b ∷ a ∷ xs))
leaders-swap (x, some true) (y, some true) xs = swapped x y _
leaders-swap (x, none) (y, none) xs = same_order _
leaders-swap (x, none) (y, some true) xs = same_order _
leaders-swap (x, none) (y, some false) xs = same_order _
leaders-swap (x, some false) (y, none) xs = same_order _
leaders-swap (x, some false) (y, some true) xs = same_order _
leaders-swap (x, some false) (y, some false) xs = same_order _
leaders-swap (x, some true) (y, none) xs = same_order _
leaders-swap (x, some true) (y, some false) xs = same_order _

pub others-Reordered : {xs ys : List Ready} → Reordered xs ys → Reordered (others xs) (others ys)
others-Reordered none_left = none_left
others-Reordered (next x xs ys d) = others-cons x xs ys (others-Reordered d)
others-Reordered (swapped x y xs) = others-swap x y xs
others-Reordered (chained xs ys zs d f) =
    chained (others xs) (others ys) (others zs) (others-Reordered d) (others-Reordered f)

pub leaders-Reordered : {xs ys : List Ready} → Reordered xs ys → Reordered (leaders xs) (leaders ys)
leaders-Reordered none_left = none_left
leaders-Reordered (next x xs ys d) = leaders-cons x xs ys (leaders-Reordered d)
leaders-Reordered (swapped x y xs) = leaders-swap x y xs
leaders-Reordered (chained xs ys zs d f) =
    chained (leaders xs) (leaders ys) (leaders zs) (leaders-Reordered d) (leaders-Reordered f)

IsTagged-cons :
    (a : Ready) (xs ys : List Ready)
    → IsTagged (a ∷ ys)
    → (IsTagged ys → IsTagged xs)
    → IsTagged (a ∷ xs)
IsTagged-cons (sc, none) xs ys h f = h
IsTagged-cons (sc, some c) xs ys h f = f h

IsTagged-swap : (a b : Ready) (xs : List Ready) → IsTagged (b ∷ a ∷ xs) → IsTagged (a ∷ b ∷ xs)
IsTagged-swap (x, none) (y, none) xs h = h
IsTagged-swap (x, none) (y, some c) xs h = h
IsTagged-swap (x, some c) (y, none) xs h = h
IsTagged-swap (x, some c) (y, some d) xs h = h

pub IsTagged-Reordered : {xs ys : List Ready} → Reordered xs ys → IsTagged ys → IsTagged xs
IsTagged-Reordered none_left h = h
IsTagged-Reordered (next x xs ys d) h = IsTagged-cons x xs ys h (λ t. IsTagged-Reordered d t)
IsTagged-Reordered (swapped x y xs) h = IsTagged-swap x y xs h
IsTagged-Reordered (chained xs ys zs d f) h = IsTagged-Reordered d (IsTagged-Reordered f h)

newest-unmarked :
    (known : Option SubConn) (ready : List Ready)
    → leaders ready ≡ []
    → newest_leader known ready ≡ known
newest-unmarked known [] h = refl
newest-unmarked known ((sc, none) ∷ rest) h = newest-unmarked known rest h
newest-unmarked known ((sc, some true) ∷ rest) h = absurd cc
newest-unmarked known ((sc, some false) ∷ rest) h = newest-unmarked known rest h

pub newest-marked :
    (known : Option SubConn) (ready : List Ready) (leader : SubConn)
    → leaders ready ≡ leader ∷ []
    → newest_leader known ready ≡ some leader
newest-marked known [] leader h = absurd cc
newest-marked known ((sc, none) ∷ rest) leader h = newest-marked known rest leader h
newest-marked known ((sc, some true) ∷ rest) leader h =
    let same : sc ≡ leader = cc in
    let none_left : leaders rest ≡ [] = cc in
    newest-unmarked (some sc) rest none_left ∙ ap (λ x. some x) same
newest-marked known ((sc, some false) ∷ rest) leader h = newest-marked known rest leader h
