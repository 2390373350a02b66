-- ===== src/Consensus/Producers/Chosen.antt =====
-- Which producers `getDposBPs` selects.
use mathlib.Core.List.{Perm, Permᴰ}
use mathlib.Core.Logic.{∥∥₁_elim}
use native.Mathlib.Nat.{ℕ_set}
use tinychain.Base.{
  All, ℕ, Bool, false, zero, suc, ◌-◌, ◌≤◌, ◌≡◌, refl, ap, ◌∙◌, true, some, List, [], ◌∷◌, ◌++◌,
  map, length, take, drop, take-append-drop, length-take, append-nil, leb, arith,
}
use tinychain.Consensus.Producers.{
  BlockProducer, Library, ProducersInfo, less, values, slice_to, get_all, get_dpos_bps,
}

-- Every producer of the first list has at least the votes of every one of the second.
abbrev pub Outvotes : List BlockProducer → List BlockProducer → Type 0
Outvotes chosen rest = All (λ b. All (λ r. r.votes ≤ b.votes) rest) chosen

-- What `sort.Sort` leaves, as `sort.IsSorted` tests it: no element is less than the one before it.
abbrev pub IsSortedBy : (BlockProducer → BlockProducer → Bool) → List BlockProducer → Type 0
IsSortedBy test [] = Unit
IsSortedBy test (b ∷ []) = Unit
IsSortedBy test (b ∷ c ∷ bs) = (test c b ≡ false) × IsSortedBy test (c ∷ bs)

-- The votes do not rise along the list.
abbrev IsDescending : List BlockProducer → Type 0
IsDescending [] = Unit
IsDescending (b ∷ bs) = All (λ r. r.votes ≤ b.votes) bs × IsDescending bs

All-drop :
    (v n : ℕ) (bs : List BlockProducer)
    → All (λ r. r.votes ≤ v) bs
    → All (λ r. r.votes ≤ v) (drop n bs)
All-drop v zero bs h = h
All-drop v (suc n) [] h = tt
All-drop v (suc n) (b ∷ bs) h = All-drop v n bs h.1

IsDescending-split :
    (n : ℕ) (bs : List BlockProducer) → IsDescending bs → Outvotes (take n bs) (drop n bs)
IsDescending-split zero bs h = tt
IsDescending-split (suc n) [] h = tt
IsDescending-split (suc n) (b ∷ bs) h = (All-drop b.votes n bs h.0, IsDescending-split n bs h.1)

All-below :
    (v w : ℕ) (bs : List BlockProducer)
    → v ≤ w
    → All (λ r. r.votes ≤ v) bs
    → All (λ r. r.votes ≤ w) bs
All-below v w [] le h = tt
All-below v w (b ∷ bs) le h = (omega (arith, h.0), All-below v w bs le h.1)

-- Sorted by the test of the producers, the votes do not rise.
IsSortedBy-less : (bs : List BlockProducer) → IsSortedBy less bs → IsDescending bs
unfolding less
IsSortedBy-less [] h = tt
IsSortedBy-less (b ∷ []) h = (tt, tt)
IsSortedBy-less (b ∷ c ∷ bs) h =
    let rest = IsSortedBy-less (c ∷ bs) h.1 in
    let le : c.votes ≤ b.votes = ground (arith, h.0) in
    ((le, All-below c.votes b.votes bs le rest.0), rest)

Permᴰ-length : {xs ys : List BlockProducer} → Permᴰ xs ys → length xs ≡ length ys
Permᴰ-length Permᴰ.nil = refl
Permᴰ-length (Permᴰ.cons x p) = ap suc (Permᴰ-length p)
Permᴰ-length (Permᴰ.swap x y) = refl
Permᴰ-length (Permᴰ.trans p q) = Permᴰ-length p ∙ Permᴰ-length q

length-perm : {xs ys : List BlockProducer} → Perm xs ys → length xs ≡ length ys
length-perm {xs} {ys} p = ∥∥₁_elim p (ℕ_set (length xs) (length ys)) Permᴰ-length

take-map-some : (n : ℕ) (bs : List BlockProducer) → take n (map some bs) ≡ map some (take n bs)
take-map-some zero bs = refl
take-map-some (suc n) [] = refl
take-map-some (suc n) (b ∷ bs) = ap (λ l. some b ∷ l) (take-map-some n bs)

-- For a sort by `Less` that gives a permutation in which no producer is less than the one before it, a
-- capacity of at least the length, and at least a round of producers: the selection is exactly a round of the producers of the
-- map, and each of them has at least the votes of each one that is left out.
pub get_dpos_bps_lem :
    (library : Library) (info : ProducersInfo)
    → Perm (library.sort less (values info.all)) (values info.all)
    → IsSortedBy less (library.sort less (values info.all))
    → ((n : ℕ) → n ≤ library.capacity n)
    → info.round_size ≤ length (values info.all)
    → (chosen : List BlockProducer) × (rest : List BlockProducer) × (get_dpos_bps library info
        ≡ some (map some chosen))
      × (length chosen ≡ info.round_size)
      × Perm (chosen ++ rest) (values info.all)
      × Outvotes chosen rest
unfolding get_dpos_bps get_all slice_to
get_dpos_bps_lem library info perm sorted grown enough =
    let n = info.round_size in
    let bps = library.sort less (values info.all) in
    let same : length bps ≡ length (values info.all) = length-perm perm in
    let fits : leb n (library.capacity (length bps)) ≡ true = ground (arith, grown (length bps)) in
    let full : n - length bps ≡ 0 = omega arith in
    (
      take n bps,
      drop n bps,
      rw (fits, full, append-nil, take-map-some n bps) refl,
      length-take n bps (omega arith),
      rw (take-append-drop n bps) perm,
      IsDescending-split n bps (IsSortedBy-less bps sorted),
    )
