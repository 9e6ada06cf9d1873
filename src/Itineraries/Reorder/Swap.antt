-- ===== src/Itineraries/Reorder/Swap.antt =====
-- The order of the stops of a day after one of them has been moved.
use travel_latest.Base.{
  ℕ, zero, suc, ◌≡◌, ◌<◌, ap, Bool, true, false, some, List, [], ◌∷◌, ◌++◌, arith, Option-cases,
  Bool-cases, inl, inr, ◌==◌, ltb, if◌then◌else◌,
}
use travel_latest.Base.Lists.{length}
use travel_latest.Itineraries.Model.{ItineraryEvent}
use travel_latest.Itineraries.Reorder.{index_of, target_index, pop, insert_at, reordered}

-- `ys` is `xs` with two neighbours in the other order.
pub record IsSwap (xs ys : List ItineraryEvent) (first second : ItineraryEvent) : Type 0 where
  pub front : List ItineraryEvent
  pub back : List ItineraryEvent
  pub before : xs ≡ front ++ first ∷ second ∷ back
  pub after : ys ≡ front ++ second ∷ first ∷ back

IsSwap-cons :
    (x : ItineraryEvent) (xs ys : List ItineraryEvent) (a b : ItineraryEvent)
    → IsSwap xs ys a b
    → IsSwap (x ∷ xs) (x ∷ ys) a b
IsSwap-cons x xs ys a b s = record {
  front = x ∷ s.front;
  back = s.back;
  before = ap (λ t. x ∷ t) s.before;
  after = ap (λ t. x ∷ t) s.after;
}

pop-cons :
    (n : ℕ) (x m : ItineraryEvent) (xs rest : List ItineraryEvent)
    → pop (suc n) (x ∷ xs) ≡ some (m, rest)
    → (ys : List ItineraryEvent) × (pop n xs ≡ some (m, ys)) × (rest ≡ x ∷ ys)
pop-cons n x m xs rest h = elim (Option-cases (pop n xs)) [
  | inl absent ↦ absurd (ground arith)
  | inr ((y, ys), e) ↦ (ys, ground arith, ground arith)
]

moved_up :
    (n : ℕ) (xs rest : List ItineraryEvent) (m : ItineraryEvent)
    → pop (suc n) xs ≡ some (m, rest)
    → (a : ItineraryEvent) × IsSwap xs (insert_at n m rest) a m
moved_up n [] rest m h = absurd (cc)
moved_up zero (x ∷ []) rest m h = absurd (cc)
moved_up zero (x ∷ y ∷ ys) rest m h =
    (x, record { front = []; back = ys; before = ground arith; after = ground arith })
moved_up (suc n) (x ∷ xs) rest m h =
    let (ys, e, f) = pop-cons (suc n) x m xs rest h in
    let (a, s) = moved_up n xs ys m e in (a, rw f (IsSwap-cons x xs (insert_at n m ys) a m s))

moved_down :
    (n : ℕ) (xs rest : List ItineraryEvent) (m : ItineraryEvent)
    → suc n < length xs
    → pop n xs ≡ some (m, rest)
    → (b : ItineraryEvent) × IsSwap xs (insert_at (suc n) m rest) m b
moved_down n [] rest m l h = absurd (omega arith)
moved_down zero (x ∷ []) rest m l h = absurd (omega arith)
moved_down zero (x ∷ y ∷ ys) rest m l h = (
  y,
  record {
    front = [];
    back = ys;
    before = ground arith;
    after = let e : rest ≡ y ∷ ys = ground arith in rw e (ground arith);
  },
)
moved_down (suc n) (x ∷ xs) rest m l h =
    let (ys, e, f) = pop-cons n x m xs rest h in
    let (b, s) = moved_down n xs ys m (omega arith) e in
    (b, rw f (IsSwap-cons x xs (insert_at (suc n) m ys) m b s))

index_of-tail :
    (i n : ℕ) (x : ItineraryEvent) (xs : List ItineraryEvent)
    → (x.id == i) ≡ false
    → index_of i (x ∷ xs) ≡ some (suc n)
    → index_of i xs ≡ some n
index_of-tail i n x xs miss h = elim (Option-cases (index_of i xs)) [
  | inl absent ↦ absurd (ground arith)
  | inr (j, e) ↦ ground arith
]

-- The event at the index of an identifier has that identifier.
pop-index_of :
    (i n : ℕ) (xs rest : List ItineraryEvent) (m : ItineraryEvent)
    → index_of i xs ≡ some n
    → pop n xs ≡ some (m, rest)
    → m.id ≡ i
pop-index_of i n [] rest m h k = absurd (cc)
pop-index_of i zero (x ∷ xs) rest m h k = elim (Bool-cases (x.id == i)) [
  | inl hit ↦ ground arith
  | inr miss ↦ elim (Option-cases (index_of i xs)) [
    | inl absent ↦ absurd (ground arith)
    | inr (j, e) ↦ absurd (ground arith)
  ]
]
pop-index_of i (suc n) (x ∷ xs) rest m h k = elim (Bool-cases (x.id == i)) [
  | inl hit ↦ absurd (ground arith)
  | inr miss ↦
      let (ys, e, f) = pop-cons n x m xs rest k in
      pop-index_of i n xs ys m (index_of-tail i n x xs miss h) e
]

reordered_steps :
    (up : Bool) (i : ℕ) (xs ys : List ItineraryEvent)
    → reordered up i xs ≡ some ys
    → (n : ℕ) × (t : ℕ) × (m : ItineraryEvent) × (rest : List ItineraryEvent) × (index_of i xs
        ≡ some n)
      × (target_index up n (length xs) ≡ some t)
      × (pop n xs ≡ some (m, rest))
      × (ys ≡ insert_at t m rest)
unfolding reordered
reordered_steps up i xs ys h = elim (Option-cases (index_of i xs)) [
  | inl absent ↦ absurd (ground arith)
  | inr (n, e) ↦ elim (Option-cases (target_index up n (length xs))) [
    | inl out ↦ absurd (ground arith)
    | inr (t, f) ↦ elim (Option-cases (pop n xs)) [
      | inl absent ↦ absurd (ground arith)
      | inr ((m, rest), g) ↦ (n, t, m, rest, e, f, g, ground arith)
    ]
  ]
]

IsSwap-of :
    (up : Bool) (i n t : ℕ) (xs rest : List ItineraryEvent) (m : ItineraryEvent)
    → m.id ≡ i
    → target_index up n (length xs) ≡ some t
    → pop n xs ≡ some (m, rest)
    → (a : ItineraryEvent) × (b : ItineraryEvent) × IsSwap xs (insert_at t m rest) a b
      × (if up then b.id else a.id) ≡ i
IsSwap-of true i zero t xs rest m e f g = absurd (cc)
IsSwap-of true i (suc n) t xs rest m e f g =
    let (a, s) = moved_up n xs rest m g in
    let same : n ≡ t = ground arith in (a, m, rw (← same) s, e)
IsSwap-of false i n t xs rest m e f g = elim (Bool-cases (ltb (suc n) (length xs))) [
  | inr out ↦ absurd (ground arith)
  | inl inside ↦
      let (b, s) = moved_down n xs rest m (ground arith) g in
      let same : suc n ≡ t = ground arith in (m, b, rw (← same) s, e)
]

-- Moving a stop changes places with its neighbour and nothing else: the stop with the identifier is
-- the second of the two when it moves up, and the first when it moves down.
pub reordered-IsSwap :
    (up : Bool) (i : ℕ) (xs ys : List ItineraryEvent)
    → reordered up i xs ≡ some ys
    → (a : ItineraryEvent) × (b : ItineraryEvent) × IsSwap xs ys a b
      × (if up then b.id else a.id) ≡ i
reordered-IsSwap up i xs ys h =
    let (n, t, m, rest, e, f, g, k) = reordered_steps up i xs ys h in
    let (a, b, s, moved) = IsSwap-of up i n t xs rest m (pop-index_of i n xs rest m e g) f g in
    (a, b, rw k s, moved)
