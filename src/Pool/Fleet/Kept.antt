-- ===== src/Pool/Fleet/Kept.antt =====
-- Which warm pods are kept, and how many are minted: the laws of `split_warm`.
use kubimo.Common.{
  ℕ, zero, suc, ◌+◌, ◌≤◌, ◌≡◌, refl, ap, ◌∙◌, inl, inr, String, Bool, true, not, List, [], ◌∷◌,
  ◌++◌, all, filter, take, drop, length, insert_by, sort_by, if◌then◌else◌, arith, Bool-cases,
}
use kubimo.Api.Pod.{Pod}
use kubimo.Pool.Fleet.{split_warm, is_fresh, min, not_younger}

-- How many pods satisfy a test.
pub count : (Pod → Bool) → List Pod → ℕ
count p [] = 0
count p (x ∷ xs) = (if p x then 1 else 0) + count p xs

module _ (p : Pod → Bool) where
  count-append : (xs ys : List Pod) → count p (xs ++ ys) ≡ count p xs + count p ys
  unfolding count
  count-append [] ys = omega arith
  count-append (x ∷ xs) ys = omega (arith, count-append xs ys)

  count-insert_by :
      (le : Pod → Pod → Bool) (x : Pod) (ys : List Pod)
      → count p (insert_by le x ys) ≡ count p (x ∷ ys)
  unfolding count
  count-insert_by le x [] = refl
  count-insert_by le x (y ∷ ys) = elim (Bool-cases (le x y)) [
    | inl e ↦ rw e refl
    | inr e ↦ rw e (omega (arith, count-insert_by le x ys))
  ]

  count-sort_by : (le : Pod → Pod → Bool) (xs : List Pod) → count p (sort_by le xs) ≡ count p xs
  unfolding count
  count-sort_by le [] = refl
  count-sort_by le (x ∷ xs) =
      count-insert_by le x (sort_by le xs) ∙ omega (arith, count-sort_by le xs)

  count-filter :
      (q : Pod → Bool) (xs : List Pod)
      → count p (filter q xs) + count p (filter (λ x. not (q x)) xs) ≡ count p xs
  unfolding count
  count-filter q [] = omega arith
  count-filter q (x ∷ xs) = elim (Bool-cases (q x)) [
    | inl e ↦ rw e (omega (arith, count-filter q xs))
    | inr e ↦ rw e (omega (arith, count-filter q xs))
  ]

  count-take : (n : ℕ) (xs : List Pod) → count p (take n xs) + count p (drop n xs) ≡ count p xs
  unfolding count
  count-take zero xs = omega arith
  count-take (suc n) [] = omega arith
  count-take (suc n) (x ∷ xs) = omega (arith, count-take n xs)

all-filter : (q : Pod → Bool) (xs : List Pod) → all q (filter q xs) ≡ true
all-filter q [] = refl
all-filter q (x ∷ xs) = ground (arith, all-filter q xs)

all-take : (q : Pod → Bool) (n : ℕ) (xs : List Pod) → all q xs ≡ true → all q (take n xs) ≡ true
all-take q zero xs h = refl
all-take q (suc n) [] h = refl
all-take q (suc n) (x ∷ xs) h = ground (arith, all-take q n xs)

length-take : (n : ℕ) (xs : List Pod) → n ≤ length xs → length (take n xs) ≡ n
length-take zero xs h = refl
length-take (suc n) [] h = absurd (omega arith)
length-take (suc n) (x ∷ xs) h = omega (arith, length-take n xs (omega arith))

length-filter : (q : Pod → Bool) (xs : List Pod) → length (filter q xs) ≡ count q xs
unfolding count
length-filter q [] = refl
length-filter q (x ∷ xs) = elim (Bool-cases (q x)) [
  | inl e ↦ rw e (omega (arith, length-filter q xs))
  | inr e ↦ rw e (omega (arith, length-filter q xs))
]

min-le : (a b : ℕ) → (min a b ≤ a) × (min a b ≤ b)
unfolding min
min-le a b = ground arith

-- Every warm pod is kept or excess, once; the kept pods are fresh, and they are as many as the
-- replicas, or all the fresh pods if these are fewer.
pub split_warm_lem :
    (h : String) (replicas : ℕ) (pods : List Pod)
    → ((p : Pod → Bool)
        → count p ((split_warm h replicas pods).kept ++ (split_warm h replicas pods).excess)
          ≡ count p pods)
      × (all (is_fresh h) (split_warm h replicas pods).kept ≡ true)
      × (length (split_warm h replicas pods).kept ≡ min replicas (count (is_fresh h) pods))
unfolding split_warm
split_warm_lem h replicas pods =
    (every, all-take (is_fresh h) keep fresh (all-filter (is_fresh h) warm), sized)
  where
    warm : List Pod
    warm = sort_by not_younger pods

    fresh : List Pod
    fresh = filter (is_fresh h) warm

    drifted : List Pod
    drifted = filter (λ x. not (is_fresh h x)) warm

    keep : ℕ
    keep = min replicas (length fresh)

    every :
        (p : Pod → Bool) → count p (take keep fresh ++ (drifted ++ drop keep fresh)) ≡ count p pods
    every p = omega (
      arith,
      count-append p (take keep fresh) (drifted ++ drop keep fresh),
      count-append p drifted (drop keep fresh),
      count-take p keep fresh,
      count-filter p (is_fresh h) warm,
      count-sort_by p not_younger pods,
    )

    sized : length (take keep fresh) ≡ min replicas (count (is_fresh h) pods)
    sized =
        length-take keep fresh (min-le replicas (length fresh)).1
        ∙ ap (min replicas)
            (length-filter (is_fresh h) warm ∙ count-sort_by (is_fresh h) not_younger pods)
