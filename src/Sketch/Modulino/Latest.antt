-- ===== src/Sketch/Modulino/Latest.antt =====
-- The ring as the latest of the values pushed to it.
use arduino_q_plugin.Common.{
  ℕ, zero, suc, ◌+◌, ◌<◌, ◌≡◌, refl, ap, sym, ◌∙◌, List, [], ◌∷◌, ◌++◌, append-nil, append_assoc,
  ◌==◌, set, take, drop, length, length-set, length-append, take-set, drop-set, drop_all,
  length-drop, take_all, Bool-cases, inl, inr, arith,
}
use arduino_q_plugin.Sketch.Modulino.{RingArray, push}

-- The head stays inside of the array.
pub record IsRing {T : Type 0} (n : ℕ) (r : RingArray T) : Type 0 where
  pub full : length r.items ≡ n
  pub head_in : r.head < n

-- The values from the oldest to the newest: from the head to the end, and then from the start.
unfoldable pub latest : {T : Type 0} → RingArray T → List T
latest r = drop r.head r.items ++ take r.head r.items

pub push-IsRing :
    {T : Type 0} (n : ℕ) (val : T) (r : RingArray T) → IsRing n r → IsRing n (push n val r)
unfolding push
push-IsRing n val r ring = ground (arith, length-set r.items r.head val)

drop-append_head :
    {T : Type 0} (k : ℕ) (xs ys : List T)
    → k < length xs
    → drop 1 (drop k xs ++ ys) ≡ drop (suc k) xs ++ ys
drop-append_head k [] ys h = absurd (omega arith)
drop-append_head zero (x ∷ xs) ys h = refl
drop-append_head (suc k) (x ∷ xs) ys h = drop-append_head k xs ys (omega arith)

drop_one : {T : Type 0} (k : ℕ) (xs : List T) → drop 1 (drop k xs) ≡ drop (suc k) xs
drop_one zero [] = refl
drop_one (suc k) [] = refl
drop_one zero (x ∷ xs) = refl
drop_one (suc k) (x ∷ xs) = drop_one k xs

-- What a write at the head leaves, read from behind it.
behind :
    {T : Type 0} (h : ℕ) (val : T) (xs : List T)
    → h < length xs
    → drop (suc h) (set xs h val) ++ take (suc h) (set xs h val)
      ≡ drop 1 (drop h xs ++ take h xs) ++ (val ∷ [])
behind h val xs inside =
    rw
      (
        drop-set xs h val,
        take-set xs h val (omega arith),
        drop_one h xs,
        drop-append_head h xs (take h xs) inside,
      )
      (sym (append_assoc (drop (suc h) xs) (take h xs) (val ∷ [])))

-- At the end of the array, the head goes back to its start.
wrapped : {T : Type 0} (n : ℕ) (xs : List T) → length xs ≡ n → drop n xs ++ take n xs ≡ xs ++ []
wrapped n xs e = rw (drop_all n xs (omega arith), take_all n xs (omega arith)) (sym (append-nil xs))

-- A push forgets the oldest value, and adds its own as the newest.
pub latest-push :
    {T : Type 0} (n : ℕ) (val : T) (r : RingArray T)
    → IsRing n r
    → latest (push n val r) ≡ drop 1 (latest r) ++ (val ∷ [])
unfolding push latest
latest-push n val r ring = elim (Bool-cases (r.head + 1 == n)) [
  | inl last ↦ rw last (
      sym (
        wrapped (suc r.head) (set r.items r.head val)
          (ground (arith, length-set r.items r.head val)))
      ∙ behind r.head val r.items (omega arith))
  | inr other ↦ rw other (
      let next : r.head + 1 ≡ suc r.head = omega arith in
      rw next (behind r.head val r.items (omega arith)))
]

-- A list of values pushed one after the other.
unfoldable pub pushes : {T : Type 0} → ℕ → List T → RingArray T → RingArray T
pushes n [] r = r
pushes n (val ∷ vals) r = pushes n vals (push n val r)

pub pushes-IsRing :
    {T : Type 0} (n : ℕ) (vals : List T) (r : RingArray T) → IsRing n r → IsRing n (pushes n vals r)
unfolding pushes
pushes-IsRing n [] r ring = ring
pushes-IsRing n (val ∷ vals) r ring = pushes-IsRing n vals (push n val r) (push-IsRing n val r ring)

forget :
    {T : Type 0} (m : ℕ) (xs : List T) (val : T) (vals : List T)
    → 0 < length xs
    → drop m ((drop 1 xs ++ (val ∷ [])) ++ vals) ≡ drop (suc m) (xs ++ val ∷ vals)
forget m [] val vals h = absurd (omega arith)
forget m (x ∷ xs) val vals h = ap (drop m) (append_assoc xs (val ∷ []) vals)

latest_nonempty : {T : Type 0} (n : ℕ) (r : RingArray T) → IsRing n r → 0 < length (latest r)
unfolding latest
latest_nonempty n r ring =
    omega
      (arith, length-append (drop r.head r.items) (take r.head r.items), length-drop r.head r.items)

-- As many values are forgotten as were pushed, the oldest ones.
pub latest-pushes :
    {T : Type 0} (n : ℕ) (vals : List T) (r : RingArray T)
    → IsRing n r
    → latest (pushes n vals r) ≡ drop (length vals) (latest r ++ vals)
unfolding pushes
latest-pushes n [] r ring = sym (append-nil (latest r))
latest-pushes n (val ∷ vals) r ring =
    latest-pushes n vals (push n val r) (push-IsRing n val r ring)
    ∙ rw (latest-push n val r ring)
        (forget (length vals) (latest r) val vals (latest_nonempty n r ring))
