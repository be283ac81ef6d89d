-- ===== src/Source/Queue.antt =====
-- The bounded queue of notify mode: its bound, and which messages each overflow policy keeps.
use arduino_q_plugin.Common.{
  ℕ, zero, suc, ◌≤◌, ◌<◌, ◌≡◌, refl, ap, sym, ◌∙◌, true, false, not, ◌&&◌, List, [], ◌∷◌, ◌++◌,
  append_assoc, append-nil, arith, length, length-append, take, take_all, leb, if◌then◌else◌,
  Bool-cases, inl, inr,
}
use arduino_q_plugin.Json.{Json}
use arduino_q_plugin.Source.{Source, enqueue_message, pop_front}
use text.Mathlib.Text.{◌==◌ as text_eq}

-- The messages of a sequence, enqueued in order.
unfoldable pub enqueue_all : List Json → Source → Source
enqueue_all [] s = s
enqueue_all (m ∷ ms) s = enqueue_all ms (enqueue_message m s).1

-- The last `n` entries of a list, or all of them.
unfoldable pub last_entries : ℕ → List Json → List Json
last_entries n [] = []
last_entries n (x ∷ xs) = if leb (suc (length xs)) n then x ∷ xs else last_entries n xs

pub last_entries_all : (n : ℕ) (xs : List Json) → length xs ≤ n → last_entries n xs ≡ xs
unfolding last_entries
last_entries_all n [] h = refl
last_entries_all n (x ∷ xs) h = ground arith

-- What the queue holds after one more message.
abbrev pushed : ℕ → List Json → Json → List Json
pushed n q m = if leb n (length q) then pop_front q ++ m ∷ [] else q ++ m ∷ []

last_entries-cons :
    (n : ℕ) (x : Json) (xs : List Json)
    → n ≤ length xs
    → last_entries n (x ∷ xs) ≡ last_entries n xs
unfolding last_entries
last_entries-cons n x xs h = ground arith

pushed_short : (n : ℕ) (q : List Json) (m : Json) → length q < n → pushed n q m ≡ q ++ m ∷ []
pushed_short n q m h = ground arith

pushed_full :
    (n : ℕ) (q : List Json) (m : Json) → n ≤ length q → pushed n q m ≡ pop_front q ++ m ∷ []
pushed_full n q m h = ground arith

last_entries-snoc :
    (n : ℕ) (xs : List Json) (m : Json)
    → 0 < n
    → last_entries n (xs ++ m ∷ []) ≡ pushed n (last_entries n xs) m
last_entries-snoc n [] m h =
    last_entries_all n (m ∷ []) (omega arith)
    ∙ sym (ap (λ q. pushed n q m) (last_entries_all n [] (omega arith)) ∙ pushed_short n [] m h)
last_entries-snoc n (x ∷ xs) m h = elim (Bool-cases (leb n (length xs))) [
  | inl long ↦
      last_entries-cons n x (xs ++ m ∷ []) (ground (arith, length-append xs (m ∷ [])))
      ∙ last_entries-snoc n xs m h
      ∙ ap (λ q. pushed n q m) (sym (last_entries-cons n x xs (ground arith)))
  | inr short ↦
      let whole = ap (λ q. pushed n q m) (last_entries_all n (x ∷ xs) (ground arith)) in
      elim (Bool-cases (leb n (suc (length xs)))) [
        | inl full ↦
            last_entries-cons n x (xs ++ m ∷ []) (ground (arith, length-append xs (m ∷ [])))
            ∙ last_entries_all n (xs ++ m ∷ []) (ground (arith, length-append xs (m ∷ [])))
            ∙ sym (whole ∙ pushed_full n (x ∷ xs) m (ground arith))
        | inr room ↦
            last_entries_all n (x ∷ xs ++ m ∷ []) (ground (arith, length-append xs (m ∷ [])))
            ∙ sym (whole ∙ pushed_short n (x ∷ xs) m (ground arith))
      ]
]

-- The policy of a plugin whose setup succeeded, and a queue within its bound.
pub record IsReady (s : Source) : Type 0 where
  pub capacity : 0 < s.max_queue
  pub bounded : length s.message_queue ≤ s.max_queue

oldest_step :
    (m : Json) (s : Source)
    → text_eq s.overflow_policy "drop_newest" ≡ false
    → enqueue_message m s
      ≡ (true, record s { message_queue = pushed s.max_queue s.message_queue m })
unfolding enqueue_message
oldest_step m s policy = elim (Bool-cases (leb s.max_queue (length s.message_queue))) [
  | inl full ↦ rw (full, policy)
  | inr room ↦ rw room
]

-- What the queue holds after one more message under drop_newest.
abbrev accepted : ℕ → List Json → Json → List Json
accepted n q m = if leb n (length q) then q else q ++ m ∷ []

newest_step :
    (m : Json) (s : Source)
    → text_eq s.overflow_policy "drop_newest" ≡ true
    → (enqueue_message m s).1 ≡ record s { message_queue = accepted s.max_queue s.message_queue m }
unfolding enqueue_message
newest_step m s policy = elim (Bool-cases (leb s.max_queue (length s.message_queue))) [
  | inl full ↦ rw (full, policy)
  | inr room ↦ rw room
]

length-pop_front : (q : List Json) → 0 < length q → suc (length (pop_front q)) ≡ length q
length-pop_front [] h = absurd (omega arith)
length-pop_front (x ∷ q) h = refl

-- Enqueueing keeps a queue with room for a message within its bound, and reports failure exactly
-- when the queue is full and the policy is drop_newest.
pub enqueue_message_bounds :
    (m : Json) (s : Source)
    → IsReady s
    → IsReady (enqueue_message m s).1
      × ((enqueue_message m s).0
          ≡ not
              (leb s.max_queue (length s.message_queue) && text_eq s.overflow_policy "drop_newest"))
unfolding enqueue_message
enqueue_message_bounds m s v = elim (Bool-cases (leb s.max_queue (length s.message_queue))) [
  | inr room ↦ rw room (
    record {
      capacity = v.capacity;
      bounded = ground (arith, length-append s.message_queue (m ∷ []));
    },
    refl,
  )
  | inl full ↦ elim (Bool-cases (text_eq s.overflow_policy "drop_newest")) [
    | inl newest ↦ rw (full, newest) (v, refl)
    | inr oldest ↦
        rw (full, oldest)
          (
            record {
              capacity = v.capacity;
              bounded = ground (
                arith,
                v.capacity,
                v.bounded,
                length-append (pop_front s.message_queue) (m ∷ []),
                length-pop_front s.message_queue,
              );
            },
            refl,
          )
  ]
]

-- With drop_oldest and room for a message, a queue that holds the latest messages goes on to hold
-- the latest, as many as fit, in the order of arrival.
pub enqueue_all-drop_oldest :
    (ms all : List Json) (s : Source)
    → 0 < s.max_queue
    → text_eq s.overflow_policy "drop_newest" ≡ false
    → s.message_queue ≡ last_entries s.max_queue all
    → (enqueue_all ms s).message_queue ≡ last_entries s.max_queue (all ++ ms)
unfolding enqueue_all
enqueue_all-drop_oldest [] all s room policy h =
    h ∙ ap (last_entries s.max_queue) (sym (append-nil all))
enqueue_all-drop_oldest (m ∷ ms) all s room policy h =
    ap (λ p. (enqueue_all ms p.1).message_queue) (oldest_step m s policy)
    ∙ (enqueue_all-drop_oldest ms (all ++ m ∷ [])
          (record s { message_queue = pushed s.max_queue s.message_queue m }) room policy
          (ap (λ q. pushed s.max_queue q m) h ∙ sym (last_entries-snoc s.max_queue all m room))
        ∙ ap (last_entries s.max_queue) (append_assoc all (m ∷ []) ms))

take-snoc : (n : ℕ) (xs : List Json) (m : Json) → take n (xs ++ m ∷ []) ≡ accepted n (take n xs) m
take-snoc zero xs m = refl
take-snoc (suc n) [] m = ap (◌∷◌ m) (take_all n [] (omega arith)) ∙ ground arith
take-snoc (suc n) (x ∷ xs) m = ap (◌∷◌ x) (take-snoc n xs m) ∙ ground arith

-- With drop_newest, a queue that holds the earliest messages goes on to hold the earliest, as many
-- as fit, in the order of arrival.
pub enqueue_all-drop_newest :
    (ms all : List Json) (s : Source)
    → text_eq s.overflow_policy "drop_newest" ≡ true
    → s.message_queue ≡ take s.max_queue all
    → (enqueue_all ms s).message_queue ≡ take s.max_queue (all ++ ms)
unfolding enqueue_all
enqueue_all-drop_newest [] all s policy h = h ∙ ap (take s.max_queue) (sym (append-nil all))
enqueue_all-drop_newest (m ∷ ms) all s policy h =
    ap (λ p. (enqueue_all ms p).message_queue) (newest_step m s policy)
    ∙ (enqueue_all-drop_newest ms (all ++ m ∷ [])
          (record s { message_queue = accepted s.max_queue s.message_queue m }) policy
          (ap (λ q. accepted s.max_queue q m) h ∙ sym (take-snoc s.max_queue all m))
        ∙ ap (take s.max_queue) (append_assoc all (m ∷ []) ms))
