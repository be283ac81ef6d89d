-- ===== src/Router/Threads/Serving.antt =====
-- Which threads serve their descriptor, and how a step changes that.
use arduino_q_plugin.Common.{
  ℕ, Bool, true, false, Option, none, some, ◌==◌, ◌≡◌, ◌≢◌, ◌⊎◌, if◌then◌else◌, Bool-cases, inl,
  inr, arith,
}
use arduino_q_plugin.Common.Int.{ℤ, pos, negsuc}
use arduino_q_plugin.Router.Registry.{unless_owned}
use arduino_q_plugin.Router.Threads.System.{Phase, put}

pub registered :
    (b : Bool) (fd k : ℕ) (old : ℤ) → (if b then pos fd else old) ≡ pos k → (fd ≡ k) ⊎ (old ≡ pos k)
registered true fd k old e = inl (ground (arith, e))
registered false fd k old e = inr e

pub left : (fd k : ℕ) (old : ℤ) → unless_owned fd old ≡ pos k → (k ≢ fd) × (old ≡ pos k)
left fd k (pos owner) e = elim (Bool-cases (owner == fd)) [
  | inl gone ↦ absurd (ground (arith, e, gone))
  | inr kept ↦ (λ same. ground (arith, e, kept, same), ground (arith, e, kept))
]
left fd k (negsuc n) e = absurd cc

module _ {Byte : Type 0} where
  -- A thread that has not left its loop and reset its methods.
  abbrev pub serves : Option (Phase Byte) → Bool
  serves none = false
  serves (some Phase.closing) = false
  serves (some p) = true

  pub serves-put :
      (fd k : ℕ) (p : Phase Byte) (threads : ℕ → Option (Phase Byte))
      → serves (some p) ≡ true
      → serves (threads k) ≡ true
      → serves (put fd (some p) threads k) ≡ true
  serves-put fd k p threads new old = elim (Bool-cases (k == fd)) [
    | inl same ↦ rw same new
    | inr other ↦ rw other old
  ]

  pub serves-put_own :
      (fd k : ℕ) (p : Phase Byte) (threads : ℕ → Option (Phase Byte))
      → fd ≡ k
      → serves (some p) ≡ true
      → serves (put fd (some p) threads k) ≡ true
  serves-put_own fd k p threads same new = elim (Bool-cases (k == fd)) [
    | inl own ↦ rw own new
    | inr other ↦ absurd (ground (arith, same, other))
  ]

  pub serves-put_other :
      (fd k : ℕ) (p : Option (Phase Byte)) (threads : ℕ → Option (Phase Byte))
      → k ≢ fd
      → serves (threads k) ≡ true
      → serves (put fd p threads k) ≡ true
  serves-put_other fd k p threads other old = elim (Bool-cases (k == fd)) [
    | inl same ↦ absurd (ground (arith, other, same))
    | inr apart ↦ rw apart old
  ]
