-- ===== src/Router/Registry.antt =====
-- The registry as a map from method names to descriptors.
use arduino_q_plugin.Common.{
  ℕ, String, ◌≡◌, refl, ap, ◌∙◌, List, [], ◌∷◌, Bool-cases, inl, inr, ◌==◌, if◌then◌else◌, arith,
}
use arduino_q_plugin.Common.Int.{ℤ, pos, negsuc}
use arduino_q_plugin.Router.{register_method, reset_methods, lookup_method}
use text.Mathlib.Text.{◌==◌ as text_eq}
use text.Mathlib.TextEquality.{eq_iff}

-- Registering a method sends its name to the new descriptor, and no other name elsewhere.
pub lookup_method-register_method :
    (fd : ℕ) (method name : String) (es : List (String × ℕ))
    → lookup_method name (register_method fd method es)
      ≡ (if text_eq method name then pos fd else lookup_method name es)
unfolding lookup_method register_method
lookup_method-register_method fd method name [] = refl
lookup_method-register_method fd method name ((m, owner) ∷ es) = ground (
  arith,
  eq_iff m method,
  eq_iff method name,
  eq_iff m name,
  lookup_method-register_method fd method name es,
)

-- No name has two entries.
unfoldable pub IsMap : List (String × ℕ) → Type 0
IsMap [] = Unit
IsMap ((m, owner) ∷ es) = (lookup_method m es ≡ negsuc 0) × IsMap es

pub register_method-IsMap :
    (fd : ℕ) (method : String) (es : List (String × ℕ))
    → IsMap es
    → IsMap (register_method fd method es)
unfolding register_method IsMap lookup_method
register_method-IsMap fd method [] h = (refl, tt)
register_method-IsMap fd method ((m, owner) ∷ es) (new, h) = elim (Bool-cases (text_eq m method)) [
  | inl same ↦ rw same (new, h)
  | inr other ↦ rw other (
    lookup_method-register_method fd method m es ∙ ground (arith, eq_iff m method, eq_iff method m),
    register_method-IsMap fd method es h,
  )
]

-- What a lookup finds once the methods of a descriptor are gone.
abbrev pub unless_owned : ℕ → ℤ → ℤ
unless_owned fd (pos owner) = if owner == fd then negsuc 0 else pos owner
unless_owned fd (negsuc n) = negsuc n

-- In a registry with one entry for each name, resetting a descriptor unregisters its methods, and
-- leaves those of others as they are.
pub lookup_method-reset_methods :
    (fd : ℕ) (name : String) (es : List (String × ℕ))
    → IsMap es
    → lookup_method name (reset_methods fd es) ≡ unless_owned fd (lookup_method name es)
unfolding lookup_method reset_methods IsMap
lookup_method-reset_methods fd name [] h = refl
lookup_method-reset_methods fd name ((m, owner) ∷ es) (new, h) =
    ground (arith, eq_iff m name, lookup_method-reset_methods fd name es h)

pub reset_methods-IsMap : (fd : ℕ) (es : List (String × ℕ)) → IsMap es → IsMap (reset_methods fd es)
unfolding reset_methods IsMap
reset_methods-IsMap fd [] h = tt
reset_methods-IsMap fd ((m, owner) ∷ es) (new, h) = elim (Bool-cases (owner == fd)) [
  | inl gone ↦ rw gone (reset_methods-IsMap fd es h)
  | inr kept ↦ rw kept (
    lookup_method-reset_methods fd m es h ∙ ap (unless_owned fd) new,
    reset_methods-IsMap fd es h,
  )
]
