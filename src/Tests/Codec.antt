-- ===== src/Tests/Codec.antt =====
-- A msgpack format whose bytes are tokens: the header of an array gives the number of its elements.
use arduino_q_plugin.Common.{
  ℕ, zero, suc, ◌+◌, ◌*◌, ◌<◌, String, ◌≡◌, refl, Bool, Option, none, some, List, [], ◌∷◌, ◌++◌,
  append_assoc, arith, length, length-append,
}
use arduino_q_plugin.Common.Int.{ℤ, pos, negsuc}
use arduino_q_plugin.Msgpack.{Object, Objects, size, Decoded, incomplete, message}

pub data Token : Type 0 where
  nil : Token
  bool : Bool → Token
  int : ℤ → Token
  single double : ℕ → Token
  str : String → Token
  header : ℕ → Token
  ext : ℕ → Token

unfoldable mutual
  pub tokens : Object → List Token
  tokens Object.nil = Token.nil ∷ []
  tokens (Object.boolean b) = Token.bool b ∷ []
  tokens (Object.positive_integer n) = Token.int (pos n) ∷ []
  tokens (Object.negative_integer n) = Token.int (negsuc n) ∷ []
  tokens (Object.float32 d) = Token.single d ∷ []
  tokens (Object.float64 d) = Token.double d ∷ []
  tokens (Object.str s) = Token.str s ∷ []
  tokens (Object.array os) = Token.header (size os) ∷ all_tokens os
  tokens (Object.other n) = Token.ext n ∷ []

  pub all_tokens : Objects → List Token
  all_tokens Objects.no_objects = []
  all_tokens (Objects.element o os) = tokens o ++ all_tokens os

abbrev pub Parsed : Type 0 → Type 0
Parsed A = Option (A × List Token)

abbrev pub and_then : {A B : Type 0} → Parsed A → (A → List Token → Parsed B) → Parsed B
and_then none f = none
and_then (some (a, ts)) f = f a ts

unfoldable mutual
  pub parse : ℕ → List Token → Option (Object × List Token)
  parse zero ts = none
  parse (suc f) [] = none
  parse (suc f) (Token.nil ∷ ts) = some (Object.nil, ts)
  parse (suc f) (Token.bool b ∷ ts) = some (Object.boolean b, ts)
  parse (suc f) (Token.int (pos n) ∷ ts) = some (Object.positive_integer n, ts)
  parse (suc f) (Token.int (negsuc n) ∷ ts) = some (Object.negative_integer n, ts)
  parse (suc f) (Token.single d ∷ ts) = some (Object.float32 d, ts)
  parse (suc f) (Token.double d ∷ ts) = some (Object.float64 d, ts)
  parse (suc f) (Token.str s ∷ ts) = some (Object.str s, ts)
  parse (suc f) (Token.header n ∷ ts) =
      and_then (parse_each f n ts) λ os rest. some (Object.array os, rest)
  parse (suc f) (Token.ext n ∷ ts) = some (Object.other n, ts)

  pub parse_each : ℕ → ℕ → List Token → Option (Objects × List Token)
  parse_each zero zero ts = some (Objects.no_objects, ts)
  parse_each zero (suc n) ts = none
  parse_each (suc f) zero ts = some (Objects.no_objects, ts)
  parse_each (suc f) (suc n) ts =
      and_then (parse f ts)
        λ o rest. and_then (parse_each f n rest) λ os rest'. some (Objects.element o os, rest')

unfoldable pub finish : Parsed Object → Decoded Token
finish none = incomplete
finish (some (o, rest)) = message o rest

unfoldable pub decode : List Token → Decoded Token
unfolding finish
decode ts = finish (parse (2 * length ts + 1) ts)

pub tokens_pos : (o : Object) → 0 < length (tokens o)
unfolding tokens
tokens_pos Object.nil = omega arith
tokens_pos _ = omega arith

-- With enough fuel an object is read off the front.
mutual
  unfolding tokens parse

  pub reads :
      (o : Object) (f : ℕ) (rest : List Token)
      → 2 * length (tokens o) < f
      → parse f (tokens o ++ rest) ≡ some (o, rest)
  reads (Object.array os) zero rest h = absurd (omega arith)
  reads (Object.array os) (suc f) rest h = rw (reads_each os f rest (omega arith))
  reads Object.nil zero rest h = absurd (omega arith)
  reads Object.nil (suc f) rest h = refl
  reads (Object.boolean b) zero rest h = absurd (omega arith)
  reads (Object.boolean b) (suc f) rest h = refl
  reads (Object.positive_integer n) zero rest h = absurd (omega arith)
  reads (Object.positive_integer n) (suc f) rest h = refl
  reads (Object.negative_integer n) zero rest h = absurd (omega arith)
  reads (Object.negative_integer n) (suc f) rest h = refl
  reads (Object.float32 d) zero rest h = absurd (omega arith)
  reads (Object.float32 d) (suc f) rest h = refl
  reads (Object.float64 d) zero rest h = absurd (omega arith)
  reads (Object.float64 d) (suc f) rest h = refl
  reads (Object.str s) zero rest h = absurd (omega arith)
  reads (Object.str s) (suc f) rest h = refl
  reads (Object.other n) zero rest h = absurd (omega arith)
  reads (Object.other n) (suc f) rest h = refl

  reads_each :
      (os : Objects) (f : ℕ) (rest : List Token)
      → 2 * length (all_tokens os) + 1 < f
      → parse_each f (size os) (all_tokens os ++ rest) ≡ some (os, rest)
  reads_each Objects.no_objects zero rest h = refl
  reads_each Objects.no_objects (suc f) rest h = refl
  reads_each (Objects.element o os) zero rest h = absurd (omega arith)
  reads_each (Objects.element o os) (suc f) rest h =
      let len = length-append (tokens o) (all_tokens os) in
      rw (
        append_assoc (tokens o) (all_tokens os) rest,
        reads o f (all_tokens os ++ rest) (omega (arith, len)),
        reads_each os f rest (omega (arith, len, tokens_pos o)),
      )
