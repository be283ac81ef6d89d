-- ===== src/Tests/Parsing.antt =====
-- The parser of the token format: it reads nothing of a part of an object, and takes off what it reads.
use arduino_q_plugin.Common.{
  ℕ, zero, suc, ◌-◌, ◌≤◌, ◌<◌, ◌≡◌, refl, ap, ◌⊎◌, inl, inr, none, some, List, [], ◌∷◌, ◌++◌,
  append_assoc, arith, length, length-append, take, take-append_short, take-append_long, ltb,
  Bool-cases,
}
use arduino_q_plugin.Common.Int.{pos, negsuc}
use arduino_q_plugin.Msgpack.{Object, Objects, size}
use arduino_q_plugin.Tests.Codec.{Token, Parsed, and_then, tokens, all_tokens, parse, parse_each}

-- With any fuel an object in front is read, or nothing is.
mutual
  unfolding tokens parse

  reads_or :
      (o : Object) (f : ℕ) (rest : List Token)
      → (parse f (tokens o ++ rest) ≡ none) ⊎ (parse f (tokens o ++ rest) ≡ some (o, rest))
  reads_or (Object.array os) zero rest = inl refl
  reads_or (Object.array os) (suc f) rest = elim (reads_each_or os f rest) [
    | inl e ↦ inl (rw e)
    | inr e ↦ inr (rw e)
  ]
  reads_or Object.nil zero rest = inl refl
  reads_or Object.nil (suc f) rest = inr refl
  reads_or (Object.boolean b) zero rest = inl refl
  reads_or (Object.boolean b) (suc f) rest = inr refl
  reads_or (Object.positive_integer n) zero rest = inl refl
  reads_or (Object.positive_integer n) (suc f) rest = inr refl
  reads_or (Object.negative_integer n) zero rest = inl refl
  reads_or (Object.negative_integer n) (suc f) rest = inr refl
  reads_or (Object.float32 d) zero rest = inl refl
  reads_or (Object.float32 d) (suc f) rest = inr refl
  reads_or (Object.float64 d) zero rest = inl refl
  reads_or (Object.float64 d) (suc f) rest = inr refl
  reads_or (Object.str s) zero rest = inl refl
  reads_or (Object.str s) (suc f) rest = inr refl
  reads_or (Object.other n) zero rest = inl refl
  reads_or (Object.other n) (suc f) rest = inr refl

  reads_each_or :
      (os : Objects) (f : ℕ) (rest : List Token)
      → (parse_each f (size os) (all_tokens os ++ rest) ≡ none)
        ⊎ (parse_each f (size os) (all_tokens os ++ rest) ≡ some (os, rest))
  reads_each_or Objects.no_objects zero rest = inr refl
  reads_each_or Objects.no_objects (suc f) rest = inr refl
  reads_each_or (Objects.element o os) zero rest = inl refl
  reads_each_or (Objects.element o os) (suc f) rest = elim (reads_or o f (all_tokens os ++ rest)) [
    | inl e ↦ inl (rw (append_assoc (tokens o) (all_tokens os) rest, e))
    | inr e ↦ elim (reads_each_or os f rest) [
      | inl e' ↦ inl (rw (append_assoc (tokens o) (all_tokens os) rest, e, e'))
      | inr e' ↦ inr (rw (append_assoc (tokens o) (all_tokens os) rest, e, e'))
    ]
  ]

parse-nil : (f : ℕ) → parse f [] ≡ none
unfolding parse
parse-nil zero = refl
parse-nil (suc f) = refl

first_token : (t : Token) (f k : ℕ) → k < 1 → parse f (take k (t ∷ [])) ≡ none
first_token t f zero h = parse-nil f
first_token t f (suc k) h = absurd (omega arith)

-- Of less than the whole object nothing is read.
mutual
  unfolding tokens parse

  pub cut : (o : Object) (f k : ℕ) → k < length (tokens o) → parse f (take k (tokens o)) ≡ none
  cut (Object.array os) f zero h = parse-nil f
  cut (Object.array os) zero (suc k) h = refl
  cut (Object.array os) (suc f) (suc k) h = rw (cut_each os f k (omega arith))
  cut Object.nil f k h = first_token _ f k h
  cut (Object.boolean b) f k h = first_token _ f k h
  cut (Object.positive_integer n) f k h = first_token _ f k h
  cut (Object.negative_integer n) f k h = first_token _ f k h
  cut (Object.float32 d) f k h = first_token _ f k h
  cut (Object.float64 d) f k h = first_token _ f k h
  cut (Object.str s) f k h = first_token _ f k h
  cut (Object.other n) f k h = first_token _ f k h

  cut_each :
      (os : Objects) (f k : ℕ)
      → k < length (all_tokens os)
      → parse_each f (size os) (take k (all_tokens os)) ≡ none
  cut_each Objects.no_objects f k h = absurd (omega arith)
  cut_each (Objects.element o os) zero k h = refl
  cut_each (Objects.element o os) (suc f) k h = elim (Bool-cases (ltb k (length (tokens o)))) [
    | inl short ↦
        rw (take-append_short k (tokens o) (all_tokens os) (ground arith), cut o f k (ground arith))
    | inr long ↦
        let rest = take (k - length (tokens o)) (all_tokens os) in
        let left : k - length (tokens o) < length (all_tokens os) =
          ground (arith, length-append (tokens o) (all_tokens os)) in
        elim (reads_or o f rest) [
          | inl e ↦ rw (take-append_long k (tokens o) (all_tokens os) (ground arith), e)
          | inr e ↦ rw (
            take-append_long k (tokens o) (all_tokens os) (ground arith),
            e,
            cut_each os f (k - length (tokens o)) left,
          )
        ]
  ]

rest_eq :
    {A : Type 0} {a b : A} {ts rs : List Token}
    → ◌≡◌ {A = Parsed A} (some (a, ts)) (some (b, rs))
    → ts ≡ rs
rest_eq e = cc

and_then_inv :
    {A B : Type 0} (p : Parsed A) (f : A → List Token → Parsed B) {b : B} {rs : List Token}
    → and_then p f ≡ some (b, rs)
    → (a : A) × (ts : List Token) × (p ≡ some (a, ts)) × (f a ts ≡ some (b, rs))
and_then_inv none f e = cc
and_then_inv (some (a, ts)) f e = (a, ts, refl, e)

-- What is read is taken off the front.
mutual
  unfolding parse

  pub parse_shrinks :
      (f : ℕ) (ts rest : List Token) (o : Object)
      → parse f ts ≡ some (o, rest)
      → length rest < length ts
  parse_shrinks zero ts rest o e = cc
  parse_shrinks (suc f) [] rest o e = cc
  parse_shrinks (suc f) (Token.nil ∷ ts) rest o e = omega (arith, ap length (rest_eq e))
  parse_shrinks (suc f) (Token.bool b ∷ ts) rest o e = omega (arith, ap length (rest_eq e))
  parse_shrinks (suc f) (Token.int (pos n) ∷ ts) rest o e = omega (arith, ap length (rest_eq e))
  parse_shrinks (suc f) (Token.int (negsuc n) ∷ ts) rest o e = omega (arith, ap length (rest_eq e))
  parse_shrinks (suc f) (Token.single d ∷ ts) rest o e = omega (arith, ap length (rest_eq e))
  parse_shrinks (suc f) (Token.double d ∷ ts) rest o e = omega (arith, ap length (rest_eq e))
  parse_shrinks (suc f) (Token.str s ∷ ts) rest o e = omega (arith, ap length (rest_eq e))
  parse_shrinks (suc f) (Token.ext n ∷ ts) rest o e = omega (arith, ap length (rest_eq e))
  parse_shrinks (suc f) (Token.header n ∷ ts) rest o e =
      let (os, ts', e', last) = and_then_inv (parse_each f n ts) _ e in
      omega (arith, parse_each_shrinks f n ts ts' os e', ap length (rest_eq last))

  parse_each_shrinks :
      (f n : ℕ) (ts rest : List Token) (os : Objects)
      → parse_each f n ts ≡ some (os, rest)
      → length rest ≤ length ts
  parse_each_shrinks zero zero ts rest os e = omega (arith, ap length (rest_eq e))
  parse_each_shrinks zero (suc n) ts rest os e = cc
  parse_each_shrinks (suc f) zero ts rest os e = omega (arith, ap length (rest_eq e))
  parse_each_shrinks (suc f) (suc n) ts rest os e =
      let (o, ts₁, e₁, more) = and_then_inv (parse f ts) _ e in
      let (os', ts₂, e₂, last) = and_then_inv (parse_each f n ts₁) _ more in
      omega (
        arith,
        parse_shrinks f ts ts₁ o e₁,
        parse_each_shrinks f n ts₁ ts₂ os' e₂,
        ap length (rest_eq last),
      )
