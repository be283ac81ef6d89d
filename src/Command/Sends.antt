-- ===== src/Command/Sends.antt =====
-- Which values the program makes of the words of its command line, and what it sends for them.
use Prim.Native.String.{len}
use arduino_q_plugin.Common.{
  ℕ, ◌<◌, ◌≡◌, ◌≢◌, refl, ap, ◌∙◌, ◌⊎◌, inl, inr, Bool-cases, String, Bool, true, false, Option,
  none, some, List, [], ◌∷◌, ◌++◌, ◌==◌, length, take, is_empty, arith,
}
use arduino_q_plugin.Common.Int.{ℤ, pos, negsuc}
use arduino_q_plugin.Common.Result.{Result, ok, throw, out_of_fuel, Exception}
use arduino_q_plugin.Msgpack.{Msgpack}
use arduino_q_plugin.Value.{Value, Values}
use arduino_q_plugin.Socket.{World, Attempt, made, close_fd, set_up, validate_socket_path}
use arduino_q_plugin.Frames.{request_bytes}
use arduino_q_plugin.Client.{Session, unconnected, call, close}
use arduino_q_plugin.Client.Calls.{call_effects}
use arduino_q_plugin.Client.Sockets.{connect_done}
use arduino_q_plugin.Command.{
  whole, word, from_double, from_int, argument, arguments, main, with_path, run, finished,
}
use arduino_q_plugin.Command.Prints.{Names}
use package.text.Mathlib.Text.{◌==◌ as text_eq}
use package.text.Mathlib.TextEquality.{eq_iff}

module _ (stoll : String → Option (ℤ × ℕ)) (stod : String → Option (ℕ × ℕ)) where
  -- Neither `stoll` nor `stod` reads all of the word.
  abbrev pub NoInt : String → Type 0
  NoInt arg = (z : ℤ) → stoll arg ≢ some (z, len arg)

  abbrev pub NoDouble : String → Type 0
  NoDouble arg = (d : ℕ) → stod arg ≢ some (d, len arg)

  -- The value that a word stands for: the integer that it is as a whole, or else the double, or else
  -- the Boolean, and any other word stands for itself.
  pub data Spells : String → Value → Type 0 where
    int : {arg : String} {z : ℤ} → stoll arg ≡ some (z, len arg) → Spells arg (Value.int64 z)
    double :
        {arg : String} {d : ℕ}
        → NoInt arg
        → stod arg ≡ some (d, len arg)
        → Spells arg (Value.double d)
    yes :
        {arg : String}
        → NoInt arg
        → NoDouble arg
        → (arg ≡ "true") ⊎ (arg ≡ "on")
        → Spells arg (Value.bool true)
    no :
        {arg : String}
        → NoInt arg
        → NoDouble arg
        → (arg ≡ "false") ⊎ (arg ≡ "off")
        → Spells arg (Value.bool false)
    text :
        {arg : String}
        → NoInt arg
        → NoDouble arg
        → (arg ≢ "true") × (arg ≢ "on") × (arg ≢ "false") × (arg ≢ "off")
        → Spells arg (Value.string arg)

  abbrev pub AllSpell : List String → Values → Type 0
  AllSpell [] Values.no_values = Unit
  AllSpell (arg ∷ rest) (Values.value v vs) = Spells arg v × AllSpell rest vs
  AllSpell _ _ = ⊥

  differs : (s t : String) → text_eq s t ≡ false → s ≢ t
  differs s t e same = ground (arith, eq_iff s t, e, same)

  word-Spells : (arg : String) → NoInt arg → NoDouble arg → Spells arg (word arg)
  unfolding word
  word-Spells arg no_int no_double = elim (Bool-cases (text_eq arg "true")) [
    | inl a ↦ rw a (Spells.yes no_int no_double (inl ((eq_iff arg "true").0 a)))
    | inr a ↦ elim (Bool-cases (text_eq arg "on")) [
      | inl b ↦ rw (a, b) (Spells.yes no_int no_double (inr ((eq_iff arg "on").0 b)))
      | inr b ↦ elim (Bool-cases (text_eq arg "false")) [
        | inl c ↦ rw (a, b, c) (Spells.no no_int no_double (inl ((eq_iff arg "false").0 c)))
        | inr c ↦ elim (Bool-cases (text_eq arg "off")) [
          | inl d ↦ rw (a, b, c, d) (Spells.no no_int no_double (inr ((eq_iff arg "off").0 d)))
          | inr d ↦
              rw (a, b, c, d)
                (Spells.text no_int no_double (
                  differs arg "true" a,
                  differs arg "on" b,
                  differs arg "false" c,
                  differs arg "off" d,
                ))
        ]
      ]
    ]
  ]

  -- What was read of a word is all of it, or there is nothing that is.
  whole-cases :
      {A : Type 0} (arg : String) (o : Option (A × ℕ))
      → ((a : A) × (whole arg o ≡ some a) × (o ≡ some (a, len arg)))
        ⊎ ((whole arg o ≡ none) × ((a : A) → o ≢ some (a, len arg)))
  whole-cases arg none = inr (refl, λ a e. absurd cc)
  whole-cases arg (some (a, read)) = elim (Bool-cases (read == len arg)) [
    | inl all ↦
        let same : read ≡ len arg = ground (arith, all) in
        inl (a, rw all refl, ap (λ n. some (a, n)) same)
    | inr part ↦
        inr (rw part refl, λ b e. let same : read ≡ len arg = cc e in ground (arith, part, same))
  ]

  argument-Spells : (arg : String) → Spells arg (argument stoll stod arg)
  unfolding argument from_int from_double
  argument-Spells arg = elim (whole-cases arg (stoll arg)) [
    | inl (z, all, e) ↦ rw all (Spells.int e)
    | inr (part, no_int) ↦ elim (whole-cases arg (stod arg)) [
      | inl (d, all, e) ↦ rw (part, all) (Spells.double no_int e)
      | inr (less, no_double) ↦ rw (part, less) (word-Spells arg no_int no_double)
    ]
  ]

  arguments-AllSpell : (args : List String) → AllSpell args (arguments stoll stod args)
  unfolding arguments
  arguments-AllSpell [] = tt
  arguments-AllSpell (arg ∷ rest) = (argument-Spells arg, arguments-AllSpell rest)

close_fd-sent : {Byte : Type 0} (fd : ℤ) (w : World Byte) → (close_fd fd w).1.sent ≡ w.sent
unfolding close_fd
close_fd-sent (pos fd) w = refl
close_fd-sent (negsuc n) w = refl

module _ (stoll : String → Option (ℤ × ℕ)) (stod : String → Option (ℕ × ℕ)) (show_int : ℤ → String)
    (show_double : ℕ → String) (mp : Msgpack) (n : ℕ) (a : Attempt) where
  -- What a run on a fresh client sent: all these bytes, or a proper prefix of them, and then it returned
  -- 1 and printed no result.
  abbrev pub RunSends :
      World mp.Byte → List mp.Byte → (ℕ × Option String) × Session mp.Byte → Type 0
  RunSends w bytes (printed, s) =
      (s.world.sent ≡ w.sent ++ bytes)
      ⊎ ((k : ℕ) × (printed ≡ (1, none))
          × (k < length bytes)
          × (s.world.sent ≡ w.sent ++ take k bytes))

  finished-sent :
      (p : Result Value × Session mp.Byte)
      → (finished stoll stod show_int show_double mp n a p).1.world.sent ≡ p.1.world.sent
  unfolding finished close
  finished-sent (ok v, s) = close_fd-sent s.socket_fd s.world
  finished-sent (throw e, s) = close_fd-sent s.socket_fd s.world
  finished-sent (out_of_fuel, s) = close_fd-sent s.socket_fd s.world

  finished_throw :
      (e : Exception) (p : Result Value × Session mp.Byte)
      → p.0 ≡ throw e
      → (finished stoll stod show_int show_double mp n a p).0 ≡ (1, none)
  unfolding finished
  finished_throw e (ok v, s) h = absurd cc
  finished_throw e (throw x, s) h = refl
  finished_throw e (out_of_fuel, s) h = refl

  run-RunSends :
      (path method : String) (args : Values) (fd : ℕ) (w : World mp.Byte)
      → is_empty method ≡ false
      → validate_socket_path n path ≡ ok tt
      → a.socket ≡ made fd
      → set_up a ≡ ok tt
      → RunSends w (request_bytes mp 0 method args) (
          run stoll stod show_int show_double mp n a path method args
            (record { client = unconnected; world = w }))
  unfolding run
  run-RunSends path method args fd w named valid socket up =
      let c : Session mp.Byte = record {
        client = record { socket_fd = pos fd; next_msgid = 0 };
        world = w;
      } in
      let same = finished-sent (call mp method args c) in
      rw (connect_done a n 0 fd path w valid socket up)
        (elim (call_effects mp method args c refl named).3 [
          | inl sent ↦ inl (same ∙ sent)
          | inr (e, k, throws, short, sent) ↦
              inr (k, finished_throw e (call mp method args c) throws, short, same ∙ sent)
        ])

  -- For a command line with a path in front of the method, or without one: if the method is named and
  -- the kernel connects to that path or else the default one, which is valid, `main` sends the request
  -- that calls the method with the values that the words behind it spell: all of it, or a proper prefix
  -- of it, and then it returns 1 and prints no result. A word spells an integer if `stoll` reads all of
  -- it; if not, a double if `stod` does; if not, true if it is "true" or "on", and false if it is
  -- "false" or "off"; and any other word is a text.
  pub main-sends :
      (default_path path method : String) (exists : String → Bool) (line rest : List String)
      (fd : ℕ) (w : World mp.Byte)
      → Names default_path exists line path method rest
      → is_empty method ≡ false
      → validate_socket_path n path ≡ ok tt
      → a.socket ≡ made fd
      → set_up a ≡ ok tt
      → (vs : Values) × AllSpell stoll stod rest vs
        × RunSends w (request_bytes mp 0 method vs) (
            main stoll stod show_int show_double mp n a default_path exists line
              (record { client = unconnected; world = w }))
  unfolding main with_path
  main-sends default_path path method exists line rest fd w (Names.by_default function) named valid
        socket up =
      (
        arguments stoll stod rest,
        arguments-AllSpell stoll stod rest,
        rw function
            (run-RunSends path method (arguments stoll stod rest) fd w named valid socket up),
      )
  main-sends default_path path method exists line rest fd w (Names.with_socket socket_path) named
        valid socket up =
      (
        arguments stoll stod rest,
        arguments-AllSpell stoll stod rest,
        rw socket_path
            (run-RunSends path method (arguments stoll stod rest) fd w named valid socket up),
      )
