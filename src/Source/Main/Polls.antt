-- ===== src/Source/Main/Polls.antt =====
-- How long `main` of the source plugin waits for a message.
use arduino_q_plugin.Common.{
  ℕ, zero, suc, ◌+◌, ◌-◌, ◌<◌, ◌≤◌, ◌≡◌, refl, ap, sym, ◌∙◌, String, Bool, true, false, List, [],
  ◌∷◌, ◌++◌, arith, length, length-append, append-nil, append_assoc, leb, if-false,
}
use arduino_q_plugin.Common.Result.{Result, ok}
use arduino_q_plugin.Json.{Json, Fields, JsonLib, find_field}
use arduino_q_plugin.Value.{Message}
use arduino_q_plugin.Plugin.{ReturnType}
use arduino_q_plugin.Source.{Source, enqueue_message, get_output_notify}
use arduino_q_plugin.Source.Batches.{queued, expected, get_output-batches}
use arduino_q_plugin.Msgpack.{Msgpack}
use arduino_q_plugin.Source.Lifecycle.{Unoq, SourceMode}
use arduino_q_plugin.Source.Main.{
  Arrival, arrivals, arrived, get_output, output_in, poll_loop, now, later, after_poll,
}
use text.Mathlib.Text.{◌==◌ as text_eq}

-- So many rounds in which nothing arrives.
unfoldable pub quiet : ℕ → List (List Arrival) → List (List Arrival)
quiet zero rest = rest
quiet (suc k) rest = [] ∷ quiet k rest

-- The arrival of each of the messages.
abbrev pub arrive_all : List Json → List Arrival
arrive_all [] = []
arrive_all (m ∷ ms) = Arrival.arrives m ∷ arrive_all ms

lt→leb : (a b : ℕ) → b < a → leb a b ≡ false
lt→leb a b h = ground arith

-- Messages for which there is room are added to the queue.
arrivals_room :
    (ms : List Json) (s : Source)
    → length s.message_queue + length ms ≤ s.max_queue
    → arrivals (arrive_all ms) s ≡ record s { message_queue = s.message_queue ++ ms }
unfolding arrivals enqueue_message
arrivals_room [] s h = ap (λ q. record s { message_queue = q }) (sym (append-nil s.message_queue))
arrivals_room (m ∷ ms) s h =
    ap (λ (p : Bool × Source). arrivals (arrive_all ms) p.1)
      (if-false (leb s.max_queue (length s.message_queue)) _ _
        (lt→leb s.max_queue (length s.message_queue) (omega arith)))
    ∙ arrivals_room ms (record s { message_queue = s.message_queue ++ m ∷ [] })
        (omega (arith, length-append s.message_queue (m ∷ [])))
    ∙ ap (λ q. record s { message_queue = q }) (append_assoc s.message_queue (m ∷ []) ms)

module _ (mp : Msgpack) (lib : JsonLib) (s : Unoq mp.Byte) (notifies : s.mode ≡ SourceMode.notify)
    (ready : s.source.setup_ok ≡ true) (idle : s.source.message_queue ≡ [])
    (no_error : s.source.receiver_error ≡ "") where
  get_output-notify :
      (t : Source)
      → get_output mp lib (record s { source = t })
        ≡ (let (r, source) = get_output_notify lib t in (r, record s { source = source }))
  unfolding get_output output_in
  get_output-notify t = ap (λ m. output_in mp lib m (record s { source = t })) notifies

  retries : get_output mp lib s ≡ (ok (ReturnType.retry, Fields.no_fields), s)
  unfolding get_output_notify
  retries = get_output-notify s.source ∙ rw (ready, idle, no_error) refl

  one_round :
      (n : ℕ) (sleeps : List (List Arrival))
      → poll_loop mp lib (suc n) sleeps s
        ≡ poll_loop mp lib n (later sleeps) (arrived (now sleeps) s)
  unfolding poll_loop
  one_round n sleeps =
      ap (λ p. after_poll p.0 (poll_loop mp lib n (later sleeps) (arrived (now sleeps) p.1)))
        retries

  -- If nothing ever arrives, the loop ends with the code 2.
  pub poll_loop-idle : (n : ℕ) → poll_loop mp lib n [] s ≡ ok (2, Fields.no_fields)
  unfolding poll_loop arrivals
  poll_loop-idle zero = refl
  poll_loop-idle (suc n) = one_round n [] ∙ poll_loop-idle n

  quiet_rounds :
      (n k : ℕ) (sleeps : List (List Arrival))
      → poll_loop mp lib (k + n) (quiet k sleeps) s ≡ poll_loop mp lib n sleeps s
  unfolding quiet arrivals
  quiet_rounds n zero sleeps = ap (λ j. poll_loop mp lib j sleeps s) (omega arith)
  quiet_rounds n (suc k) sleeps =
      let next : suc k + n ≡ suc (k + n) = omega arith in
      ap (λ j. poll_loop mp lib j (quiet (suc k) sleeps) s) next
      ∙ one_round (k + n) (quiet (suc k) sleeps)
      ∙ quiet_rounds n k sleeps

  -- With a setup of notify mode that holds, nothing in the queue and no error, the loop of `main` waits
  -- through the rounds in which nothing arrives: when the first messages arrive, with room for them and
  -- before the last round, it ends with 0 and prints under every name but agent_id what is expected of
  -- those messages; if none arrives, it ends with 2.
  pub poll_loop-arrival :
      (n k : ℕ) (m : Message) (ms : List Message) (rest : List (List Arrival)) (key : String)
      → suc k < n
      → length (queued (m ∷ ms)) ≤ s.source.max_queue
      → text_eq "agent_id" key ≡ false
      → ((out : Fields) × (poll_loop mp lib n (quiet k (arrive_all (queued (m ∷ ms)) ∷ rest)) s
            ≡ ok (0, out))
          × (find_field key out ≡ expected s.source.provided_methods key (m ∷ ms)))
        × (poll_loop mp lib n [] s ≡ ok (2, Fields.no_fields))
  unfolding poll_loop
  poll_loop-arrival n k m ms rest key h room other =
      let full : Source = record s.source { message_queue = queued (m ∷ ms) } in
      let (out, e, found) = get_output-batches lib full m ms ready refl key other in
      let left = n - k - 2 in
      let enough : n ≡ k + suc (suc left) = omega arith in
      let filled : arrivals (arrive_all (queued (m ∷ ms))) s.source ≡ full =
        arrivals_room (queued (m ∷ ms)) s.source (ground (arith, idle, room))
        ∙ ap (λ q. record s.source { message_queue = q ++ queued (m ∷ ms) }) idle in
      let succeeds =
        get_output-notify full
        ∙ ap (λ (p : Result (ReturnType × Fields) × Source). (p.0, record s { source = p.1 })) e in
      (
        (
          out,
          ap (λ j. poll_loop mp lib j (quiet k (arrive_all (queued (m ∷ ms)) ∷ rest)) s) enough
              ∙ quiet_rounds (suc (suc left)) k (arrive_all (queued (m ∷ ms)) ∷ rest)
              ∙ one_round (suc left) (arrive_all (queued (m ∷ ms)) ∷ rest)
              ∙ ap (λ t. poll_loop mp lib (suc left) rest (record s { source = t })) filled
              ∙ ap
                  (λ (p : Result (ReturnType × Fields) × Unoq mp.Byte).
                    after_poll p.0 (poll_loop mp lib left (later rest) (arrived (now rest) p.1)))
                  succeeds,
          found,
        ),
        poll_loop-idle n,
      )
