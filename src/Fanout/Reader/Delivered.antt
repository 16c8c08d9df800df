-- ===== src/Fanout/Reader/Delivered.antt =====
-- fanout/reader.go: what the reads of a reader return.
use mathlib.Core.List.{Permᴰ}
use gofrog.Prelude.{
  ◌≢◌, ◌⊎◌, inl, inr, ap, Option-cases, ◌≡◌, refl, ◌∙◌, ◌↔◌, List, [], ◌∷◌, Bool, true, false, ◌&&◌,
  if◌then◌else◌, Option, none, some, Bytes, Completion, arith,
}
use gofrog.Fanout.Reader.{
  written, of_consumer_error, add_message, outcome, Reader, SourceRead, FanError, of_source,
  of_consumer, eof, closed_pipe, new_reader, write_pipes, fan_error, message, messages, last_error,
  close, read,
}

module _ {X : Type 0} where
  abbrev pub is_nil : Option (FanError X) → Bool
  is_nil none = true
  is_nil (some _) = false

  all_nil : List (Option (FanError X)) → Bool
  all_nil [] = true
  all_nil (m ∷ ms) = is_nil m && all_nil ms

  all_nil-perm : {m n : List (Option (FanError X))} → Permᴰ m n → all_nil m ≡ all_nil n
  unfolding all_nil
  all_nil-perm Permᴰ.nil = refl
  all_nil-perm (Permᴰ.cons e p) = ground (arith, all_nil-perm p)
  all_nil-perm (Permᴰ.swap e f) = ground arith
  all_nil-perm (Permᴰ.trans p q) = all_nil-perm p ∙ all_nil-perm q

  last_error-is_nil :
      (e : Option (FanError X)) (ms : List (Option (FanError X)))
      → is_nil (last_error e ms) ≡ (is_nil e && all_nil ms)
  unfolding last_error all_nil
  last_error-is_nil e [] = ground arith
  last_error-is_nil e (none ∷ ms) = last_error-is_nil e ms
  last_error-is_nil e (some m ∷ ms) = ground (arith, last_error-is_nil (some m) ms)

  -- Every consumer takes the bytes without an error.
  abbrev pub all_accept : Bytes → List (Bytes → Option X) → Bool
  all_accept p [] = true
  all_accept p (c ∷ cs) = elim (c p) [ none ↦ all_accept p cs | some _ ↦ false ]

  is_nil-of_consumer_error :
      (o : Option X) (ms : List (Option (FanError X))) (cs : List (Bytes → Option X)) (p : Bytes)
      → all_nil ms ≡ all_accept p cs
      → (is_nil (of_consumer_error o) && all_nil ms)
        ≡ elim o [ none ↦ all_accept p cs | some _ ↦ false ]
  unfolding of_consumer_error
  is_nil-of_consumer_error none ms cs p same = same
  is_nil-of_consumer_error (some e) ms cs p same = refl

  any_consumer : List (Bytes → Option X) → Bool
  any_consumer [] = false
  any_consumer (_ ∷ _) = true

  -- A piece reaches every consumer.
  messages-delivered :
      (is_closed : Bool) (p : Bytes) (cs : List (Bytes → Option X))
      → (ms : List (Option (FanError X))) × (messages is_closed (some p) cs ≡ some ms)
        × (all_nil ms ≡ all_accept p cs)
  unfolding all_nil messages message add_message of_consumer_error
  messages-delivered is_closed p [] = ([], refl, refl)
  messages-delivered is_closed p (c ∷ cs) =
      let (ms, same, nil) = messages-delivered is_closed p cs in
      (of_consumer_error (c p) ∷ ms, rw (same) refl, is_nil-of_consumer_error (c p) ms cs p nil)

  is_nil_iff : (e : Option (FanError X)) → (is_nil e ≡ true) ↔ (e ≡ none)
  is_nil_iff none = ground arith
  is_nil_iff (some e) = ground arith

  is_eof : Option (FanError X) → Bool
  is_eof (some eof) = true
  is_eof _ = false

  -- Every message is the end of a pipe.
  all_eof : List (Option (FanError X)) → Bool
  unfolding is_eof
  all_eof [] = true
  all_eof (m ∷ ms) = is_eof m && all_eof ms

  all_eof-perm : {m n : List (Option (FanError X))} → Permᴰ m n → all_eof m ≡ all_eof n
  unfolding all_eof
  all_eof-perm Permᴰ.nil = refl
  all_eof-perm (Permᴰ.cons e p) = ground (arith, all_eof-perm p)
  all_eof-perm (Permᴰ.swap e f) = ground arith
  all_eof-perm (Permᴰ.trans p q) = all_eof-perm p ∙ all_eof-perm q

  has_message : List (Option (FanError X)) → Bool
  has_message [] = false
  has_message (_ ∷ _) = true

  has_message-perm : {m n : List (Option (FanError X))} → Permᴰ m n → has_message m ≡ has_message n
  unfolding has_message
  has_message-perm Permᴰ.nil = refl
  has_message-perm (Permᴰ.cons e p) = refl
  has_message-perm (Permᴰ.swap e f) = refl
  has_message-perm (Permᴰ.trans p q) = has_message-perm p ∙ has_message-perm q

  is_eof_lem : (m : Option (FanError X)) → is_eof m ≡ true → m ≡ some eof
  unfolding is_eof
  is_eof_lem none h = cc
  is_eof_lem (some (of_source e)) h = cc
  is_eof_lem (some (of_consumer e)) h = cc
  is_eof_lem (some eof) h = refl
  is_eof_lem (some closed_pipe) h = cc

  last_error-eof :
      (e : Option (FanError X)) (ms : List (Option (FanError X)))
      → all_eof ms ≡ true
      → last_error e ms ≡ (if has_message ms then some eof else e)
  unfolding last_error all_eof has_message is_eof
  last_error-eof e [] h = refl
  last_error-eof e (none ∷ ms) h = cc
  last_error-eof e (some m ∷ ms) h = ground (arith, is_eof_lem (some m), last_error-eof (some m) ms)

  -- Closed pipes that nothing was written to are at their ends.
  messages-ended :
      (cs : List (Bytes → Option X))
      → (ms : List (Option (FanError X))) × (messages true none cs ≡ some ms)
        × (all_eof ms ≡ true)
        × (has_message ms ≡ any_consumer cs)
  unfolding all_eof messages message add_message is_eof has_message any_consumer
  messages-ended [] = ([], refl, refl, refl)
  messages-ended (c ∷ cs) =
      let (ms, same, ends, more) = messages-ended cs in
      (some eof ∷ ms, rw (same) refl, ground (arith, ends), refl)

  -- A read, by the piece that is written to the pipes, and the outcomes of the consumers.
  read_lem :
      (order : Completion (Option (FanError X))) (r : Reader X) (source : SourceRead X)
      (piece : Option Bytes) (e : Option (FanError X)) (ms : List (Option (FanError X)))
      → written r source ≡ piece
      → fan_error r source ≡ e
      → messages true piece r.consumers ≡ some ms
      → read order r source ≡ some (close r, 0, last_error e (order.visit ms))
  unfolding read close outcome
  read_lem order r source piece e ms a b c = rw (a, b, c) refl

  -- A read with nothing written to the pipes.
  read-ended :
      (order : Completion (Option (FanError X))) (r : Reader X) (c : Bytes → Option X)
      (cs : List (Bytes → Option X)) (source : SourceRead X)
      → r.consumers ≡ c ∷ cs
      → written r source ≡ none
      → read order r source ≡ some (close r, 0, some eof)
  unfolding read close any_consumer
  read-ended order r c cs source same nothing =
      let (ms, sent, ends, more) = messages-ended r.consumers in
      read_lem order r source none (fan_error r source) ms nothing refl sent
      ∙ ap (λ e. some (close r, 0, e))
          (last_error-eof (fan_error r source) (order.visit ms)
              (all_eof-perm (order.visits_all ms) ∙ ends)
            ∙ rw (has_message-perm (order.visits_all ms), more, same) refl)

  closed_written :
      (cs : List (Bytes → Option X)) (source : SourceRead X)
      → written (record { consumers = cs; closed = true }) source ≡ none
  unfolding written
  closed_written cs source = ground arith

  failed_written :
      (r : Reader X) (source : SourceRead X) (x : X)
      → source.read_error ≡ some x
      → written r source ≡ none
  unfolding written
  failed_written r source x fails = ground arith

  new_written :
      (cs : List (Bytes → Option X)) (source : SourceRead X)
      → source.read_error ≡ none
      → written (new_reader cs) source ≡ some source.bytes_read
  unfolding written new_reader
  new_written cs source fine = ground arith

  new_fan_error :
      (cs : List (Bytes → Option X)) (source : SourceRead X)
      → source.read_error ≡ none
      → fan_error (new_reader cs) source ≡ none
  unfolding fan_error new_reader write_pipes
  new_fan_error [] source fine = ground arith
  new_fan_error (c ∷ cs) source fine = ground arith

  -- A new reader with at least one consumer, whatever the source returns: the first read returns 0 bytes, and
  -- EOF in place of any error of the source or, when the source has none, no error exactly when every consumer
  -- takes the bytes without one; the second read, of whatever, returns EOF.
  pub read-eof :
      (order : Completion (Option (FanError X))) (c : Bytes → Option X)
      (cs : List (Bytes → Option X)) (source source' : SourceRead X)
      → (r : Reader X) × (e : Option (FanError X)) × (read order (new_reader (c ∷ cs)) source
          ≡ some (r, 0, e))
        × (((source.read_error ≢ none) × (e ≡ some eof))
            ⊎ ((source.read_error ≡ none) × (is_nil e ≡ all_accept source.bytes_read (c ∷ cs))))
        × (read order r source' ≡ some (r, 0, some eof))
  unfolding new_reader close
  read-eof order c cs source source' = elim (Option-cases source.read_error) [
    | inl fine ↦
        let (ms, sent, nil) = messages-delivered true source.bytes_read (c ∷ cs) in
        let first = new_reader (c ∷ cs) in
        (
          close first,
          last_error none (order.visit ms),
          read_lem order first source (some source.bytes_read) none ms
              (new_written (c ∷ cs) source fine) (new_fan_error (c ∷ cs) source fine) sent,
          inr (
            fine,
            last_error-is_nil none (order.visit ms) ∙ all_nil-perm (order.visits_all ms) ∙ nil,
          ),
          read-ended order (close first) c cs source' refl (closed_written (c ∷ cs) source'),
        )
    | inr (x, fails) ↦
        let first = new_reader (c ∷ cs) in
        (
          close first,
          some eof,
          read-ended order first c cs source refl (failed_written first source x fails),
          inl (λ none_e. absurd (ground arith), refl),
          read-ended order (close first) c cs source' refl (closed_written (c ∷ cs) source'),
        )
  ]
