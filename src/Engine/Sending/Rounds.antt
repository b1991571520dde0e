-- ===== src/Engine/Sending/Rounds.antt =====
-- desktop/src/engine/mod.rs: what the loop of `send_file_blocking` sends.
use antarloka.Prelude.{
  ℕ, ◌+◌, ◌^◌, ◌<◌, ◌≡◌, refl, true, false, List, [], ◌∷◌, some, length, list_eq, nat_eq, arith,
  length-append, ◌∙◌, ap, beq_refl,
}
use antarloka.Prelude.Map.{lookup, insert, lookup-insert}
use antarloka.Text.{Bytes}
use antarloka.Proto.Message.{Message, TransferId}
use antarloka.Engine.State.{Inner, Params, Env, Conn, Outgoing, Effect, sent, emit, send, send_to}
use antarloka.Engine.Transfer.Stream.{concat}
use antarloka.Engine.Sending.{
  Sender, bytes_read, Round, next, stopped, all_read, pop_signal, take_signal, is_cancelled,
  interrupts, advance, report_progress, send_read, send_round,
}

-- The device is connected and paired, and nobody has cancelled or signalled.
pub record IsQuiet (channel : ℕ) (s : Inner) (x : Sender) : Type 0 where
  pub conn : Conn
  pub connected : lookup x.to s.conns ≡ some conn
  pub paired : conn.authorised ≡ true
  pub through : conn.sender ≡ channel
  pub entry : Outgoing
  pub filed : lookup x.id s.outgoing ≡ some entry
  pub going : entry.cancelled ≡ false
  pub silent : entry.signals ≡ []

-- The rounds for the pieces of a file as they are read, until one stops.
unfoldable pub send_rounds : Params → Env → List Bytes → Inner → Sender → Round × Inner
send_rounds px env [] s x = (next x, s)
send_rounds px env (b ∷ bs) s x =
    let (r, s1) = send_round px env s x (bytes_read b) in
    elim r [
      | next x1 ↦ send_rounds px env bs s1 x1
      | all_read ↦ (all_read, s1)
      | stopped ↦ (stopped, s1)
    ]

-- The chunks of the pieces behind each other, on top of what was handed to the channels before.
unfoldable pub chunks_on : ℕ → TransferId → ℕ → List Bytes → List Effect → List Effect
chunks_on channel id offset [] wire = wire
chunks_on channel id offset (b ∷ bs) wire =
    chunks_on channel id (offset + length b) bs
      (sent channel (Message.file_chunk id offset b) ∷ wire)

advance-offset : (n : ℕ) (x : Sender) → x.offset + n < 2 ^ 64 → (advance n x).offset ≡ x.offset + n
advance-offset n x h = omega arith

-- Where the loop stands after all pieces, and what it has handed over.
abbrev pub HandsOver : ℕ → List Bytes → Inner → Sender → Round × Inner → Type 0
HandsOver channel bs s x (r, s1) =
    (s1.wire ≡ chunks_on channel x.id x.offset bs s.wire)
    × ((x' : Sender) × (r ≡ next x') × (x'.offset ≡ x.offset + length (concat bs)))

module _ (px : Params) (env : Env) (works : env.sent_ok ≡ true) (channel : ℕ) where
  -- The state before the next round.
  abbrev after_round : Inner → Sender → Outgoing → Bytes → Inner
  after_round s x o b = report_progress (advance (length b) x) (
      send (record s { outgoing = insert x.id o s.outgoing }) channel
        (Message.file_chunk x.id x.offset b))

  send_round-after_round :
      (s : Inner) (x : Sender) (b : Bytes) (q : IsQuiet channel s x)
      → send_round px env s x (bytes_read b)
        ≡ (next (advance (length b) x), after_round s x (record q.entry { signals = [] }) b)
  unfolding send_round take_signal pop_signal is_cancelled interrupts send_read send_to
  send_round-after_round s x b q =
      ground (arith, q.connected, q.filed, q.going, q.silent, q.paired, q.through)

  after_round-IsQuiet :
      (s : Inner) (x : Sender) (b : Bytes) (q : IsQuiet channel s x)
      → IsQuiet channel (after_round s x (record q.entry { signals = [] }) b) (advance (length b) x)
  unfolding report_progress send emit
  after_round-IsQuiet s x b q = record {
    conn = q.conn;
    connected = ground (arith, q.connected);
    paired = q.paired;
    through = q.through;
    entry = record q.entry { signals = [] };
    filed = ground (
      arith,
      lookup-insert x.id x.id (record q.entry { signals = [] }) s.outgoing,
      beq_refl x.id,
    );
    going = q.going;
    silent = refl;
  }

  after_round-wire :
      (s : Inner) (x : Sender) (o : Outgoing) (b : Bytes)
      → (after_round s x o b).wire ≡ sent channel (Message.file_chunk x.id x.offset b) ∷ s.wire
  unfolding report_progress send emit
  after_round-wire s x o b = ground arith

  send_rounds-cons :
      (b : Bytes) (bs : List Bytes) (s : Inner) (x : Sender) (q : IsQuiet channel s x)
      → send_rounds px env (b ∷ bs) s x
        ≡ send_rounds px env bs
            (after_round s x (record q.entry { signals = [] }) b)
            (advance (length b) x)
  unfolding send_rounds
  send_rounds-cons b bs s x q =
      ap
        (λ (o : Round × Inner). elim o.0 as (λ r. Round × Inner) [
          | next x1 ↦ send_rounds px env bs o.1 x1
          | all_read ↦ (all_read, o.1)
          | stopped ↦ (stopped, o.1)
        ])
        (send_round-after_round s x b q)

  -- As long as the device stays connected and paired, every write to its channel succeeds, and
  -- nobody cancels or signals, the loop hands over all pieces of the file in chunks that follow one
  -- another without a gap, and ends behind the last.
  pub send_rounds-HandsOver :
      (bs : List Bytes) (s : Inner) (x : Sender)
      → IsQuiet channel s x
      → x.offset + length (concat bs) < 2 ^ 64
      → HandsOver channel bs s x (send_rounds px env bs s x)
  unfolding send_rounds chunks_on concat
  send_rounds-HandsOver [] s x q h = (refl, (x, refl, omega arith))
  send_rounds-HandsOver (b ∷ bs) s x q h =
      let o : Outgoing = record q.entry { signals = [] } in
      let s1 = after_round s x o b in
      let x1 = advance (length b) x in
      let whole = length-append b (concat bs) in
      let moved : x1.offset ≡ x.offset + length b =
        advance-offset (length b) x (omega (arith, whole, h)) in
      let (wire, (x', ends, offset)) =
        send_rounds-HandsOver bs s1 x1 (after_round-IsQuiet s x b q)
          (omega (arith, whole, moved, h)) in
      rw (send_rounds-cons b bs s x q) (
        wire
            ∙ ap (λ n. chunks_on channel x.id n bs s1.wire) moved
            ∙ ap (λ w. chunks_on channel x.id (x.offset + length b) bs w)
                (after_round-wire s x o b),
        (x', ends, omega (arith, offset, moved, whole)),
      )
