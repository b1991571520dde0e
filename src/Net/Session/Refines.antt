-- ===== src/Net/Session/Refines.antt =====
-- The two ends of a channel are a queue: nothing is lost, doubled, reordered or changed.
use antarloka.Prelude.{
  ℕ, suc, subst, Bool-cases, inl, inr, ◌∙◌, ◌+◌, ◌≤◌, ◌<◌, ◌≡◌, refl, Bool, true, false, List, [],
  ◌∷◌, ◌++◌, none, ok, err, length, length-append, arith, append-nil, ap, sym,
}
use antarloka.Text.{Bytes}
use antarloka.Proto.Message.{Message}
use antarloka.Proto.Codec.{Serde}
use antarloka.Proto.RoundTrip.{encode-eq-ok}
use antarloka.Net.Session.{Transport, closed, send_message, seal, shut, max_messages, write_all}
use antarloka.Net.Session.InTransit.{
  IsNoise, InTransit, landed, flying, InTransit-append, InStep-InTransit,
}
use antarloka.Net.Session.Calls.{send_message-open, send_message-shut, recv-frame, recv-empty}
use antarloka.Net.Session.Queue.{
  Act, put, get, hang_up, Queue, queue_act, run_queue, Link, link_act, run_link, new_link,
  IsDeliverable, AllDeliverable,
}

queue_act-shut :
    (m : Message) (q : Queue) → q.is_shut ≡ true → queue_act (put m) q ≡ (err closed, q)
unfolding queue_act
queue_act-shut m q gone = ground (arith, gone)

queue_act-open :
    (m : Message) (q : Queue)
    → q.is_shut ≡ false
    → queue_act (put m) q ≡ (ok none, record q { items = q.items ++ m ∷ [] })
unfolding queue_act
queue_act-open m q opened = ground (arith, opened)

module _ {T : Type 0} (snow : Transport T) (serde : Serde) {InStep : ℕ → T → T → Type 0}
    (honest : IsNoise snow InStep) where
  -- The link stands for the queue.
  record Carries (l : Link T) (q : Queue) : Type 0 where
    pub last : T
    pub in_step : InStep l.there.recvd last l.there.cipher
    pub transit : InTransit snow serde last l.there.inbound q.items l.here.cipher
    pub counted : l.here.sent ≡ l.there.recvd + length q.items
    pub same_end : l.here.is_shut ≡ q.is_shut
    pub flushed : l.here.outbound ≡ []

  Carries-put_open :
      (m : Message) (l : Link T) (q : Queue)
      → Carries l q
      → IsDeliverable snow serde m
      → l.here.sent < max_messages
      → q.is_shut ≡ false
      → ((link_act snow serde (put m) l).0 ≡ ok none)
        × Carries (link_act snow serde (put m) l).1 (record q { items = q.items ++ m ∷ [] })
  unfolding link_act
  Carries-put_open m l q h (pt, e, d) room opened =
      let (end, reached) =
        InStep-InTransit snow serde honest l.there.recvd l.there.cipher h.transit h.in_step in
      let (_, _, _, short) = encode-eq-ok serde m pt e in
      let (ct, next, w, size) =
        honest.writes (l.there.recvd + length q.items) l.here.cipher end pt reached
          (omega (arith, h.counted)) short in
      rw
        (
          send_message-open snow serde l.here m pt ct next (h.same_end ∙ opened) (omega arith) e
              short w,
          h.flushed,
        )
        (
          refl,
          record {
            last = h.last;
            in_step = h.in_step;
            transit = InTransit-append snow serde h.transit w size short d;
            counted = omega (arith, h.counted, length-append q.items (m ∷ []));
            same_end = h.same_end;
            flushed = refl;
          },
        )

  Carries-put_shut :
      (m : Message) (l : Link T) (q : Queue)
      → Carries l q
      → q.is_shut ≡ true
      → ((link_act snow serde (put m) l).0 ≡ err closed)
        × Carries (link_act snow serde (put m) l).1 q
  unfolding link_act
  Carries-put_shut m l q h gone =
      rw (send_message-shut snow serde none l.here m (h.same_end ∙ gone)) (
        refl,
        record {
          last = h.last;
          in_step = h.in_step;
          transit =
              subst (λ b. InTransit snow serde h.last b q.items l.here.cipher)
                (sym (ap (λ b. l.there.inbound ++ b) h.flushed ∙ append-nil l.there.inbound))
                h.transit;
          counted = h.counted;
          same_end = h.same_end;
          flushed = refl;
        },
      )

  Carries-put :
      (m : Message) (l : Link T) (q : Queue)
      → Carries l q
      → IsDeliverable snow serde m
      → l.here.sent < max_messages
      → ((link_act snow serde (put m) l).0 ≡ (queue_act (put m) q).0)
        × Carries (link_act snow serde (put m) l).1 (queue_act (put m) q).1
  Carries-put m l q h deliverable room = elim (Bool-cases q.is_shut) [
    | inl gone ↦ rw (queue_act-shut m q gone) (Carries-put_shut m l q h gone)
    | inr opened ↦ rw (queue_act-open m q opened) (Carries-put_open m l q h deliverable room opened)
  ]

  Carries-hang_up :
      (l : Link T) (q : Queue)
      → Carries l q
      → Carries (link_act snow serde hang_up l).1 (queue_act hang_up q).1
  unfolding link_act queue_act shut
  Carries-hang_up l q h = record {
    last = h.last;
    in_step = h.in_step;
    transit = h.transit;
    counted = h.counted;
    same_end = refl;
    flushed = h.flushed;
  }

  Carries-get_next :
      (l : Link T) (s : T) (wire : Bytes) (items : List Message) (shut_here : Bool)
      → InTransit snow serde s wire items l.here.cipher
      → InStep l.there.recvd s l.there.cipher
      → l.there.inbound ≡ wire
      → l.here.sent ≡ l.there.recvd + length items
      → l.here.is_shut ≡ shut_here
      → l.here.outbound ≡ []
      → l.here.sent ≤ max_messages
      → let q : Queue = record { items = items; is_shut = shut_here } in
        ((link_act snow serde get l).0 ≡ (queue_act get q).0)
        × Carries (link_act snow serde get l).1 (queue_act get q).1
  unfolding link_act queue_act
  Carries-get_next l s wire items gone (landed end) step i k z o room =
      rw (recv-empty snow serde l.there i) (
        refl,
        record {
          last = end;
          in_step = step;
          transit = landed end;
          counted = k;
          same_end = z;
          flushed = o;
        },
      )
  Carries-get_next l s wire items gone (flying start mid now pt ct rest m ms w c short d t) step i k
        z o room =
      let (after, r, stepped) = honest.reads l.there.recvd start mid l.there.cipher pt ct step w in
      rw
        (recv-frame snow serde l.there m pt ct rest after i (ground (arith, c, short))
          (omega (arith, k)) r d)
        (
          refl,
          record {
            last = mid;
            in_step = subst (λ n. InStep n mid after) (omega (arith, k)) stepped;
            transit = t;
            counted = omega (arith, k);
            same_end = z;
            flushed = o;
          },
        )

  Carries-get :
      (l : Link T) (q : Queue)
      → Carries l q
      → l.here.sent ≤ max_messages
      → ((link_act snow serde get l).0 ≡ (queue_act get q).0)
        × Carries (link_act snow serde get l).1 (queue_act get q).1
  Carries-get l q h room =
      Carries-get_next l h.last l.there.inbound q.items q.is_shut h.transit h.in_step refl h.counted
        h.same_end h.flushed room

  sent-link_act-le :
      (x : Act) (l : Link T) → (link_act snow serde x l).1.here.sent ≤ suc l.here.sent
  unfolding link_act send_message seal write_all shut
  sent-link_act-le (put m) l = ground arith
  sent-link_act-le get l = omega arith
  sent-link_act-le hang_up l = omega arith

  Carries-act :
      (x : Act) (acts : List Act) (l : Link T) (q : Queue)
      → Carries l q
      → AllDeliverable snow serde (x ∷ acts)
      → l.here.sent < max_messages
      → ((link_act snow serde x l).0 ≡ (queue_act x q).0)
        × Carries (link_act snow serde x l).1 (queue_act x q).1
        × AllDeliverable snow serde acts
  unfolding link_act queue_act
  Carries-act (put m) acts l q h (d, ds) room =
      let (same, next) = Carries-put m l q h d room in (same, next, ds)
  Carries-act get acts l q h ds room =
      let (same, next) = Carries-get l q h (omega arith) in (same, next, ds)
  Carries-act hang_up acts l q h ds room = (refl, Carries-hang_up l q h, ds)

  run_link-Carries :
      (acts : List Act) (l : Link T) (q : Queue)
      → Carries l q
      → AllDeliverable snow serde acts
      → l.here.sent + length acts ≤ max_messages
      → run_link snow serde acts l ≡ run_queue acts q
  unfolding run_link run_queue
  run_link-Carries [] l q h d room = refl
  run_link-Carries (x ∷ acts) l q h d room =
      let (same, next, ds) = Carries-act x acts l q h d (omega arith) in
      let rest =
        run_link-Carries acts (link_act snow serde x l).1 (queue_act x q).1 next ds
          (omega (arith, sent-link_act-le x l)) in
      cc

  -- The two ends of a new session answer every sequence of requests as a queue of messages does,
  -- when each message sent is one that `decode` takes back, the two ciphers start in step, and
  -- there are no more requests than the 2^48 messages that a session may carry.
  pub run_link-run_queue :
      (acts : List Act) (s r : T)
      → InStep 0 s r
      → AllDeliverable snow serde acts
      → length acts ≤ max_messages
      → run_link snow serde acts (new_link s r)
        ≡ run_queue acts (record { items = []; is_shut = false })
  run_link-run_queue acts s r step d room =
      let start : Carries (new_link s r) (record { items = []; is_shut = false }) = record {
        last = s;
        in_step = step;
        transit = landed s;
        counted = refl;
        same_end = refl;
        flushed = refl;
      } in
      run_link-Carries acts (new_link s r) (record { items = []; is_shut = false }) start d
        (omega arith)
