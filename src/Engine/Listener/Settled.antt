-- ===== src/Engine/Listener/Settled.antt =====
-- What one round of housekeeping brings about.
use antarloka.Prelude.{
  ℕ, ◌-◌, ◌+◌, ◌<◌, ltb, false, ◌≡◌, refl, true, List, [], ◌∷◌, some, ◌⊎◌, inl, inr, arith, leb,
  list_eq, nat_eq, Bool-cases, all, ap, ◌∙◌, ◌==◌,
}
use antarloka.Prelude.Map.{Map, lookup, retain}
use antarloka.Security.Fingerprint.{DeviceId}
use antarloka.Engine.State.{Inner, Params, Env, Conn, Effect, closed, PeerEntry, emit, send, close}
use antarloka.Engine.Housekeeping.{
  is_alive, expired, report_lost, expire_peers, waits_too_long, overdue, close_overdue,
  expire_pairings, ping_conns, ping_all,
}
use antarloka.Engine.Listener.{keepalive, tick}

-- The effect is among those that were handed to a channel.
unfoldable pub Handed : Effect → List Effect → Type 0
Handed x [] = ⊥
Handed x (y ∷ ys) = (x ≡ y) ⊎ Handed x ys

report_lost-wire : (ids : List DeviceId) (s : Inner) → (report_lost ids s).wire ≡ s.wire
unfolding report_lost emit
report_lost-wire [] s = refl
report_lost-wire (id ∷ ids) s = report_lost-wire ids (emit s _)

report_lost-conns : (ids : List DeviceId) (s : Inner) → (report_lost ids s).conns ≡ s.conns
unfolding report_lost emit
report_lost-conns [] s = refl
report_lost-conns (id ∷ ids) s = report_lost-conns ids (emit s _)

report_lost-peers : (ids : List DeviceId) (s : Inner) → (report_lost ids s).peers ≡ s.peers
unfolding report_lost emit
report_lost-peers [] s = refl
report_lost-peers (id ∷ ids) s = report_lost-peers ids (emit s _)

retain_alive :
    (now : ℕ) (m : Map DeviceId PeerEntry)
    → all (λ e. is_alive now e.1) (retain (λ id e. is_alive now e) m) ≡ true
unfolding retain all
retain_alive now [] = refl
retain_alive now ((id, e) ∷ m) = ground (arith, retain_alive now m)

ping_conns-peers : (m : Map DeviceId Conn) (s : Inner) → (ping_conns m s).peers ≡ s.peers
unfolding ping_conns send
ping_conns-peers [] s = refl
ping_conns-peers ((_, c) ∷ m) s = ping_conns-peers m (send s c.sender _)

ping_conns-Handed :
    (x : Effect) (m : Map DeviceId Conn) (s : Inner)
    → Handed x s.wire
    → Handed x (ping_conns m s).wire
unfolding ping_conns send Handed
ping_conns-Handed x [] s h = h
ping_conns-Handed x ((_, c) ∷ m) s h = ping_conns-Handed x m (send s c.sender _) (inr h)

module _ (px : Params) where
  close_overdue-peers :
      (l : List (DeviceId × ℕ)) (s : Inner) → (close_overdue px l s).peers ≡ s.peers
  unfolding close_overdue close emit
  close_overdue-peers [] s = refl
  close_overdue-peers ((id, ch) ∷ l) s = close_overdue-peers l (emit (close s ch) _)

  close_overdue-Handed :
      (x : Effect) (l : List (DeviceId × ℕ)) (s : Inner)
      → Handed x s.wire
      → Handed x (close_overdue px l s).wire
  unfolding close_overdue close emit Handed
  close_overdue-Handed x [] s h = h
  close_overdue-Handed x ((id, ch) ∷ l) s h = close_overdue-Handed x l (emit (close s ch) _) (inr h)

  overdue-Handed :
      (now : ℕ) (d : DeviceId) (c : Conn) (m : Map DeviceId Conn) (s : Inner)
      → lookup d m ≡ some c
      → waits_too_long now c ≡ true
      → Handed (closed c.sender) (close_overdue px (overdue now m) s).wire
  unfolding overdue lookup close_overdue close emit Handed
  overdue-Handed now d c [] s e w = ground (arith, e)
  overdue-Handed now d c ((j, k) ∷ m) s e w = elim (Bool-cases (j == d)) [
    | inl here ↦
        let same : k ≡ c = ground (arith, e, here) in
        rw (same, w) (close_overdue-Handed (closed c.sender) (overdue now m) _ (inl refl))
    | inr later ↦
        let rest : lookup d m ≡ some c = ground (arith, e, later) in
        elim (Bool-cases (waits_too_long now k)) [
          | inl v ↦ rw v (overdue-Handed now d c m _ rest w)
          | inr v ↦ rw v (overdue-Handed now d c m s rest w)
        ]
  ]

  -- Housekeeping is done: every peer left was heard of within the last 15 seconds, and each
  -- connection that is not authorised and waited more than 180 seconds since its user was asked has
  -- been told to close.
  pub record IsSettled (env : Env) (s next : Inner) : Type 0 where
    pub fresh : all (λ e. ltb (env.now - e.1.last_seen) 15) next.peers ≡ true
    pub closed_overdue :
        (d : DeviceId) (c : Conn) (asked : ℕ)
        → lookup d s.conns ≡ some c
        → c.authorised ≡ false
        → c.prompted_at ≡ some asked
        → asked + 180 < env.now
        → Handed (closed c.sender) next.wire

  late :
      (now asked : ℕ) (c : Conn)
      → c.authorised ≡ false
      → c.prompted_at ≡ some asked
      → asked + 180 < now
      → waits_too_long now c ≡ true
  unfolding waits_too_long
  late now asked c a p h = ground (arith, a, p, h)

  expire_peers-conns : (env : Env) (s : Inner) → (expire_peers env s).conns ≡ s.conns
  unfolding expire_peers
  expire_peers-conns env s = report_lost-conns (expired env.now s.peers) _

  expire_peers-peers :
      (env : Env) (s : Inner)
      → (expire_peers env s).peers ≡ retain (λ id e. is_alive env.now e) s.peers
  unfolding expire_peers
  expire_peers-peers env s = report_lost-peers (expired env.now s.peers) _

  expired-IsSettled :
      (env : Env) (s : Inner) → IsSettled env s (expire_pairings px env (expire_peers env s))
  unfolding expire_pairings
  expired-IsSettled env s =
      let s1 = expire_peers env s in
      record {
        fresh =
            rw (close_overdue-peers (overdue env.now s1.conns) s1, expire_peers-peers env s)
              (retain_alive env.now s.peers);
        closed_overdue = λ d c asked e a p h.
            let w = late env.now asked c a p h in
            overdue-Handed env.now d c s1.conns s1 (ap (lookup d) (expire_peers-conns env s) ∙ e) w;
      }

  -- Each round of the housekeeping thread settles the state that it finds.
  pub tick-IsSettled :
      (env : Env) (last_ping : ℕ) (s : Inner) → IsSettled env s (tick px env last_ping s).1
  unfolding tick ping_all
  tick-IsSettled env last_ping s =
      let s1 = expire_pairings px env (expire_peers env s) in
      let done = expired-IsSettled env s in
      elim (Bool-cases (leb keepalive (env.now - last_ping))) [
        | inr e ↦ rw e done
        | inl e ↦ rw e (record {
          fresh = rw (ping_conns-peers s1.conns s1) done.fresh;
          closed_overdue = λ d c asked k a p h.
              ping_conns-Handed (closed c.sender) s1.conns s1
                (done.closed_overdue d c asked k a p h);
        })
      ]
