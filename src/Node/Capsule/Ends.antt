-- ===== src/Node/Capsule/Ends.antt =====
-- node/src/codex-capsule-transitions.ts, `recordTerminal`: how a turn ends, and the replay of its end.
use mathlib.Core.Path.{subst}
use agent_relay.Prelude.{
  String, true, false, not, ◌+◌, ◌≡◌, ◌↔◌, refl, sym, ◌∙◌, ap, Option, none, some, List, string_eq,
  arith, length, last?, ok, >>=-eq-ok, beq→eq, beq_refl,
}
use agent_relay.Node.Capsule.Types.{
  TurnRef, Usage, Outcome, EventKind, HostEvent, Turn, event_kind_eq, host_event_eq, turn_ref_eq,
}
use agent_relay.Node.Capsule.State.{
  Host, State, put, host_turn, is_terminal, key_of_ref, require_turn_by_ref,
}
use agent_relay.Node.Capsule.Transitions.{append_terminal}
use agent_relay.Node.Capsule.Closing.{
  second_last?, usage_differs, terminal_differs, replay_terminal_events, close_turn, parse_terminal,
  record_terminal,
}
use agent_relay.Node.Capsule.Continues.{last?-append, second_last?-append}
use agent_relay.Node.Capsule.Changes.{require_turn_by_ref-lookup}
use agent_relay.Node.Capsule.Turns.{lookup-insert, insert-insert}

-- A turn that has ended with a usage and an outcome.
pub record EndedWith (t : Turn) (used : Usage) (outcome : Outcome) : Type 0 where
  pub at_end : is_terminal t.phase ≡ true
  pub same_usage : usage_differs (second_last? t.events) used ≡ false
  pub same_outcome : terminal_differs (last? t.events) (host_turn t) outcome ≡ false

abbrev usage_event : Turn → Usage → HostEvent
usage_event t used = record {
  kind = EventKind.usage used;
  turn = host_turn t;
  sequence = length t.events + 1;
}

abbrev end_event : Turn → Outcome → HostEvent
end_event t outcome = record {
  kind = EventKind.terminal outcome;
  turn = host_turn t;
  sequence = length t.events + 2;
}

append_terminal-EndedWith :
    (t : Turn) (used : Usage) (outcome : Outcome)
    → EndedWith (append_terminal t used outcome) used outcome
unfolding append_terminal host_turn
append_terminal-EndedWith t used outcome = record {
  at_end = refl;
  same_usage =
      rw (second_last?-append t.events (usage_event t used) (end_event t outcome))
        (ap not (beq_refl (EventKind.usage used)));
  same_outcome =
      rw (last?-append t.events (usage_event t used) (end_event t outcome))
        (ap not (beq_refl (end_event t outcome)));
}

close_turn-EndedWith :
    (t : Turn) (used : Usage) (outcome : Outcome) {u : Turn}
    → close_turn t used outcome ≡ ok u
    → EndedWith u used outcome
unfolding close_turn replay_terminal_events
close_turn-EndedWith t used outcome h = ground (arith, append_terminal-EndedWith t used outcome)

close_turn-host_turn :
    (t : Turn) (used : Usage) (outcome : Outcome) {u : Turn}
    → close_turn t used outcome ≡ ok u
    → host_turn u ≡ host_turn t
unfolding close_turn append_terminal host_turn replay_terminal_events
close_turn-host_turn t used outcome h = ground arith

usage_differs_unique :
    (o : Option HostEvent) (used used2 : Usage)
    → usage_differs o used ≡ false
    → usage_differs o used2 ≡ false
    → used2 ≡ used
usage_differs_unique none used used2 h k = cc
usage_differs_unique (some e) used used2 h k =
    ground (arith, beq→eq e.kind (EventKind.usage used), beq→eq e.kind (EventKind.usage used2))

terminal_differs_unique :
    (o : Option HostEvent) (ref : TurnRef) (outcome outcome2 : Outcome)
    → terminal_differs o ref outcome ≡ false
    → terminal_differs o ref outcome2 ≡ false
    → outcome2 ≡ outcome
terminal_differs_unique none ref outcome outcome2 h k = cc
terminal_differs_unique (some e) ref outcome outcome2 h k = ground (
  arith,
  beq→eq e (record { kind = EventKind.terminal outcome; turn = ref; sequence = e.sequence }),
  beq→eq e (record { kind = EventKind.terminal outcome2; turn = ref; sequence = e.sequence }),
)

-- An ended turn has one usage and one outcome.
EndedWith-inj :
    (t : Turn) (used used2 : Usage) (outcome outcome2 : Outcome)
    → EndedWith t used outcome
    → EndedWith t used2 outcome2
    → (used2 ≡ used) × (outcome2 ≡ outcome)
EndedWith-inj t used used2 outcome outcome2 e f = (
  usage_differs_unique (second_last? t.events) used used2 e.same_usage f.same_usage,
  terminal_differs_unique (last? t.events) (host_turn t) outcome outcome2 e.same_outcome
      f.same_outcome,
)

-- On an ended turn, the same end is a replay and any other is refused.
close_turn-ended :
    (t : Turn) (used : Usage) (outcome : Outcome)
    → is_terminal t.phase ≡ true
    → (EndedWith t used outcome → close_turn t used outcome ≡ ok t)
      × ((u : Turn) → close_turn t used outcome ≡ ok u → (u ≡ t) × EndedWith t used outcome)
unfolding close_turn replay_terminal_events
close_turn-ended t used outcome e =
    (λ x. ground (arith, x.same_usage, x.same_outcome), λ u h. (ground arith, ground arith))

parse_terminal-same :
    (host : Host) (outcome : Outcome) {parsed : Outcome}
    → parse_terminal host outcome ≡ ok parsed
    → parsed ≡ outcome
unfolding parse_terminal
parse_terminal-same host outcome h = ground arith

record_terminal-parts :
    (host : Host) (s : State) (ref : TurnRef) (used : Usage) (outcome : Outcome)
    {r : State × List HostEvent}
    → record_terminal host s ref used outcome ≡ ok r
    → (t : Turn) × (u : Turn) × (parse_terminal host outcome ≡ ok outcome)
      × (require_turn_by_ref s ref ≡ ok t)
      × (close_turn t used outcome ≡ ok u)
      × (r ≡ (put s (key_of_ref ref) u, u.events))
unfolding record_terminal
record_terminal-parts host s ref used outcome h =
    let (parsed, valid, h1) = >>=-eq-ok (parse_terminal host outcome) _ h in
    let (t, found, h2) = >>=-eq-ok (require_turn_by_ref s ref) _ h1 in
    let (u, closed, q) = >>=-eq-ok (close_turn t used parsed) _ h2 in
    let same : parsed ≡ outcome = parse_terminal-same host outcome valid in
    (
      t,
      u,
      valid ∙ ap ok same,
      found,
      subst (λ o. close_turn t used o ≡ ok u) same closed,
      ground arith,
    )

require_turn_by_ref-put :
    (s : State) (ref : TurnRef) (t u : Turn)
    → require_turn_by_ref s ref ≡ ok t
    → host_turn u ≡ host_turn t
    → require_turn_by_ref (put s (key_of_ref ref) u) ref ≡ ok u
unfolding require_turn_by_ref
require_turn_by_ref-put s ref t u found same =
    let named : host_turn u ≡ ref = same ∙ (require_turn_by_ref-lookup s ref found).1 in
    ground (arith, lookup-insert (key_of_ref ref) u s.turns, named, beq_refl ref)

put-put : (s : State) (key : String) (u : Turn) → put (put s key u) key u ≡ put s key u
put-put s key u = ap (λ turns. record s { turns = turns }) (insert-insert key u s.turns)

module _ (host : Host) (s : State) (ref : TurnRef) (u : Turn) where
  abbrev ended : State × List HostEvent
  ended = (put s (key_of_ref ref) u, u.events)

  record_terminal-kept :
      (used : Usage) (outcome : Outcome)
      → parse_terminal host outcome ≡ ok outcome
      → require_turn_by_ref ended.0 ref ≡ ok u
      → EndedWith u used outcome
      → record_terminal host ended.0 ref used outcome ≡ ok ended
  unfolding record_terminal
  record_terminal-kept used outcome valid found e =
      rw (valid, found, (close_turn-ended u used outcome e.at_end).0 e)
        (ap (λ x. ok (x, u.events)) (put-put s (key_of_ref ref) u))

  record_terminal-same :
      (used used2 : Usage) (outcome outcome2 : Outcome) (q : State × List HostEvent)
      → require_turn_by_ref ended.0 ref ≡ ok u
      → EndedWith u used outcome
      → record_terminal host ended.0 ref used2 outcome2 ≡ ok q
      → (used2 ≡ used) × (outcome2 ≡ outcome) × (q ≡ ended)
  record_terminal-same used used2 outcome outcome2 q found e h =
      let (t, v, valid, found2, closed, result) =
        record_terminal-parts host ended.0 ref used2 outcome2 h in
      let here : t ≡ u = ground (arith, found, found2) in
      let (kept, other) =
        (close_turn-ended u used2 outcome2 e.at_end).1 v
          (subst (λ x. close_turn x used2 outcome2 ≡ ok v) here closed) in
      let (one, two) = EndedWith-inj u used used2 outcome outcome2 e other in
      (
        one,
        two,
        result
            ∙ ap (λ x. (put ended.0 (key_of_ref ref) x, x.events)) kept
            ∙ ap (λ x. (x, u.events)) (put-put s (key_of_ref ref) u),
      )

-- After a turn's end has been recorded, recording an end for it again succeeds exactly for the same
-- usage and the same outcome, and then changes nothing and gives the same events.
pub record_terminal-again :
    (host : Host) (s : State) (ref : TurnRef) (used : Usage) (outcome : Outcome)
    {r : State × List HostEvent}
    → record_terminal host s ref used outcome ≡ ok r
    → (used2 : Usage) (outcome2 : Outcome) (q : State × List HostEvent)
    → (record_terminal host r.0 ref used2 outcome2 ≡ ok q)
      ↔ ((used2 ≡ used) × (outcome2 ≡ outcome) × (q ≡ r))
record_terminal-again host s ref used outcome {r} h used2 outcome2 q =
    let (t, u, valid, found, closed, result) = record_terminal-parts host s ref used outcome h in
    subst
      (λ p.
        (record_terminal host p.0 ref used2 outcome2 ≡ ok q)
        ↔ ((used2 ≡ used) × (outcome2 ≡ outcome) × (q ≡ p)))
      (sym result)
      (replay u valid
        (require_turn_by_ref-put s ref t u found (close_turn-host_turn t used outcome closed))
        (close_turn-EndedWith t used outcome closed))
  where
    replay :
        (u : Turn)
        → parse_terminal host outcome ≡ ok outcome
        → require_turn_by_ref (put s (key_of_ref ref) u) ref ≡ ok u
        → EndedWith u used outcome
        → (record_terminal host (put s (key_of_ref ref) u) ref used2 outcome2 ≡ ok q)
          ↔ ((used2 ≡ used) × (outcome2 ≡ outcome) × (q ≡ (put s (key_of_ref ref) u, u.events)))
    replay u valid found e = (
      record_terminal-same host s ref u used used2 outcome outcome2 q found e,
      λ (one, two, three).
          rw (one, two, three) (record_terminal-kept host s ref u used outcome valid found e),
    )
